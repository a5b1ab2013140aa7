-- ===== src/Text/Sort/Laws.antt =====
-- `sort.Strings` returns a sorted permutation, and the same one for every order of its input.
use mathlib.Core.List.{Perm, Permᴰ}
use mathlib.Core.Logic.{∥∥₁_elim}
use text.Mathlib.TextEquality.{IsScalar-prop}
use editrig_go.Base.{
  ◌≡◌, refl, ap, ◌∙◌, true, ◌||◌, arith, List, [], ◌∷◌, String, ◌==◌, All, mem_text, Bool-cases,
  inl, inr,
}
use editrig_go.Text.Sort.{text_leb, insert_sorted, sort_strings}
use editrig_go.Text.Sort.Order.{text_leb-total, text_leb_trans, text_leb_antisymm}

abbrev pub IsSorted : List String → Type 0
IsSorted [] = Unit
IsSorted (s ∷ ss) = All (λ t. text_leb s t ≡ true) ss × IsSorted ss

All-le_trans :
    (s t : String) (us : List String)
    → text_leb s t ≡ true
    → All (λ u. text_leb t u ≡ true) us
    → All (λ u. text_leb s u ≡ true) us
All-le_trans s t [] h a = tt
All-le_trans s t (u ∷ us) h (p, a) = (text_leb_trans s t u h p, All-le_trans s t us h a)

All-insert_sorted :
    (P : String → Type 0) (s : String) (ts : List String)
    → P s
    → All P ts
    → All P (insert_sorted s ts)
unfolding insert_sorted
All-insert_sorted P s [] p a = (p, tt)
All-insert_sorted P s (t ∷ ts) p (q, a) = elim (Bool-cases (text_leb s t)) [
  | inl h ↦ rw h (p, (q, a))
  | inr h ↦ rw h (q, All-insert_sorted P s ts p a)
]

insert_sorted-IsSorted :
    (s : String) (ts : List String) → IsSorted ts → IsSorted (insert_sorted s ts)
unfolding insert_sorted
insert_sorted-IsSorted s [] _ = (tt, tt)
insert_sorted-IsSorted s (t ∷ ts) (a, h) = elim (Bool-cases (text_leb s t)) [
  | inl p ↦ rw p ((p, All-le_trans s t ts p a), (a, h))
  | inr p ↦ rw p (
    All-insert_sorted (λ u. text_leb t u ≡ true) s ts (text_leb-total s t p) a,
    insert_sorted-IsSorted s ts h,
  )
]

pub sort_strings-IsSorted : (ss : List String) → IsSorted (sort_strings ss)
unfolding sort_strings
sort_strings-IsSorted [] = tt
sort_strings-IsSorted (s ∷ ss) =
    insert_sorted-IsSorted s (sort_strings ss) (sort_strings-IsSorted ss)

insert_sorted_comm :
    (s t : String) (us : List String)
    → insert_sorted s (insert_sorted t us) ≡ insert_sorted t (insert_sorted s us)
unfolding insert_sorted
insert_sorted_comm s t [] =
    ground (arith, text_leb-total s t, text_leb-total t s, text_leb_antisymm s t)
insert_sorted_comm s t (u ∷ us) = ground (
  arith,
  insert_sorted_comm s t us,
  text_leb-total s t,
  text_leb-total t s,
  text_leb_antisymm s t,
  text_leb_trans s t u,
  text_leb_trans t s u,
  text_leb-total s u,
  text_leb-total t u,
)

sort_strings_of_Permᴰ : {ss ts : List String} → Permᴰ ss ts → sort_strings ss ≡ sort_strings ts
unfolding sort_strings
sort_strings_of_Permᴰ Permᴰ.nil = refl
sort_strings_of_Permᴰ (Permᴰ.cons p h) = λ i. insert_sorted (p i) (sort_strings_of_Permᴰ h i)
sort_strings_of_Permᴰ (Permᴰ.swap {a = a} {b = b} {l = l} p q) =
    insert_sorted_comm a b (sort_strings l)
    ∙ (λ i. insert_sorted (q i) (insert_sorted (p i) (sort_strings l)))
sort_strings_of_Permᴰ (Permᴰ.trans h k) = sort_strings_of_Permᴰ h ∙ sort_strings_of_Permᴰ k

List_set : IsSet (List String)
List_set = hlevel IsScalar-prop

pub sort_strings_of_perm : {ss ts : List String} → Perm ss ts → sort_strings ss ≡ sort_strings ts
sort_strings_of_perm h = ∥∥₁_elim h (List_set _ _) sort_strings_of_Permᴰ

pub mem_text-insert_sorted :
    (k s : String) (ts : List String) → mem_text k (insert_sorted s ts) ≡ (s == k || mem_text k ts)
unfolding insert_sorted
mem_text-insert_sorted k s [] = refl
mem_text-insert_sorted k s (t ∷ ts) = ground (arith, mem_text-insert_sorted k s ts)

pub mem_text-sort_strings :
    (k : String) (ss : List String) → mem_text k (sort_strings ss) ≡ mem_text k ss
unfolding sort_strings
mem_text-sort_strings k [] = refl
mem_text-sort_strings k (s ∷ ss) =
    mem_text-insert_sorted k s (sort_strings ss)
    ∙ ap (λ b. s == k || b) (mem_text-sort_strings k ss)

pub All-sort_strings : (P : String → Type 0) (ss : List String) → All P ss → All P (sort_strings ss)
unfolding sort_strings
All-sort_strings P [] a = tt
All-sort_strings P (s ∷ ss) (p, a) =
    All-insert_sorted P s (sort_strings ss) p (All-sort_strings P ss a)
