-- ===== src/Jet/Rels/Ids.antt =====
-- The ids of a relation, and the writes of a relation.
use editrig_go.Base.{
  ℕ, suc, ◌≡◌, refl, ◌∙◌, ap, Bool, true, false, not, ◌&&◌, ◌||◌, sym, eq_iff, arith, Option, none,
  some, some_inj, List, [], ◌∷◌, String, ◌==◌, if◌then◌else◌, mem_text, subst,
}
use editrig_go.Json.{
  Value, null, bool, num, str, arr, obj, upload, typed, opaque, items, items-of_items,
}
use editrig_go.Jet.Sql.{Database, IsTransactional, SqlColumn, Tx}
use editrig_go.Jet.Sql.Rules.{Stays, Stays-pure, Stays-exec, Stays-bind}
use editrig_go.Jet.Values.{Library}
use editrig_go.Jet.Store.Stays.{StaysCell}
use editrig_go.Jet.Rels.{
  RelsTable, rels, ids_of, listed_ids, RelationValue, decoded, listed, id_slice, any_slice,
  save_rels, replace_rels, insert_ids, texts,
}

-- No text twice, none of them empty, and none among those that were seen.
abbrev pub AreNewIds : List String → List String → Type 0
AreNewIds seen [] = Unit
AreNewIds seen (s ∷ ss) = ((s == "" || mem_text s seen) ≡ false) × AreNewIds (s ∷ seen) ss

-- The texts of a list, and those of what `idSlice` is given.
abbrev text_items : List Value → List String
text_items [] = []
text_items (str s ∷ vs) = s ∷ text_items vs
text_items (v ∷ vs) = text_items vs

abbrev pub given_texts : RelationValue → List String
given_texts (decoded (arr vs)) = text_items (items vs)
given_texts (decoded v) = []
given_texts (listed ss) = ss

-- The two loops do the same with the texts.
ids_of-listed_ids :
    (vs : List Value) (seen : List String) → ids_of vs seen ≡ listed_ids (text_items vs) seen
unfolding ids_of listed_ids
ids_of-listed_ids [] seen = refl
ids_of-listed_ids (str s ∷ vs) seen =
    ap (λ r. if s == "" || mem_text s seen then ids_of vs seen else s ∷ r)
      (ids_of-listed_ids vs (s ∷ seen))
    ∙ ap (λ r. if s == "" || mem_text s seen then r else s ∷ listed_ids (text_items vs) (s ∷ seen))
        (ids_of-listed_ids vs seen)
ids_of-listed_ids (null ∷ vs) seen = ids_of-listed_ids vs seen
ids_of-listed_ids (bool b ∷ vs) seen = ids_of-listed_ids vs seen
ids_of-listed_ids (num n ∷ vs) seen = ids_of-listed_ids vs seen
ids_of-listed_ids (arr a ∷ vs) seen = ids_of-listed_ids vs seen
ids_of-listed_ids (obj o ∷ vs) seen = ids_of-listed_ids vs seen
ids_of-listed_ids (upload u ∷ vs) seen = ids_of-listed_ids vs seen
ids_of-listed_ids (typed o ∷ vs) seen = ids_of-listed_ids vs seen
ids_of-listed_ids (opaque ∷ vs) seen = ids_of-listed_ids vs seen

ids_if :
    (s : String) (seen rest skipped : List String) (b : Bool)
    → (s == "" || mem_text s seen) ≡ b
    → AreNewIds (s ∷ seen) rest
    → AreNewIds seen skipped
    → AreNewIds seen (if b then skipped else s ∷ rest)
ids_if s seen rest skipped true e h k = k
ids_if s seen rest skipped false e h k = (e, h)

listed_ids-AreNewIds : (ss seen : List String) → AreNewIds seen (listed_ids ss seen)
unfolding listed_ids
listed_ids-AreNewIds [] seen = tt
listed_ids-AreNewIds (s ∷ ss) seen =
    ids_if s seen _ _ _ refl (listed_ids-AreNewIds ss (s ∷ seen)) (listed_ids-AreNewIds ss seen)

-- A text is among the ids exactly if it was given, is not empty and was not seen.
mem_if :
    (t s : String) (seen rest skipped more : List String) (b : Bool)
    → (s == "" || mem_text s seen) ≡ b
    → mem_text t rest ≡ (mem_text t more && not (t == "" || mem_text t (s ∷ seen)))
    → mem_text t skipped ≡ (mem_text t more && not (t == "" || mem_text t seen))
    → mem_text t (if b then skipped else s ∷ rest)
      ≡ (mem_text t (s ∷ more) && not (t == "" || mem_text t seen))
mem_if t s seen rest skipped more true e h k = ground (arith, k, e, eq_iff s t)
mem_if t s seen rest skipped more false e h k = ground (arith, h, e, eq_iff s t)

mem_text-listed_ids :
    (t : String) (ss seen : List String)
    → mem_text t (listed_ids ss seen) ≡ (mem_text t ss && not (t == "" || mem_text t seen))
unfolding listed_ids
mem_text-listed_ids t [] seen = refl
mem_text-listed_ids t (s ∷ ss) seen =
    mem_if t s seen _ _ ss _ refl (mem_text-listed_ids t ss (s ∷ seen))
      (mem_text-listed_ids t ss seen)

ids_kept :
    (s : String) (seen rest skipped : List String) (b : Bool)
    → (s == "" || mem_text s seen) ≡ b
    → b ≡ false
    → (if b then skipped else s ∷ rest) ≡ s ∷ rest
ids_kept s seen rest skipped true e h = absurd (cc)
ids_kept s seen rest skipped false e h = refl

listed_ids-new : (ids seen : List String) → AreNewIds seen ids → listed_ids ids seen ≡ ids
unfolding listed_ids
listed_ids-new [] seen a = refl
listed_ids-new (s ∷ ids) seen (h, a) =
    ids_kept s seen _ _ _ refl h ∙ ap (s ∷◌) (listed_ids-new ids (s ∷ seen) a)

text_items-texts : (ids : List String) → text_items (texts ids) ≡ ids
text_items-texts [] = refl
text_items-texts (s ∷ ids) = ap (s ∷◌) (text_items-texts ids)

id_slice-given :
    (v : RelationValue) (ids : List String)
    → id_slice v ≡ some ids
    → ids ≡ listed_ids (given_texts v) []
unfolding id_slice
id_slice-given (decoded (arr vs)) ids e = sym (some_inj e) ∙ ids_of-listed_ids (items vs) []
id_slice-given (listed ss) ids e = sym (some_inj e)
id_slice-given (decoded null) ids e = absurd (cc)
id_slice-given (decoded (bool b)) ids e = absurd (cc)
id_slice-given (decoded (num n)) ids e = absurd (cc)
id_slice-given (decoded (str s)) ids e = absurd (cc)
id_slice-given (decoded (obj o)) ids e = absurd (cc)
id_slice-given (decoded (upload u)) ids e = absurd (cc)
id_slice-given (decoded (typed o)) ids e = absurd (cc)
id_slice-given (decoded opaque) ids e = absurd (cc)

id_slice-any_slice :
    (ids : List String) → AreNewIds [] ids → id_slice (decoded (any_slice ids)) ≡ some ids
unfolding id_slice any_slice
id_slice-any_slice ids a =
    ap (λ vs. some (ids_of vs [])) (items-of_items (texts ids))
    ∙ ap some (
        ids_of-listed_ids (texts ids) []
        ∙ ap (λ ss. listed_ids ss []) (text_items-texts ids)
        ∙ listed_ids-new ids [] a)

-- The ids that a relation writes are exactly the texts that were given, in a decoded list or in a
-- list from code, without the empty text; none is there twice; and the value that the save reports
-- parses to the same ids.
pub id_slice-AreNewIds :
    (v : RelationValue) (ids : List String)
    → id_slice v ≡ some ids
    → ((t : String) → mem_text t ids ≡ (mem_text t (given_texts v) && not (t == "")))
      × AreNewIds [] ids
      × (id_slice (decoded (any_slice ids)) ≡ some ids)
id_slice-AreNewIds v ids e =
    let known = id_slice-given v ids e in
    let new = subst (AreNewIds []) (sym known) (listed_ids-AreNewIds (given_texts v) []) in
    (
      (λ t. ap (mem_text t) known ∙ mem_text-listed_ids t (given_texts v) [] ∙ ground arith),
      new,
      id_slice-any_slice ids new,
    )

module _ (lib : Library) {S T : Type 0} {db : Database S T} {law : IsTransactional db} where
  Stays-insert_ids :
      (rt : RelsTable) (path : String) (target : SqlColumn) (parent : String) (i : ℕ)
      (ids : List String)
      → Stays law (insert_ids lib db rt path target parent i ids)
  unfolding insert_ids
  Stays-insert_ids rt path target parent i [] = Stays-pure tt
  Stays-insert_ids rt path target parent i (id ∷ ids) =
      Stays-bind _ _ (Stays-exec _) (λ _. Stays-insert_ids rt path target parent (suc i) ids)

  Stays-save_rels :
      (rt : RelsTable) (path : String) (target : SqlColumn) (parent : String)
      (ids : Option (List String))
      → Stays law (save_rels lib db rt path target parent ids)
  unfolding replace_rels
  Stays-save_rels rt path target parent none = Stays-pure null
  Stays-save_rels rt path target parent (some ids) =
      Stays-bind _ _
        (Stays-bind _ _ (Stays-exec _) (λ _. Stays-insert_ids rt path target parent 0 ids))
        (λ _. Stays-pure _)

  -- A cell of `Rels` is one that a store may have.
  pub StaysCell-rels :
      (rt : RelsTable) (path : String) (target : SqlColumn)
      → StaysCell law (rels lib db rt path target)
  unfolding rels
  StaysCell-rels rt path target = record {
    save = λ f e id v.
        subst (λ (g : String → Value → Tx T Value). Stays law (g id v)) (some_inj e)
          (Stays-save_rels rt path target id _);
  }
