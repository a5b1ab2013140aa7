-- ===== src/Options/Laws.antt =====
-- What an option source may rely on.
use editrig_go.Base.{
  ◌≤◌, ◌≡◌, ◌≢◌, refl, ap, ◌∙◌, Bool, true, false, arith, List, [], ◌∷◌, String, ◌==◌, eq_iff, All,
  if◌then◌else◌, Bool-cases, inl, inr, ◌&&◌,
}
use Prim.Native.Char.{code}
use Prim.Native.String.{[], ◌∷◌}
use editrig_go.Text.{split, trim_space, trim_left, trim_right, is_space}
use editrig_go.Text.Decimal.{Parsed, bad, negative, natural, atoi}
use editrig_go.Map.{Map}
use editrig_go.Options.{clamp_limit, clean_ids, options_query, query_get}

clamp_limit_bounds : (p : Parsed) → (1 ≤ clamp_limit p) × (clamp_limit p ≤ 200)
clamp_limit_bounds bad = (omega arith, omega arith)
clamp_limit_bounds (negative n) = (omega arith, omega arith)
clamp_limit_bounds (natural n) = ground arith

-- A text that starts with no space, or is empty.
abbrev starts_solid : String → Bool
starts_solid [] = true
starts_solid (c ∷ s) = if is_space (code c) then false else true

trim_left-starts_solid : (s : String) → starts_solid (trim_left s) ≡ true
unfolding trim_left
trim_left-starts_solid [] = refl
trim_left-starts_solid (c ∷ s) = ground (arith, trim_left-starts_solid s)

trim_left_of_solid : (s : String) → starts_solid s ≡ true → trim_left s ≡ s
unfolding trim_left
trim_left_of_solid [] h = refl
trim_left_of_solid (c ∷ s) h = ground arith

trim_right-starts_solid : (s : String) → starts_solid s ≡ true → starts_solid (trim_right s) ≡ true
unfolding trim_right
trim_right-starts_solid [] h = refl
trim_right-starts_solid (c ∷ s) h = ground arith

trim_right_idem : (s : String) → trim_right (trim_right s) ≡ trim_right s
unfolding trim_right
trim_right_idem [] = refl
trim_right_idem (c ∷ s) = elim (Bool-cases (is_space (code c) && trim_right s == "")) [
  | inl h ↦ rw h refl
  | inr h ↦ rw h (rw (trim_right_idem s) (rw h refl))
]

-- Trimming a text twice is trimming it once.
pub trim_space_idem : (s : String) → trim_space (trim_space s) ≡ trim_space s
unfolding trim_space
trim_space_idem s =
    ap trim_right (
      trim_left_of_solid (trim_right (trim_left s))
        (trim_right-starts_solid (trim_left s) (trim_left-starts_solid s)))
    ∙ trim_right_idem (trim_left s)

-- An id that reaches a source: trimmed, and not empty.
abbrev pub IsCleanId : String → Type 0
IsCleanId id = (id ≢ "") × (trim_space id ≡ id)

clean_ids-IsCleanId : (raws : List String) → All IsCleanId (clean_ids raws)
unfolding clean_ids
clean_ids-IsCleanId [] = tt
clean_ids-IsCleanId (raw ∷ rest) = elim (Bool-cases (trim_space raw == "")) [
  | inl h ↦ rw h (clean_ids-IsCleanId rest)
  | inr h ↦
      rw h (
        (ground (arith, eq_iff (trim_space raw) ""), trim_space_idem raw),
        clean_ids-IsCleanId rest,
      )
]

-- Whatever the query string holds, the limit lies between 1 and 200, each id is trimmed and not
-- empty, and the search and the parent are trimmed.
pub options_query_sound :
    (q : Map (List String))
    → (1 ≤ (options_query q).limit)
      × ((options_query q).limit ≤ 200)
      × All IsCleanId (options_query q).ids
      × (trim_space (options_query q).search ≡ (options_query q).search)
      × (trim_space (options_query q).parent ≡ (options_query q).parent)
unfolding options_query
options_query_sound q = (
  (clamp_limit_bounds (atoi (query_get q "limit"))).0,
  (clamp_limit_bounds (atoi (query_get q "limit"))).1,
  clean_ids-IsCleanId (split b',' (query_get q "ids")),
  trim_space_idem (query_get q "q"),
  trim_space_idem (query_get q "parent"),
)
