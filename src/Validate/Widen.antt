-- ===== src/Validate/Widen.antt =====
-- `uploadArraySchema` of validate/write.go: the schema of a media array, widened so that pending
-- uploads may stand among its items.
mod Refs
mod Known
mod Ends
pub mod Fuel
use editrig_go.Base.{
  ℕ, zero, suc, Bool, true, false, ◌||◌, Option, none, some, List, [], ◌∷◌, String, mem_text,
}
use editrig_go.Text.{cut_prefix, split, replace_pair}
use editrig_go.Map.{lookup, insert, delete, has}
use editrig_go.Json.{Value, Data, arr, obj, of_members, of_items, as_object, as_array, as_string}

-- A result, an error, or a search that ran out of fuel.
pub data Checked {ℓ} (A : Type ℓ) : Type ℓ where
  ok : A → Checked A
  failed : Checked A
  exhausted : Checked A

infixl 5 ◌>>=◌ ◌>>◌
abbrev pub ◌>>=◌ {ℓ κ} : {A : Type ℓ} {B : Type κ} → Checked A → (A → Checked B) → Checked B
ok a >>= f = f a
failed >>= f = failed
exhausted >>= f = exhausted

abbrev pub ◌>>◌ {ℓ} : {B : Type ℓ} → Checked (Unit {0}) → Checked B → Checked B
m >> k = m >>= λ _. k

abbrev pub refuse_if : Bool → Checked (Unit {0})
refuse_if true = failed
refuse_if false = ok tt

abbrev pub or_failed {ℓ} : {A : Type ℓ} → Option A → Checked A
or_failed none = failed
or_failed (some a) = ok a

module _ {ℓ κ} {A : Type ℓ} {B : Type κ} where
  unfoldable pub map_checked : (A → Checked B) → List A → Checked (List B)
  map_checked f [] = ok []
  map_checked f (x ∷ xs) = do y ← f x; ys ← map_checked f xs; ok (y ∷ ys)

abbrev pub any_of : List String → Data → Bool
any_of [] out = false
any_of (keyword ∷ rest) out = has keyword out || any_of rest out

-- The keywords that a media array schema may not have.
abbrev pub array_keywords : List String
array_keywords =
    "$id" ∷ "$dynamicRef" ∷ "$recursiveRef" ∷ "anyOf" ∷ "oneOf" ∷ "not" ∷ "if" ∷ "then" ∷ "else"
    ∷ "contains" ∷ "prefixItems" ∷ "unevaluatedItems" ∷ "enum" ∷ "const" ∷ []

-- One token of a JSON pointer, decoded.
unfoldable pub decode_token : String → String
decode_token token = replace_pair b'~' b'0' "~" (replace_pair b'~' b'1' "/" token)

-- The walk from the root along the tokens of a local reference.
unfoldable pub resolve : List String → Value → Option Value
resolve [] target = some target
resolve (token ∷ tokens) target = elim (as_object (some target)) [
  | none ↦ none
  | some m ↦ elim (lookup (decode_token token) m) [ none ↦ none | some v ↦ resolve tokens v ]
]

abbrev pub ref_tokens : String → Option (List String)
ref_tokens ref = elim (cut_prefix ref "#/") [ none ↦ none | some path ↦ some (split b'/' path) ]

-- `{"anyOf": [schema, {"enum": markers}]}`.
abbrev pub any_of_markers : List Value → Value → Value
any_of_markers markers schema = obj (
    of_members (
      (
        "anyOf",
        arr (of_items (schema ∷ obj (of_members (("enum", arr (of_items markers)) ∷ [])) ∷ [])),
      )
      ∷ []))

unfoldable pub widen_items : List Value → Data → Checked Data
widen_items markers out = elim (lookup "items" out) [
  | none ↦ ok out
  | some item ↦ elim (as_array (some item)) [
    | none ↦ ok (insert "items" (any_of_markers markers item) out)
    | some tuple ↦ failed
  ]
]

module _ (root : Value) (markers : List Value) where
  -- The fuel bounds the depth of the calls.
  unfoldable pub upload_array_schema : ℕ → List String → Value → Checked Value
  upload_array_schema zero seen node = exhausted
  upload_array_schema (suc fuel) seen node = elim (as_object (some node)) [
    | none ↦ ok node
    | some out ↦ do
      refuse_if (any_of array_keywords out)
      elim (as_string (lookup "$ref" out)) [
        | some ref ↦ do
          refuse_if (mem_text ref seen)
          tokens ← or_failed (ref_tokens ref)
          target ← or_failed (resolve tokens root)
          expanded ← upload_array_schema fuel (ref ∷ seen) target
          rest ← upload_array_schema fuel seen (obj (of_members (delete "$ref" out)))
          ok (obj (of_members (("allOf", arr (of_items (expanded ∷ rest ∷ []))) ∷ [])))
        | none ↦ do
          widened ← widen_items markers out
          elim (as_array (lookup "allOf" widened)) [
            | none ↦ ok (obj (of_members widened))
            | some branches ↦ do
              next ← map_checked (upload_array_schema fuel seen) branches
              ok (obj (of_members (insert "allOf" (arr (of_items next)) widened)))
          ]
      ]
  ]
