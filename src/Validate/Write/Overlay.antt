-- ===== src/Validate/Write/Overlay.antt =====
-- What `Write` validates: the row overlaid with the submitted keys.
use editrig_go.Base.{
  ◌≡◌, refl, sym, subst, ◌∙◌, Bool, true, Option, none, some, arith, [], ◌∷◌, if◌then◌else◌, String,
  ◌==◌, eq_iff, Bool-cases, inl, inr, All,
}
use editrig_go.Map.{Map, lookup, insert, copy_into}
use editrig_go.Map.Laws.{lookup-insert, HasDistinctKeys, lookup-copy_into, or_else}
use editrig_go.Json.{Value, obj, members, of_members, Data, Raw, as_object}
use editrig_go.Validate.Widen.{ok}
use editrig_go.Validate.Write.{ui_entries, loaded_copy, is_keyed, merged_value, overlay, prepare}

-- The value of a key after the overlay, by the code: the submitted one, merged if the field is
-- keyed, or else the row's.
abbrev overlaid : Map Data → Data → String → Option Value → Option Value → Option Value
overlaid ui current name none old = old
overlaid ui current name (some v) old = some (merged_value ui current name v)

lookup-overlay :
    (ui : Map Data) (current input merged : Data) (name : String)
    → HasDistinctKeys input
    → lookup name (overlay ui current input merged)
      ≡ overlaid ui current name (lookup name input) (lookup name merged)
unfolding overlay lookup
lookup-overlay ui current [] merged name d = refl
lookup-overlay ui current ((k, v) ∷ input) merged name (apart, d) =
    lookup-overlay ui current input (insert k (merged_value ui current k v) merged) name d
    ∙ ground (arith, lookup-insert k name (merged_value ui current k v) merged, eq_iff k name)

-- An object has no key twice.
abbrev pub IsMapValue : Value → Type 0
IsMapValue (obj ms) = HasDistinctKeys (members ms)
IsMapValue _ = Unit

-- What a submitted value becomes, given whether the field is keyed and what the row has: over an
-- object, a keyed object keeps the stored partitions that it does not name; any other value is
-- taken as it is.
abbrev pub IsMerged : Bool → Option Value → Value → Value → Type 0
IsMerged true (some (obj old)) (obj next) result =
    (merged : Data) × ((result ≡ obj (of_members merged))
      × ((k : String)
          → lookup k merged ≡ or_else (lookup k (members next)) (lookup k (members old))))
IsMerged _ _ v result = result ≡ v

-- The value of a key: the row's where nothing is submitted.
abbrev pub IsOverlaid : Bool → Option Value → Option Value → Option Value → Type 0
IsOverlaid keyed old none result = result ≡ old
IsOverlaid keyed old (some v) result =
    (merged : Value) × ((result ≡ some merged) × IsMerged keyed old v merged)

abbrev merge_by : Bool → Option Value → Value → Value
merge_by keyed stored v =
    if keyed
    then elim (as_object stored) [
      | none ↦ v
      | some old ↦ elim (as_object (some v)) [
        | none ↦ v
        | some next ↦ obj (of_members (copy_into next old))
      ]
    ]
    else v

merge_by-IsMerged :
    (keyed : Bool) (stored : Option Value) (v : Value)
    → IsMapValue v
    → IsMerged keyed stored v (merge_by keyed stored v)
merge_by-IsMerged true (some (obj old)) (obj next) d = (
  copy_into (members next) (members old),
  (refl, λ k. lookup-copy_into (members next) (members old) k d),
)
merge_by-IsMerged _ _ v d = refl

abbrev OnValue : (Value → Type 0) → Option Value → Type 0
OnValue P none = Unit
OnValue P (some v) = P v

lookup-OnValue :
    (P : Value → Type 0) (m : Data) (name : String) → All (λ b. P b.1) m → OnValue P (lookup name m)
unfolding lookup
lookup-OnValue P [] name a = tt
lookup-OnValue P ((k, w) ∷ m) name (p, a) = elim (Bool-cases (k == name)) [
  | inl same ↦ rw same p
  | inr other ↦ rw other (lookup-OnValue P m name a)
]

overlaid-IsOverlaid :
    (ui : Map Data) (row : Data) (name : String) (new : Option Value)
    → ((v : Value) → new ≡ some v → IsMapValue v)
    → IsOverlaid
        (is_keyed ui name)
        (lookup name row)
        new
        (overlaid ui row name new (lookup name row))
unfolding merged_value
overlaid-IsOverlaid ui row name none d = refl
overlaid-IsOverlaid ui row name (some v) d =
    (_, (refl, merge_by-IsMerged (is_keyed ui name) (lookup name row) v (d v refl)))

-- What is validated when no file is pending: the schema as it is, and a payload in which a key that
-- was not submitted has the row's value, and a submitted one the submitted value; but where the
-- uiSchema calls the field keyed and both values are objects, it has an object with the submitted
-- partitions and the stored ones of any other key. The submitted objects have no key twice.
pub lookup-prepare :
    (schema ui_schema : Raw) (current : Option Data) (input row : Data) (ui : Map Data)
    → ui_entries ui_schema ≡ ok ui
    → loaded_copy current ≡ ok row
    → HasDistinctKeys input
    → All (λ b. IsMapValue b.1) input
    → (payload : Data) × ((prepare schema ui_schema current input [] ≡ ok (schema, payload))
        × ((name : String)
            → IsOverlaid
                (is_keyed ui name)
                (lookup name row)
                (lookup name input)
                (lookup name payload)))
unfolding prepare
lookup-prepare schema ui_schema current input row ui u l d a = (
  overlay ui row input row,
  (
    rw (u, l) refl,
    λ name.
        subst (λ o. IsOverlaid (is_keyed ui name) (lookup name row) (lookup name input) o)
          (sym (lookup-overlay ui row input row name d))
          (overlaid-IsOverlaid ui row name (lookup name input)
            λ v h. subst (OnValue IsMapValue) h (lookup-OnValue IsMapValue input name a)),
  ),
)
