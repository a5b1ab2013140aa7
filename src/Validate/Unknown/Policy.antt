-- ===== src/Validate/Unknown/Policy.antt =====
-- What each policy for undeclared keys does to the payload and to the answer.
use editrig_go.Base.{
  ◌≡◌, refl, ap, ◌∙◌, ◌&&◌, not, none, some, arith, List, [], ◌∷◌, map, if◌then◌else◌, String,
  eq_iff, mem_text, Option-cases, inl, inr,
}
use editrig_go.Text.Sort.{sort_strings}
use editrig_go.Text.Sort.Laws.{IsSorted, sort_strings-IsSorted, mem_text-sort_strings}
use editrig_go.Map.{lookup, delete, has, keys}
use editrig_go.Map.Laws.{lookup-delete, mem_text-keys}
use editrig_go.Json.{Data, Raw}
use editrig_go.Validate.{FieldError}
use editrig_go.Validate.Unknown.{
  schema_properties, undeclared, delete_all, unknown_error, unknown_fields, reject_unknown_fields,
  strip_unknown_fields,
}

mem_text-undeclared :
    (props : Data) (k : String) (ks : List String)
    → mem_text k (undeclared props ks) ≡ (mem_text k ks && not (has k props))
unfolding undeclared
mem_text-undeclared props k [] = refl
mem_text-undeclared props k (j ∷ ks) = ground (arith, mem_text-undeclared props k ks, eq_iff j k)

lookup-delete_all :
    (ks : List String) (k : String) (input : Data)
    → lookup k (delete_all ks input) ≡ (if mem_text k ks then none else lookup k input)
unfolding delete_all
lookup-delete_all [] k input = refl
lookup-delete_all (j ∷ ks) k input =
    ground (arith, lookup-delete_all ks k (delete j input), lookup-delete j k input)

-- The keys that a policy other than "allow" acts on, in sorted order.
abbrev pub unknown_keys : Data → Data → List String
unknown_keys props input = sort_strings (undeclared props (keys input))

pub mem_text-unknown_keys :
    (props input : Data) (k : String)
    → mem_text k (unknown_keys props input) ≡ (has k input && not (has k props))
mem_text-unknown_keys props input k =
    mem_text-sort_strings k (undeclared props (keys input))
    ∙ mem_text-undeclared props k (keys input)
    ∙ ap (λ b. b && not (has k props)) (mem_text-keys k input)

-- Under "strip", with a schema whose properties decode, the call reports no error and keeps exactly
-- the submitted keys that the schema declares, each with its value.
pub unknown_fields-strip :
    (schema : Raw) (props input : Data)
    → schema_properties schema ≡ some props
    → (left : Data) × (unknown_fields schema input strip_unknown_fields ≡ some ([], left))
      × ((k : String) → lookup k left ≡ (if has k props then lookup k input else none))
unfolding unknown_fields
unknown_fields-strip schema props input h = (
  delete_all (unknown_keys props input) input,
  rw h,
  λ k.
      lookup-delete_all (unknown_keys props input) k input
      ∙ ground (arith, mem_text-unknown_keys props input k),
)

-- Under "reject", with a schema whose properties decode, the payload is left as it is, and there is
-- one error for each key of a sorted list that holds exactly the submitted keys that the schema does
-- not declare.
pub unknown_fields-reject :
    (schema : Raw) (props input : Data)
    → schema_properties schema ≡ some props
    → (ks : List String) × (unknown_fields schema input reject_unknown_fields
        ≡ some (map unknown_error ks, input))
      × IsSorted ks
      × ((k : String) → mem_text k ks ≡ (has k input && not (has k props)))
unfolding unknown_fields
unknown_fields-reject schema props input h = (
  unknown_keys props input,
  rw h,
  sort_strings-IsSorted (undeclared props (keys input)),
  mem_text-unknown_keys props input,
)

-- Under every policy, a key that the payload does not have is not in the payload that is left.
pub lookup-unknown_fields :
    (schema : Raw) (input left : Data) (policy k : String) (fe : List FieldError)
    → unknown_fields schema input policy ≡ some (fe, left)
    → lookup k input ≡ none
    → lookup k left ≡ none
unfolding unknown_fields
lookup-unknown_fields schema input left policy k fe e h =
    elim (Option-cases (schema_properties schema)) [
      | inl lost ↦ ground arith
      | inr (props, decoded) ↦ ground (arith, lookup-delete_all (unknown_keys props input) k input)
    ]
