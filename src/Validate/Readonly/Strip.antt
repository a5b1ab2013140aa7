-- ===== src/Validate/Readonly/Strip.antt =====
-- What `StripReadonly` removes, and what it leaves.
use editrig_go.Base.{
  ◌≡◌, refl, ◌∙◌, true, false, ◌&&◌, none, some, arith, List, [], ◌∷◌, if◌then◌else◌, String,
  eq_iff, mem_text,
}
use editrig_go.Text.{has_prefix}
use editrig_go.Text.Sort.Laws.{mem_text-sort_strings}
use editrig_go.Map.{lookup, delete, has}
use editrig_go.Map.Laws.{lookup-delete}
use editrig_go.Json.{Value, Data, Raw, doc, unmarshal_object}
use editrig_go.Validate.Readonly.{
  is_readonly_entry, readonly_keys, readonly_fields, strip_keys, strip_readonly, ui_key_prefix,
}

-- The uiSchema declares the field `k` read-only.
abbrev pub IsReadonly : Raw → String → Type 0
IsReadonly ui k =
    (entries : Data) × (raw : Value) × (unmarshal_object ui ≡ some entries)
    × (lookup k entries ≡ some raw)
    × (is_readonly_entry raw ≡ true)
    × (has_prefix k ui_key_prefix ≡ false)

mem_text-readonly_keys :
    (k : String) (entries : Data) {raw : Value}
    → lookup k entries ≡ some raw
    → is_readonly_entry raw ≡ true
    → has_prefix k ui_key_prefix ≡ false
    → mem_text k (readonly_keys entries) ≡ true
unfolding readonly_keys lookup
mem_text-readonly_keys k [] h r p = cc
mem_text-readonly_keys k ((j, v) ∷ entries) {raw} h r p =
    ground (arith, eq_iff j k, mem_text-readonly_keys k entries {raw = raw})

pub mem_text-readonly_fields :
    (ui : Raw) (k : String) → IsReadonly ui k → mem_text k (readonly_fields ui) ≡ true
unfolding readonly_fields
mem_text-readonly_fields (doc v) k (entries, raw, u, l, r, p) =
    rw u (mem_text-sort_strings k (readonly_keys entries) ∙ mem_text-readonly_keys k entries l r p)
mem_text-readonly_fields ui k (entries, raw, u, l, r, p) = cc

lookup-strip_keys :
    (fs : List String) (k : String) (input : Data)
    → lookup k (strip_keys fs input).1 ≡ (if mem_text k fs then none else lookup k input)
unfolding strip_keys
lookup-strip_keys [] k input = refl
lookup-strip_keys (f ∷ fs) k input = ground (
  arith,
  lookup-strip_keys fs k (delete f input),
  lookup-strip_keys fs k input,
  lookup-delete f k input,
  eq_iff f k,
)

mem_text-strip_keys :
    (fs : List String) (k : String) (input : Data)
    → mem_text k (strip_keys fs input).0 ≡ (mem_text k fs && has k input)
unfolding strip_keys
mem_text-strip_keys [] k input = refl
mem_text-strip_keys (f ∷ fs) k input = ground (
  arith,
  mem_text-strip_keys fs k (delete f input),
  mem_text-strip_keys fs k input,
  lookup-delete f k input,
  eq_iff f k,
)

-- For every key: it is gone from the payload if the uiSchema lists it as read-only, and else it has
-- the value that was submitted; and it is reported as dropped exactly if it is listed and was
-- submitted.
pub strip_readonly_exact :
    (ui : Raw) (k : String) (input : Data)
    → (lookup k (strip_readonly ui input).1
        ≡ (if mem_text k (readonly_fields ui) then none else lookup k input))
      × (mem_text k (strip_readonly ui input).0 ≡ (mem_text k (readonly_fields ui) && has k input))
unfolding strip_readonly
strip_readonly_exact ui k input = (
  lookup-strip_keys (readonly_fields ui) k input,
  mem_text-strip_keys (readonly_fields ui) k input,
)

pub lookup-strip_readonly :
    (ui : Raw) (k : String) (input : Data)
    → IsReadonly ui k
    → lookup k (strip_readonly ui input).1 ≡ none
lookup-strip_readonly ui k input r =
    (strip_readonly_exact ui k input).0 ∙ rw (mem_text-readonly_fields ui k r)
