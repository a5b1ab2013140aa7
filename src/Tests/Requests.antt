-- ===== src/Tests/Requests.antt =====
-- Runs of the theorems on whole requests.
use editrig_go.Base.{
  ◌≡◌, sym, ap, refl, true, false, Option, none, some, List, [], ◌∷◌, ◌+◌, ◌≤◌, String, arith,
  is_some, is_empty, ◌⊎◌, inl, inr, Bool-cases, subst,
}
use editrig_go.Map.{copy_into, insert, Map, lookup, delete, has, keys}
use editrig_go.Json.{str, end, member, Data, Upload}
use editrig_go.Errors.{plain_catalog}
use editrig_go.Entity.{Entity, Hook, SaveResult, SchemaResult}
use editrig_go.Config.{defaults, with_unknown_fields, HandlerOption}
use editrig_go.Config.Laws.{IsConfigured}
use editrig_go.Registry.{get, new_registry, register, validate_entity}
use editrig_go.Http.{
  Request, Response, answer, go, with_cleanup, reply, pure, ◌>>=◌, continue, call,
}
use editrig_go.Http.Rules.{Ensures}
use editrig_go.Upload.{
  decode_body, decode_json_body, read_at, request_data, data_from, decode_multipart, open_form,
  decode_form, read_files, read_parts,
}
use editrig_go.Upload.Laws.{left, lost_under, open_forms-decode_body}
use editrig_go.Upload.Laws.FilePresence.{DecodedOk, decode_body-DecodedOk}
use editrig_go.Upload.Laws.Limits.{body_limit, decode_body-le}
use editrig_go.Validate.Readonly.Strip.{IsReadonly}
use editrig_go.Handler.{
  Handler, new_handler, run_schema, entity_of, load_or_404, load_or_500, run_load, schema_or_500,
}
use editrig_go.Handler.Write.{
  checked_payload, write, write_decoded, save_checked, current_row, inject, run_validate,
  refuse_errors,
}
use editrig_go.Validate.Readonly.{
  strip_readonly, readonly_fields, readonly_keys, is_readonly_entry, strip_keys,
}
use editrig_go.Validate.Unknown.{unknown_fields}
use editrig_go.Validate.Structural.{structural, compile, verdict_errors}
use editrig_go.Validate.Write
use editrig_go.Text.{equal_fold, cut_prefix}
use editrig_go.Validate.Write.{
  prepare, normalize, normalize_members, overlay, ui_entries, object_entries, loaded_copy,
  merged_value, is_keyed,
}
use editrig_go.Text.Sort.{sort_strings, insert_sorted}
use editrig_go.Handler.Cleanup.{open_forms-write}
use editrig_go.Handler.Configured.{new_handler-IsConfigured}
use editrig_go.Handler.Harmless.{HooksRead, SavesAtomically}
use editrig_go.Handler.ClientErrors.{store-write}
use editrig_go.Handler.ReadonlySafe.{ValidateAddsNoKey, lookup-checked_payload}
use editrig_go.Handler.Answered.{write_answers}
use editrig_go.Fixtures.{
  toy_engine, Shop, item_save_hook, item, item_registry, small_limits, handler, json_request,
  form_request, stored_row, world,
}

abbrev taken_request : Request
taken_request = json_request (member "taken" (str "lamp") end)

item-HooksRead : HooksRead item
item-HooksRead = record {
  schema = λ hook p cat row s. ap (λ o. elim o [ none ↦ s | some k ↦ (k cat row s).1 ]) (sym p);
  load = λ hook p id s. ap (λ o. elim o [ none ↦ s | some k ↦ (k id s).1 ]) (sym p);
  validate = λ hook p cat id input s. absurd (ground arith);
}

item_save_hook-rolls_back :
    (id : Option String) (input : Data) (s : Shop)
    → (is_empty (item_save_hook id input s).0.field_errors ≡ false)
      ⊎ (is_some (item_save_hook id input s).0.failure ≡ true)
    → (item_save_hook id input s).1 ≡ s
item_save_hook-rolls_back id input s h = elim (Bool-cases (has "taken" input)) [
  | inl taken ↦ rw taken refl
  | inr free ↦ absurd (ground arith)
]

abbrev RollsBack : Option (Option String → Data → Hook Shop SaveResult) → Type 0
RollsBack none = Unit
RollsBack (some save) =
    (id : Option String) (input : Data) (s : Shop)
    → (is_empty (save id input s).0.field_errors ≡ false)
      ⊎ (is_some (save id input s).0.failure ≡ true)
    → (save id input s).1 ≡ s

item-SavesAtomically : SavesAtomically item
item-SavesAtomically = record { rolls_back = λ save p. subst RollsBack p item_save_hook-rolls_back }

item-ValidateAddsNoKey : ValidateAddsNoKey item
item-ValidateAddsNoKey hook p cat id input s k h = absurd (ground arith)

abbrev HooksOk : Option (Entity Shop) → Type 0
HooksOk none = Unit
HooksOk (some e) = HooksRead e × SavesAtomically e

registry_hooks :
    (e : Entity Shop) → get item_registry "item" ≡ some e → HooksRead e × SavesAtomically e
unfolding get lookup
registry_hooks e p = subst HooksOk p (item-HooksRead, item-SavesAtomically)

store-write_example :
    (write toy_engine handler taken_request "item" (some "1") world).1.store ≡ some stored_row
unfolding write ◌>>=◌ continue entity_of get lookup pure current_row load_or_404 load_or_500
    run_load call decode_body defaults decode_json_body read_at request_data data_from equal_fold
    copy_into with_cleanup write_decoded checked_payload schema_or_500 run_schema unknown_fields
    strip_readonly readonly_fields readonly_keys is_readonly_entry strip_keys insert delete
    sort_strings insert_sorted structural compile verdict_errors inject run_validate refuse_errors
    prepare overlay ui_entries object_entries loaded_copy normalize_members normalize merged_value
    is_keyed keys Write.write save_checked reply
store-write_example =
    store-write toy_engine handler taken_request "item" (some "1") world _ registry_hooks refl
      (omega arith, omega arith)

lookup-checked_payload_example :
    (s : SchemaResult) × ((run_schema item plain_catalog none world).0 ≡ go s)
    × ((k : String) → IsReadonly s.ui_schema k → lookup k (("photo", str "x") ∷ []) ≡ none)
unfolding checked_payload schema_or_500 run_schema unknown_fields strip_readonly readonly_fields
    readonly_keys is_readonly_entry strip_keys lookup insert delete sort_strings insert_sorted
    structural compile verdict_errors inject run_validate refuse_errors call pure ◌>>=◌ continue
    prepare overlay ui_entries object_entries loaded_copy merged_value is_keyed keys Write.write
lookup-checked_payload_example =
    lookup-checked_payload toy_engine "allow" item plain_catalog none none
      (("serial", str "7") ∷ ("photo", str "x") ∷ []) [] world (("photo", str "x") ∷ [])
      item-ValidateAddsNoKey refl

handler-IsConfigured : IsConfigured handler.settings
handler-IsConfigured = record {
  limited = ((refl, omega arith), (refl, omega arith), (refl, omega arith));
  policy = inl refl;
}

write_answers_example :
    (resp : Response) × ((write toy_engine handler form_request "item" none world).0 ≡ answer resp)
unfolding new_registry register validate_entity insert lookup
write_answers_example =
    write_answers toy_engine handler form_request handler-IsConfigured (item ∷ []) "item" none world
      refl

open_forms-write_example :
    (write toy_engine handler form_request "item" none world).1.open_forms ≡ world.open_forms
open_forms-write_example = open_forms-write toy_engine handler form_request refl "item" none world

abbrev photo_files : Map (List Upload)
photo_files =
    ("photo", record { filename = "a.png"; mime = "image/png"; content = "aaaa" } ∷ []) ∷ []

decode_body-le_example : form_request.body.size ≤ body_limit form_request small_limits
unfolding decode_body defaults decode_multipart open_form decode_form read_files read_parts lookup
    insert pure ◌>>=◌ continue cut_prefix
decode_body-le_example =
    decode_body-le form_request small_limits small_limits world {input = some []} {fs = photo_files}
      {held = true} refl refl

open_forms-decode_body_example :
    (decode_body form_request small_limits world).1.open_forms
    ≡ world.open_forms
      + left (decode_body form_request small_limits world).0
      + lost_under form_request (defaults small_limits)
open_forms-decode_body_example = open_forms-decode_body form_request small_limits world

decode_body-DecodedOk_example : Ensures {S = Shop} DecodedOk (decode_body form_request small_limits)
decode_body-DecodedOk_example =
    decode_body-DecodedOk form_request small_limits handler-IsConfigured.limited

abbrev strip_option : HandlerOption
strip_option h = record h { unknown_fields = "strip" }

new_handler-IsConfigured_example :
    (h : Handler Shop) × (new_handler (some item_registry) none (strip_option ∷ []) ≡ some h)
    × (h.reg ≡ item_registry)
    × IsConfigured h.settings
unfolding with_unknown_fields
new_handler-IsConfigured_example =
    new_handler-IsConfigured item_registry none (strip_option ∷ []) (inl ("strip", refl), tt)
