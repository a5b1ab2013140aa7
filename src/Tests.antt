-- ===== src/Tests.antt =====
-- Runs of the theorems at concrete inputs: registries, settings, payloads.
mod Requests
mod Declarations
mod Deletions
mod Uploads
mod Widened
mod Stores
mod Served
use mathlib.Core.List.Perm
use editrig_go.Base.{
  ◌≡◌, ◌≢◌, refl, Bool, true, false, Option, none, some, List, [], ◌∷◌, String, All, is_some, ◌≤◌,
  map, not, ◌&&◌, mem_text, if◌then◌else◌, arith, length, ◌↔◌,
}
use editrig_go.Map.{Map, lookup, has, insert}
use editrig_go.Json.{obj, str, end, member, members, of_members, Data, Raw, doc}
use editrig_go.Text.{trim_space}
use editrig_go.Options.{options_query}
use editrig_go.Options.Laws.{IsCleanId, options_query_sound}
use editrig_go.Entity.{Entity}
use editrig_go.Text.Sort.Laws.{IsSorted}
use editrig_go.Validate.Readonly.{strip_readonly, readonly_fields}
use editrig_go.Validate.{FieldError}
use editrig_go.Validate.Readonly.Strip.{strip_readonly_exact}
use editrig_go.Validate.Unknown.{
  pointer_token, schema_properties, unknown_fields, strip_unknown_fields, reject_unknown_fields,
  unknown_error,
}
use editrig_go.Validate.Unknown.Pointer.{decode_token-pointer_token}
use editrig_go.Validate.Unknown.Policy.{unknown_fields-strip, unknown_fields-reject}
use editrig_go.Validate.Structural.{compile, structural, collect_leaves}
use editrig_go.Validate.Structural.Leaves.{violations, structural_rejects}
use editrig_go.Validate.Widen.{ok, decode_token}
use editrig_go.Validate.Write.{
  is_keyed, prepare, ui_entries, object_entries, loaded_copy, normalize_members, normalize,
}
use editrig_go.Validate.Write.Overlay.{IsOverlaid, lookup-prepare}
use editrig_go.Validate.Markers.{marker_in, marker_of, fresh_text}
use editrig_go.Validate.Markers.Fresh.{fresh_text-marker_in}
use editrig_go.Config.{BodyLimits, pos, defaults, zero_limits, HandlerOption}
use editrig_go.Config.Laws.{IsLimited, has_negative, defaults_exact}
use editrig_go.Registry.{built, register, validate_entity, new_registry, get, names}
use editrig_go.Registry.Laws.{
  IsServable, HasDistinctNames, find_named, get-new_registry, new_registry_iff,
}
use editrig_go.Registry.Names.{names-new_registry}
use editrig_go.Fixtures.{
  refusal_tree, toy_engine, item_schema, item_properties, item_ui, item_ui_entries, Shop, item,
  other_item, item_registry, stored_row,
}

abbrev two_ids : Map (List String)
two_ids = ("limit", "900" ∷ []) ∷ ("ids", " a,,b " ∷ []) ∷ ("q", " lamp" ∷ []) ∷ []

abbrev submitted : Data
submitted =
    ("title", obj (member "de" (str "Leuchte") end)) ∷ ("serial", str "7") ∷ ("extra", str "x") ∷ []

decode_token-pointer_token_example : decode_token (pointer_token "a/b~c") ≡ "a/b~c"
decode_token-pointer_token_example = decode_token-pointer_token "a/b~c"

strip_readonly_exact_example :
    (lookup "serial" (strip_readonly item_ui submitted).1
      ≡ (if mem_text "serial" (readonly_fields item_ui) then none else lookup "serial" submitted))
    × (mem_text "serial" (strip_readonly item_ui submitted).0
        ≡ (mem_text "serial" (readonly_fields item_ui) && has "serial" submitted))
strip_readonly_exact_example = strip_readonly_exact item_ui "serial" submitted

unknown_fields-strip_example :
    (left : Data) × (unknown_fields item_schema submitted strip_unknown_fields ≡ some ([], left))
    × ((k : String) → lookup k left ≡ (if has k item_properties then lookup k submitted else none))
unfolding lookup schema_properties
unknown_fields-strip_example = unknown_fields-strip item_schema item_properties submitted refl

unknown_fields-reject_example :
    (ks : List String) × (unknown_fields item_schema submitted reject_unknown_fields
      ≡ some (map unknown_error ks, submitted))
    × IsSorted ks
    × ((k : String) → mem_text k ks ≡ (has k submitted && not (has k item_properties)))
unfolding lookup schema_properties
unknown_fields-reject_example = unknown_fields-reject item_schema item_properties submitted refl

structural_rejects_example :
    (fe : List FieldError) × (structural toy_engine item_schema (("bad", str "x") ∷ []) ≡ some fe)
    × (fe ≢ [])
unfolding compile lookup violations
structural_rejects_example =
    structural_rejects toy_engine item_schema (("bad", str "x") ∷ []) item_schema refusal_tree refl
      refl (omega arith)

lookup-prepare_example :
    (payload : Data) × ((prepare item_schema item_ui (some stored_row) submitted []
        ≡ ok (item_schema, payload))
      × ((name : String)
          → IsOverlaid
              (is_keyed item_ui_entries name)
              (lookup name stored_row)
              (lookup name submitted)
              (lookup name payload)))
unfolding ui_entries object_entries loaded_copy normalize_members normalize lookup
lookup-prepare_example =
    lookup-prepare item_schema item_ui (some stored_row) submitted stored_row item_ui_entries refl
      refl (refl, (refl, (refl, tt))) ((refl, tt), (tt, (tt, tt)))

defaults_exact_example :
    ((defaults zero_limits ≡ none) ↔ (has_negative zero_limits ≡ true))
    × ((full : BodyLimits)
        → defaults zero_limits ≡ some full
        → IsLimited full × (defaults full ≡ some full))
defaults_exact_example = defaults_exact zero_limits

abbrev two_built : Map (Entity Shop)
two_built = ("item", item) ∷ ("about", other_item) ∷ []

get-new_registry_example :
    (get two_built "about" ≡ find_named "about" (item ∷ other_item ∷ []))
    × ((e : Entity Shop) → get two_built "about" ≡ some e → IsServable e × (e.name ≡ "about"))
unfolding new_registry register validate_entity insert lookup
get-new_registry_example = get-new_registry (item ∷ other_item ∷ []) two_built "about" refl

new_registry_iff_example :
    ((reg : Map (Entity Shop)) × (new_registry (item ∷ item ∷ []) ≡ built reg))
    ↔ (All IsServable (item ∷ item ∷ []) × HasDistinctNames (item ∷ item ∷ []))
new_registry_iff_example = new_registry_iff (item ∷ item ∷ [])

names-new_registry_example :
    IsSorted (names two_built)
    × ((k : String) → mem_text k (names two_built) ≡ is_some (get two_built k))
    × (names two_built ≡ names (("about", other_item) ∷ ("item", item) ∷ []))
unfolding new_registry register validate_entity insert lookup
names-new_registry_example =
    names-new_registry (item ∷ other_item ∷ []) (other_item ∷ item ∷ []) two_built
      (("about", other_item) ∷ ("item", item) ∷ []) refl refl (Perm.swap other_item item [])

options_query_sound_example :
    (1 ≤ (options_query two_ids).limit)
    × ((options_query two_ids).limit ≤ 200)
    × All IsCleanId (options_query two_ids).ids
    × (trim_space (options_query two_ids).search ≡ (options_query two_ids).search)
    × (trim_space (options_query two_ids).parent ≡ (options_query two_ids).parent)
options_query_sound_example = options_query_sound two_ids

fresh_text-marker_in_example :
    marker_in
      (marker_of "photo/0" ∷ [])
      (marker_of (fresh_text (marker_of "photo/0" ∷ []) "photo" 0))
    ≡ false
fresh_text-marker_in_example = fresh_text-marker_in (marker_of "photo/0" ∷ []) "photo" 0
