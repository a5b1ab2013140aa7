-- ===== src/Fixtures.antt =====
-- A small application for the tests: a store of one row, an entity over it, and a toy validator in
-- the place of the JSON Schema package.
pub mod Posts
use editrig_go.Base.{true, false, Option, none, some, [], ◌∷◌, String, if◌then◌else◌}
use editrig_go.Map.{Map, has}
use editrig_go.Json.{bool, str, obj, Members, end, member, Data, Raw, doc, as_object, or_nil}
use editrig_go.Validate.Structural.{
  SchemaEngine, required, other, failure, no_cause, cause, ValidationError, valid, invalid,
}
use editrig_go.Errors.{Catalog, plain_catalog}
use editrig_go.Entity.{Entity, Hook, SchemaResult, LoadResult, SaveResult}
use editrig_go.Config.{BodyLimits, pos}
use editrig_go.Http.{value, Request, World}
use editrig_go.Handler.{Handler}

abbrev pub refusal_tree : ValidationError
refusal_tree = failure [] (other "schema") (
    cause (failure [] (required ("title" ∷ "size" ∷ [])) no_cause)
      (cause (failure ("bad" ∷ []) (other "not") no_cause) no_cause))

-- Refuses the payloads that have the key "bad".
abbrev pub toy_engine : SchemaEngine
toy_engine = record {
  Document = Raw;
  Compiled = Raw;
  unmarshal_json = λ raw. some raw;
  add_resource = λ d. true;
  compile_resource = λ d. some d;
  run = λ c v. if has "bad" (or_nil (as_object (some v))) then invalid refusal_tree else valid;
  localized = λ k. "refused";
}

-- The properties "title", "serial" and "photo".
abbrev pub item_properties : Data
item_properties = ("title", obj end) ∷ ("serial", obj end) ∷ ("photo", obj end) ∷ []

abbrev pub item_schema : Raw
item_schema = doc (
    obj (
      member "properties"
        (obj (member "title" (obj end) (member "serial" (obj end) (member "photo" (obj end) end))))
        end))

abbrev pub item_ui_entries : Map Data
item_ui_entries =
    ("serial", ("ui:readonly", bool true) ∷ [])
    ∷ ("title", ("ui:field", str "keyed") ∷ [])
    ∷ ("photo", ("ui:field", str "media") ∷ [])
    ∷ []

-- "serial" is read-only, "title" is keyed, "photo" is media.
abbrev pub item_ui : Raw
item_ui = doc (
    obj (
      member "serial" (obj (member "ui:readonly" (bool true) end)) (
        member "title" (obj (member "ui:field" (str "keyed") end))
          (member "photo" (obj (member "ui:field" (str "media") end)) end))))

abbrev pub Shop : Type 0
Shop = Option Data

abbrev pub item_schema_hook : Catalog → Option Data → Hook Shop SchemaResult
item_schema_hook cat row s =
    (record { schema = item_schema; ui_schema = item_ui; failure = none }, s)

abbrev pub item_load_hook : String → Hook Shop LoadResult
item_load_hook id s = (record { row = s; failure = none }, s)

-- A title that is taken is refused.
abbrev pub item_save_hook : Option String → Data → Hook Shop SaveResult
item_save_hook id input s =
    if has "taken" input
    then (
      record {
        out_id = "";
        field_errors = record { field = "/taken"; message = "taken" } ∷ [];
        failure = none;
      },
      s,
    )
    else (record { out_id = "1"; field_errors = []; failure = none }, some input)

abbrev pub item : Entity Shop
item = record {
  name = "item";
  disable_create = false;
  disable_update = false;
  disable_delete = false;
  schema = some item_schema_hook;
  load = some item_load_hook;
  save = some item_save_hook;
  delete = none;
  validate = none;
  options = [];
}

abbrev pub other_item : Entity Shop
other_item = record item { name = "about" }

abbrev pub item_registry : Map (Entity Shop)
item_registry = ("item", item) ∷ []

abbrev pub small_limits : BodyLimits
small_limits = record {
  json_bytes = pos 100;
  multipart_bytes = pos 1000;
  multipart_memory = pos 10;
}

abbrev pub handler : Handler Shop
handler = record {
  reg = item_registry;
  copy = λ r entity. plain_catalog;
  settings = record { unknown_fields = "allow"; body_limits = small_limits };
}

-- A JSON body of 40 bytes that submits the row.
abbrev pub json_request : Members → Request
json_request row = record {
  content_type = "application/json";
  query = [];
  bad_query = false;
  body = record {
    size = 40;
    reads = record { upto = 40; token = value (obj (member "data" (obj row) end)) } ∷ [];
    form_upto = 0;
    form = none;
    tail_broken = false;
  };
}

-- A form with one file for the field "photo".
abbrev pub form_request : Request
form_request = record {
  content_type = "multipart/form-data";
  query = [];
  bad_query = false;
  body = record {
    size = 400;
    reads = [];
    form_upto = 390;
    form = some (record {
      values = [];
      files =
          (
            "file:photo",
            record { filename = "a.png"; mime = "image/png"; content = some "aaaa"; trouble = "" }
                ∷ [],
          )
          ∷ [];
    });
    tail_broken = false;
  };
}

abbrev pub stored_row : Data
stored_row = ("title", obj (member "en" (str "lamp") (member "de" (str "Lampe") end))) ∷ []

abbrev pub world : World Shop
world = record { store = some stored_row; open_forms = 0 }
