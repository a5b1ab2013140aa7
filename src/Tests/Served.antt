-- ===== src/Tests/Served.antt =====
-- Runs of the theorems on a store under the handler.
use editrig_go.Base.{
  ◌≡◌, subst, refl, false, Option, none, some, [], ◌∷◌, arith, ap, sym, some_inj, Bool, true, List,
  String,
}
use editrig_go.Map.{lookup}
use editrig_go.Jet.Store.{Change, Reported, returned, panicked}
use editrig_go.Errors.{plain_catalog}
use editrig_go.Entity.{Entity}
use editrig_go.Registry.{get}
use editrig_go.Http.{World, ◌>>=◌, continue, pure, call, reply, reply_error}
use editrig_go.Handler.{Handler, entity_of, load_or_404, load_or_500, run_load}
use editrig_go.Handler.Write.{write, current_row}
use editrig_go.Handler.Harmless.{SavesAtomically}
use editrig_go.Fixtures.{toy_engine, handler, form_request}
use editrig_go.Jet.Store.Contract.{
  with_store, ReportsReturn, IsStored as IsStoredEntity, ReadsOnly, with_store-SavesAtomically,
  store-write-with_store,
}
use editrig_go.Jet.Store.Save.{load}
use editrig_go.Jet.Table.Row.{row, row_cols, first_row, main_row}
use editrig_go.Jet.Table.{split_keys, names, find_column, projs_of, row_sql}
use editrig_go.Jet.Column.{is_satellite}
use editrig_go.Jet.Column.Cells.{text_cell}
use editrig_go.Jet.Satellite.{keyed_strings}
use editrig_go.Fixtures.Posts.{toy_library, Log, toy_db, toy_law, post_store, post_store-Stays}

abbrev shell : Entity Log
shell = record {
  name = "post";
  disable_create = false;
  disable_update = false;
  disable_delete = false;
  schema = none;
  load = none;
  save = none;
  delete = none;
  validate = none;
  options = [];
}

shell-ReadsOnly : ReadsOnly shell
shell-ReadsOnly = record {
  schema = λ hook e cat row. absurd (cc);
  validate = λ hook e cat id input. absurd (cc);
}

abbrev is_returned : Reported Log → Bool
is_returned (returned s) = true
is_returned (panicked s) = false

abbrev post_entity : Entity Log
post_entity = with_store toy_library toy_db shell post_store

post_store-Returns : ReportsReturn post_store
post_store-Returns hook e id changes created s s' h =
    let clash = ap is_returned (
      subst
        (λ (f : String → List Change → Bool → Log → Reported Log).
          f id changes created s ≡ panicked s')
        (sym (some_inj e)) h) in
    absurd (cc)

with_store-SavesAtomically_example : SavesAtomically post_entity
with_store-SavesAtomically_example =
    with_store-SavesAtomically toy_library toy_db shell post_store toy_law post_store-Stays
      post_store-Returns

post_entity-IsStored : IsStoredEntity toy_library toy_db post_entity
post_entity-IsStored = record {
  rest = shell;
  st = post_store;
  law = toy_law;
  is_store = refl;
  reads = shell-ReadsOnly;
  stays = post_store-Stays;
  returns = post_store-Returns;
}

abbrev StoredIn : Option (Entity Log) → Type 0
StoredIn none = Unit
StoredIn (some e) = IsStoredEntity toy_library toy_db e

registry-IsStored :
    (e : Entity Log)
    → get (("post", post_entity) ∷ []) "post" ≡ some e
    → IsStoredEntity toy_library toy_db e
unfolding get lookup
registry-IsStored e p = subst StoredIn p post_entity-IsStored

abbrev post_handler : Handler Log
post_handler = record {
  reg = ("post", post_entity) ∷ [];
  copy = λ r entity. plain_catalog;
  settings = handler.settings;
}

abbrev empty_world : World Log
empty_world = record { store = []; open_forms = 0 }

store-write-with_store_example :
    (write toy_engine post_handler form_request "post" (some "7") empty_world).1.store ≡ []
unfolding write ◌>>=◌ continue pure call reply reply_error entity_of get lookup with_store
    current_row load_or_404 load_or_500 run_load load row row_cols first_row main_row split_keys
    names find_column projs_of row_sql is_satellite text_cell keyed_strings
store-write-with_store_example =
    store-write-with_store toy_engine toy_library toy_db post_handler form_request "post" (some "7")
      empty_world _ registry-IsStored refl (omega arith, omega arith)
