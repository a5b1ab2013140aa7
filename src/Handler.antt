-- ===== src/Handler.antt =====
-- handler.go: the handler, the steps that its operations share, and `Schema`, `Load`, `Delete` and
-- `Options` (of options.go). `Create` and `Update` are in `Handler.Write`. Logging is left out.
pub mod Write
pub mod Keeping
pub mod Cleanup
pub mod Configured
pub mod Harmless
pub mod Total
pub mod Injected
pub mod Deletes
pub mod Answered
pub mod ReadonlySafe
pub mod ClientErrors
use editrig_go.Base.{
  ℕ, Bool, true, false, not, ◌&&◌, Option, none, some, List, [], ◌∷◌, ◌++◌, String, ◌==◌,
  if◌then◌else◌, is_some, map,
}
use editrig_go.Map.{Map, lookup}
use editrig_go.Json.{Data, Raw, or_nil}
use editrig_go.Validate.{FieldError}
use editrig_go.Validate.Unknown.{allow_unknown_fields}
use editrig_go.Errors.{
  Failure, ConflictError, Catalog, plain_catalog, as_conflict, is_not_found, render_conflict,
}
use editrig_go.Config.{BodyLimits, Settings, HandlerOption, defaults, zero_limits}
use editrig_go.Entity.{
  Entity, Hook, SchemaResult, LoadResult, SaveResult, OptionsResult, OptionSource,
}
use editrig_go.Registry.{get}
use editrig_go.Http.{
  Request, Response, Envelope, ErrBody, Content, nothing, error, errors, envelope, choices, Exec,
  pure, reply, reply_error, crash, call, or_reply, ◌>>=◌,
}
use editrig_go.Options.{options_query}

-- `partition`: form-level messages and field errors, each in the order given.
abbrev add_error : FieldError → ErrBody → ErrBody
add_error f b =
    if f.field == ""
    then record b { form_errors = f.message ∷ b.form_errors }
    else record b { field_errors = f ∷ b.field_errors }

unfoldable pub partition : List FieldError → ErrBody
partition [] = record { field_errors = []; form_errors = [] }
partition (f ∷ fe) = add_error f (partition fe)

abbrev pub Copy : Type 0
Copy = Request → String → Catalog

pub record Handler (S : Type 0) : Type 0 where
  pub reg : Map (Entity S)
  pub copy : Copy
  pub settings : Settings

abbrev pub or_plain : Option Copy → Copy
or_plain none = λ r entity. plain_catalog
or_plain (some copy) = copy

abbrev pub apply_options : List HandlerOption → Settings → Settings
apply_options [] h = h
apply_options (option ∷ rest) h = apply_options rest (option h)

-- `NewHandler`; `none` is the panic on a nil registry.
unfoldable pub new_handler :
    {S : Type 0} → Option (Map (Entity S)) → Option Copy → List HandlerOption → Option (Handler S)
new_handler none copy options = none
new_handler (some reg) copy options = elim (defaults zero_limits) [
  | none ↦ none
  | some limits ↦ some (record {
    reg = reg;
    copy = or_plain copy;
    settings =
        apply_options options
          (record { unknown_fields = allow_unknown_fields; body_limits = limits });
  })
]

module _ {S : Type 0} (h : Handler S) where
  unfoldable pub entity_of : String → Exec S (Entity S)
  entity_of name = or_reply 400 "unknown entity" (get h.reg name)

module _ {S : Type 0} where
  abbrev pub call_schema :
      Option (Catalog → Option Data → Hook S SchemaResult)
      → Catalog
      → Option Data
      → Exec S SchemaResult
  call_schema none cat row = crash
  call_schema (some hook) cat row = call (hook cat row)

  abbrev pub call_load : Option (String → Hook S LoadResult) → String → Exec S LoadResult
  call_load none id = crash
  call_load (some hook) id = call (hook id)

  -- `e.Schema(...)`; a nil hook panics.
  unfoldable pub run_schema : Entity S → Catalog → Option Data → Exec S SchemaResult
  run_schema e cat row = call_schema e.schema cat row

  unfoldable pub run_load : Entity S → String → Exec S LoadResult
  run_load e id = call_load e.load id

  -- The schema, or 500.
  unfoldable pub schema_or_500 : Entity S → Catalog → Option Data → Exec S SchemaResult
  schema_or_500 e cat row = do
    s ← run_schema e cat row
    if is_some s.failure then reply_error 500 "schema" else pure s

  -- A row that may be gone, or 500.
  unfoldable pub load_or_500 : Entity S → String → Exec S (Option Data)
  load_or_500 e id = do
    l ← run_load e id
    if is_some l.failure then reply_error 500 "load" else pure l.row

  -- A row that is there, or 500, or 404.
  unfoldable pub load_or_404 : Entity S → String → Exec S Data
  load_or_404 e id = do row ← load_or_500 e id; or_reply 404 "not found" row

  abbrev pub envelope_of : Entity S → Option String → SchemaResult → Option Data → Content
  envelope_of e id s row =
      envelope
        (record { name = e.name; id = id; schema = s.schema; ui_schema = s.ui_schema; row = row })

module _ {S : Type 0} (h : Handler S) (r : Request) where
  -- `Schema`: the create form; its data is an empty map, not nil.
  unfoldable pub serve_schema : String → Exec S (Unit {0})
  serve_schema name = do
    e ← entity_of h name
    s ← schema_or_500 e (h.copy r e.name) none
    reply 200 (envelope_of e none s (some []))

  unfoldable pub serve_load : String → String → Exec S (Unit {0})
  serve_load name id = do
    e ← entity_of h name
    row ← load_or_404 e id
    s ← schema_or_500 e (h.copy r e.name) (some row)
    reply 200 (envelope_of e (some id) s (some row))

  abbrev pub conflict_reply : Entity S → Option ConflictError → Exec S (Unit {0})
  conflict_reply e none = reply_error 500 "delete"
  conflict_reply e (some ce) = reply 409 (
      errors
        (record { field_errors = []; form_errors = render_conflict (h.copy r e.name) ce ∷ [] }))

  -- What `Delete` answers once the hook has returned.
  abbrev pub delete_reply : Entity S → Option Failure → Exec S (Unit {0})
  delete_reply e none = reply 204 nothing
  delete_reply e (some f) = conflict_reply e (as_conflict f)

  abbrev pub delete_hook :
      Entity S → String → Option (String → Hook S (Option Failure)) → Exec S (Unit {0})
  delete_hook e id none = reply_error 405 "method not allowed"
  delete_hook e id (some hook) =
      if e.disable_delete
      then reply_error 405 "method not allowed"
      else do _ ← load_or_404 e id; f ← call (hook id); delete_reply e f

  unfoldable pub serve_delete : String → String → Exec S (Unit {0})
  serve_delete name id = do e ← entity_of h name; delete_hook e id e.delete

  abbrev pub options_reply : OptionsResult → Exec S (Unit {0})
  options_reply o =
      if is_some o.failure
      then reply_error 500 "options"
      else reply 200 (choices (or_nil o.choices))

  abbrev pub run_source : Entity S → Option (OptionSource S) → Exec S (Unit {0})
  run_source e none = reply_error 404 "not found"
  run_source e (some source) = do
    o ← call (source (h.copy r e.name) (options_query r.query))
    options_reply o

  unfoldable pub serve_options : String → String → Exec S (Unit {0})
  serve_options name field = do e ← entity_of h name; run_source e (lookup field e.options)
