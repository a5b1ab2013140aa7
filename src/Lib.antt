-- ===== src/Lib.antt =====
-- A model of the editrig-go engine: an HTTP API that serves create and edit forms of entities, and
-- writes the rows that are submitted. An application registers entities, records of hooks, and the
-- engine parses requests, validates payloads and calls the hooks.
--
-- The parts, with the files they model:
--   * Config: the limits and the policy of a handler (handler_config.go, upload.go's constants).
--   * Entity: the hooks (types.go). Errors: error values and copy (errors.go, catalog.go).
--   * Registry: NewRegistry, Get and Names (registry.go).
--   * Http: the part of net/http that the handlers see. A handler is a step on a World, the store
--     behind the hooks with the number of multipart forms whose temporary files are on disk; it
--     goes on with a value, answers or panics. Http.Rules and Http.Answers reason about steps.
--   * Upload: decodeBody (upload.go). Options: optionsQuery (options.go).
--   * Validate: FieldError; Readonly, Unknown, Media and Structural are the files of the same names
--     in validate/; Markers, Widen and Write are the parts of validate/write.go.
--   * Handler: NewHandler, Schema, Load, Delete and Options (handler.go, options.go); Handler.Write:
--     Create and Update with their shared path, in the order of the source.
--   * Ui: form fields and their predicates (ui/field.go, ui/items.go, ui/relation.go, ui/ui.go), with
--     Ui.Wire (ui/wire.go), Ui.Fields (scalar constructors, labels and modifiers of ui/field.go,
--     ui/geopoint.go, ui/emoji.go, ui/icon.go and ui/media.go), Ui.Split (Split and requiredOf of
--     ui/field.go, ui/relation.go, ui/media.go) and Ui.Modifiers (ui/field.go). Decl: the
--     declaration of a form (decl/decl.go) and Decl.Lint, the function lint of decl/lint.go, to which
--     the gate Lint appends the keyword check of ui.Lint.
--   * Jet: the store over PostgreSQL (adapter/erjet). Jet.Sql is what it uses of go-jet and pgx:
--     the syntax of statements, and a Database, whose transactions are sessions; a function works
--     in a transaction, reads a state, fails or panics. Jet.Values is normalize.go, Jet.Column
--     with its Cells and Arrays column.go and array.go, Jet.Table table.go, Jet.Satellite
--     satellite.go, Jet.Store store.go and change.go, Jet.Rels rels.go and deferred_list.go,
--     Jet.Child child.go. Jet.Store.Contract puts a store under the handler.
--   * Base, Text, Map and Json: Booleans, strings, maps as association lists, and decoded JSON.
--
-- A request says whether its query string is malformed, which ParseMultipartForm reports only after
-- it has put the form on disk. `OnWrite` of a Jet store may panic, behind the commit. A NewID
-- function of a child table is taken as a function of the element's key and position, and the key
-- "properties" of a schema is matched exactly, where encoding/json also takes it in another case.
--
-- Numbers are unbounded but for the int64 limits, whose sign is kept. JSON numbers are their
-- decimal text. Strings are bytes of ASCII text where they are trimmed or split.
-- Two searches run on fuel: a fresh marker is looked for as often as there are submitted values,
-- since each of them excludes one text, and references of a media schema are followed to the
-- square of the size of the schema, since none is followed twice on a path.
--
-- The JSON Schema package is the parameter SchemaEngine, the application's hooks are fields of an
-- Entity, and what the JSON and multipart readers find in a body is the record Body. The
-- database and the calls of Go's library in the adapter are the parameters Database and Library;
-- rows of a query arrive at once. Not modelled: logging and the routers, which are glue; the
-- wrappers Keyed, List, Items and IconEnum of ui/, its documents and ui.Lint; decl.Set.Fields; and
-- the cells of integer columns in the adapter, which check a float64.
pub mod Base
pub mod Text
pub mod Map
pub mod Json
pub mod Validate
pub mod Errors
pub mod Config
pub mod Entity
pub mod Registry
pub mod Http
pub mod Upload
pub mod Options
pub mod Handler
pub mod Ui
pub mod Decl
pub mod Jet
pub mod Fixtures
mod Tests
