-- ===== src/Jet/Rels.antt =====
-- adapter/erjet/rels.go and adapter/erjet/deferred_list.go: relations in a shared side table, and a
-- list whose elements are resolved before it is written.
pub mod Ids
use editrig_go.Base.{
  ℕ, suc, ◌+◌, ◌≡◌, Bool, true, false, not, ◌||◌, Option, none, some, List, [], ◌∷◌, ◌++◌, String,
  ◌==◌, if◌then◌else◌, is_some, mem_text,
}
use editrig_go.Json.{Value, null, str, arr, items, of_items}
use editrig_go.Ui.Wire.{kind_list, kind_string}
use editrig_go.Jet.Sql
use editrig_go.Jet.Sql.{
  SqlTable, SqlColumn, Cond, Statement, Query, Scanned, Database, Ran, ok, ◌>>→◌, Reader, Tx, ◌>>=◌,
  pure, crash, exec, column, text, int, text_eq, equals, not_null, both,
}
use editrig_go.Jet.Values.{Library, normalize_identifier}
use editrig_go.Jet.Column.{Column}
use editrig_go.Jet.Satellite.{cast_string}

-- `RelsTable`; the id column may be nil.
pub record RelsTable : Type 0 where
  pub src : SqlTable
  pub parent : SqlColumn
  pub path : SqlColumn
  pub order : SqlColumn
  pub id : Option SqlColumn
  pub parent_type : String
  pub target_type : String

-- What `idSlice` is given: a value as JSON decodes it, or the `[]string` of a call from code.
pub data RelationValue : Type 0 where
  decoded : Value → RelationValue
  listed : List String → RelationValue

-- The loop of `idSlice` over a `[]any`, with the texts that were seen.
unfoldable pub ids_of : List Value → List String → List String
ids_of [] seen = []
ids_of (str s ∷ vs) seen =
    let rest = ids_of vs (s ∷ seen) in
    let skipped = ids_of vs seen in if s == "" || mem_text s seen then skipped else s ∷ rest
ids_of (v ∷ vs) seen = ids_of vs seen

-- Its loop over a `[]string`.
unfoldable pub listed_ids : List String → List String → List String
listed_ids [] seen = []
listed_ids (s ∷ ss) seen =
    let rest = listed_ids ss (s ∷ seen) in
    let skipped = listed_ids ss seen in if s == "" || mem_text s seen then skipped else s ∷ rest

unfoldable pub id_slice : RelationValue → Option (List String)
unfolding ids_of listed_ids
id_slice (decoded (arr vs)) = some (ids_of (items vs) [])
id_slice (decoded _) = none
id_slice (listed ss) = some (listed_ids ss [])

-- `anySlice`.
abbrev pub texts : List String → List Value
texts [] = []
texts (s ∷ ss) = str s ∷ texts ss

unfoldable pub any_slice : List String → Value
any_slice ids = arr (of_items (texts ids))

-- The rows of one parent and one path.
unfoldable pub path_eq : RelsTable → String → String → Cond
path_eq rt path parent = both (text_eq rt.parent parent) (equals rt.path (text path))

abbrev order_of : RelsTable → Option SqlColumn → List SqlColumn
order_of rt none = rt.order ∷ []
order_of rt (some id) = rt.order ∷ id ∷ []

unfoldable pub insert_id_sql : RelsTable → String → SqlColumn → String → ℕ → String → Statement
unfolding cast_string
insert_id_sql rt path target parent i id =
    Statement.insert rt.src (rt.parent ∷ rt.path ∷ target ∷ rt.order ∷ [])
      (cast_string parent rt.parent_type ∷ text path ∷ cast_string id rt.target_type ∷ int i ∷ [])

module _ (lib : Library) {S T : Type 0} (db : Database S T) where
  -- The loop of `read`: a row that has no identifier is left out.
  unfoldable pub read_ids : List (List Scanned) → List Value
  read_ids [] = []
  read_ids ((v ∷ []) ∷ rows) =
      let rest = read_ids rows in
      if normalize_identifier lib v == "" then rest else str (normalize_identifier lib v) ∷ rest
  read_ids (vals ∷ rows) = read_ids rows

  unfoldable pub read_rels : RelsTable → String → SqlColumn → String → Reader S Value
  unfolding path_eq
  read_rels rt path target parent s =
      db.query
        (Query.select (column target ∷ []) rt.src (both (path_eq rt path parent) (not_null target))
          (order_of rt rt.id))
        s
      >>→ λ rows. ok (arr (of_items (read_ids rows)))

  unfoldable pub insert_ids :
      RelsTable → String → SqlColumn → String → ℕ → List String → Tx T (Unit {0})
  unfolding insert_id_sql
  insert_ids rt path target parent i [] = pure tt
  insert_ids rt path target parent i (id ∷ ids) =
      exec db (insert_id_sql rt path target parent i id) >>= λ _.
      insert_ids rt path target parent (suc i) ids

  -- `replace`.
  unfoldable pub replace_rels :
      RelsTable → String → SqlColumn → String → List String → Tx T (Unit {0})
  unfolding path_eq
  replace_rels rt path target parent ids =
      exec db (Statement.delete rt.src (path_eq rt path parent)) >>= λ _.
      insert_ids rt path target parent 0 ids

  abbrev pub save_rels : RelsTable → String → SqlColumn → String → Option (List String) → Tx T Value
  save_rels rt path target parent none = pure null
  save_rels rt path target parent (some ids) =
      replace_rels rt path target parent ids >>= λ _. pure (any_slice ids)

  unfoldable pub rels : RelsTable → String → SqlColumn → Column S T
  unfolding read_rels replace_rels id_slice any_slice
  rels rt path target = record {
    proj = none;
    assign = none;
    value = none;
    decode = none;
    wire = record { kind = kind_list; elem = kind_string };
    load = some λ parent. read_rels rt path target parent;
    save = some λ parent v. save_rels rt path target parent (id_slice (decoded v));
    satellite = none;
  }

-- `DeferredList`: an element that resolves to nil is left out.
abbrev keep_resolved : Value → List Value → List Value
keep_resolved null rest = rest
keep_resolved v rest = v ∷ rest

module _ {T : Type 0} (resolve : String → Value → Tx T Value) where
  unfoldable pub resolve_items : String → List Value → Tx T (List Value)
  resolve_items parent [] = pure []
  resolve_items parent (v ∷ vs) = resolve parent v >>= λ resolved.
      resolve_items parent vs >>= λ rest. pure (keep_resolved resolved rest)

  unfoldable pub save_resolved : (String → Value → Tx T Value) → String → Value → Tx T Value
  unfolding resolve_items
  save_resolved inner parent (arr vs) =
      resolve_items parent (items vs) >>= λ next. inner parent (arr (of_items next))
  save_resolved inner parent v = inner parent v

module _ {S T : Type 0} (resolve : String → Value → Tx T Value) where
  abbrev with_save : Column S T → Option (String → Value → Tx T Value) → Option (Column S T)
  with_save c none = none
  with_save c (some inner) = some (record c { save = some (save_resolved resolve inner) })

  -- A cell with no `save`, or that is no list, panics.
  unfoldable pub deferred_list : Column S T → Option (Column S T)
  unfolding save_resolved
  deferred_list c = if c.wire.kind == kind_list then with_save c c.save else none
