-- ===== src/Fixtures/Posts.antt =====
-- A database that logs its statements and refuses an upsert, a store over it with a text cell and a
-- side table, and an entity with this store.
use editrig_go.Base.{sym, ap, refl, true, Option, none, some, List, [], ◌∷◌, String}
use editrig_go.Json.{Value, Data, str, null, obj, member, end, bool}
use editrig_go.Errors.{Failure, plain}
use editrig_go.Jet.Sql
use editrig_go.Jet.Sql.{
  SqlTable, SqlColumn, Statement, Query, Scanned, Database, IsTransactional, Ran, ok, failed,
  crashed, is_ok, ok_inj, ◌>>=◌, continue, reading, each, exec, is_crashed,
}
use editrig_go.Jet.Values.{Library}
use editrig_go.Jet.Column.{Column, KeyedTable}
use editrig_go.Jet.Column.Cells.{text_cell, cell}
use editrig_go.Jet.Satellite.{keyed_strings, clear_set_null}
use editrig_go.Jet.Store.{returned, Store}
use editrig_go.Jet.Store.Stays.{
  StaysStore, StaysCell, no_cells, and_cell, StaysCell-of_none, StaysCell-keyed_strings,
}

abbrev pub shown : Value → String
shown (str s) = s
shown _ = ""

abbrev pub toy_library : Library
toy_library = record {
  as_any = λ s. null;
  float_of_int = λ n. "1";
  sprint = shown;
  marshal = λ v. none;
  unmarshal = λ s. none;
  parse_time = λ layout s. some s;
  format_time = λ layout t. t;
  utc = λ t. t;
  pg_code = λ e. some "23503";
}

-- A state is the log of the statements, a transaction the log at its start and the present one.
abbrev pub Log : Type 0
Log = List Statement

abbrev pub refusal : Statement → Option Failure
refusal (Statement.upsert t cols vals target sets) = some (plain "not null")
refusal (Statement.delete t c) = some (plain "still referenced")
refusal _ = none

-- One row while there is a log.
abbrev pub values_of : List Sql.Projection → List Scanned
values_of [] = []
values_of (p ∷ ps) = Sql.other (str "old") ∷ values_of ps

abbrev pub answer_of : Query → Log → Ran (List (List Scanned))
answer_of q [] = ok []
answer_of (Query.select ps t c order) (x ∷ log) = ok (values_of ps ∷ [])
answer_of (Query.exists col t c) (x ∷ log) = ok ((Sql.other (bool true) ∷ []) ∷ [])

abbrev pub toy_db : Database Log (Log × Log)
toy_db = record {
  begin = λ s. ok (s, s);
  exec = λ q t. (refusal q, (t.0, q ∷ t.1));
  visible = λ t. t.1;
  query = answer_of;
  commit = λ t. (none, t.1);
  rollback = λ t. t.0;
}

pub toy_law : IsTransactional toy_db
toy_law = record {
  origin = λ t. t.0;
  begin_origin = λ s t e. sym (ap (λ (u : Log × Log). u.0) (ok_inj e));
  exec_origin = λ q t. refl;
  rollback_origin = λ t. refl;
  commit_failed = λ t f e. absurd (cc);
}

abbrev pub posts : SqlTable
posts = record { schema = "public"; name = "posts" }

abbrev pub post_names : KeyedTable
post_names = record {
  src = record { schema = "public"; name = "post_names" };
  parent = record { table = "post_names"; name = "post_id" };
  key = record { table = "post_names"; name = "locale" };
  parent_type = "uuid";
  key_type = "";
}

abbrev pub title_column : SqlColumn
title_column = record { table = "posts"; name = "title" }

abbrev pub Cell : Type 0
Cell = Column Log (Log × Log)

abbrev pub title_cell : Cell
title_cell = text_cell title_column

abbrev pub names_cell : Cell
names_cell =
    keyed_strings toy_library toy_db post_names (record { table = "post_names"; name = "name" })
      clear_set_null

abbrev pub post_store : Store Log (Log × Log)
post_store = record {
  table = record {
    src = posts;
    id = record { table = "posts"; name = "id" };
    cols =
        record { name = "title"; column = title_cell }
        ∷ record { name = "names"; column = names_cell }
        ∷ [];
  };
  touch = none;
  create = none;
  on_write = some λ id changes created s. returned [];
}

pub title-Stays : StaysCell toy_law title_cell
unfolding text_cell cell
title-Stays = StaysCell-of_none title_cell refl

pub post_store-Stays : StaysStore toy_law post_store
post_store-Stays = record {
  cells =
      and_cell title-Stays (and_cell (StaysCell-keyed_strings toy_library post_names _ _) no_cells);
  create = λ f e input. absurd (cc);
}

abbrev pub one_post : Log
one_post = Statement.insert posts [] [] ∷ []

abbrev pub stored_post : Data
stored_post = ("title", str "old") ∷ []

abbrev pub post_input : Data
post_input = ("title", str "Lamp") ∷ ("names", obj (member "de" (str "Leuchte") end)) ∷ []
