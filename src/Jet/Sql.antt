-- ===== src/Jet/Sql.antt =====
-- What the adapter uses of go-jet and pgx. A statement is the syntax tree that the calls of the
-- query builder make; the database that runs it is a parameter.
pub mod Rules
use editrig_go.Base.{
  ℕ, Bool, true, false, Option, none, some, List, [], ◌∷◌, String, ◌==◌, ◌&&◌, ◌≡◌,
}
use editrig_go.Json.{Value}
use editrig_go.Config.{ℤ}
use editrig_go.Errors.{Failure}

-- `postgres.Table` and `postgres.Column`, as far as the code asks them.
pub record SqlTable : Type 0 where
  pub schema : String
  pub name : String

pub record SqlColumn : Type 0 where
  pub table : String
  pub name : String

-- `sameColumn` of table.go.
unfoldable pub same_column : SqlColumn → SqlColumn → Bool
same_column a b = a.name == b.name && a.table == b.table

-- Expressions: `postgres.String(x)`, `NULL`, `CAST(e).AS(type)`, `Int64(n)`, `Bool(b)`, a number by
-- its decimal text, a point in time by the text that it was parsed from, and arrays of these.
pub data Expr : Type 0 where
  text : String → Expr
  null : Expr
  cast : Expr → String → Expr
  int : ℕ → Expr
  boolean : Bool → Expr
  number : String → Expr
  time : String → Expr
  texts : List String → Expr
  numbers : List String → Expr
  times : List String → Expr
  now : Expr

-- `postgres.Projection`: a column, or another expression under its text.
pub data Projection : Type 0 where
  column : SqlColumn → Projection
  computed : String → Projection

-- `col.SET(e)`.
pub record Assignment : Type 0 where
  pub target : SqlColumn
  pub value : Expr

-- Conditions: `CAST(col AS text) = s`, `col = e`, `col IS NOT NULL`, `CAST(col AS text) <> s`,
-- `CAST(col AS text) NOT IN (…)`, and their conjunction.
pub data Cond : Type 0 where
  text_eq : SqlColumn → String → Cond
  equals : SqlColumn → Expr → Cond
  not_null : SqlColumn → Cond
  text_ne : SqlColumn → String → Cond
  text_not_in : SqlColumn → List String → Cond
  both : Cond → Cond → Cond

pub data Statement : Type 0 where
  update : SqlTable → List Assignment → Cond → Statement
  delete : SqlTable → Cond → Statement
  insert : SqlTable → List SqlColumn → List Expr → Statement
  upsert : SqlTable → List SqlColumn → List Expr → List SqlColumn → List Assignment → Statement

pub data Query : Type 0 where
  select : List Projection → SqlTable → Cond → List SqlColumn → Query
  exists : SqlColumn → SqlTable → Cond → Query

-- One scanned value of `rows.Values()`: a `time.Time` by its text with the zone, a `pgtype.Numeric`
-- by the text of its float64, if it has one, a uuid by its bytes, an integer of any width, a
-- `pgtype.Time` by its microseconds, if it is valid, raw bytes, a slice, or any other
-- value.
mutual
  pub data Scanned : Type 0 where
    null : Scanned
    time : String → Scanned
    numeric : Option String → Scanned
    uuid : List ℕ → Scanned
    integer : ℤ → Scanned
    time_of_day : Option ℕ → Scanned
    bytes : String → Scanned
    other : Value → Scanned
    array : ScannedItems → Scanned

  -- The elements of a slice.
  pub data ScannedItems : Type 0 where
    nil : ScannedItems
    cons : Scanned → ScannedItems → ScannedItems

-- A result, an error or a panic.
pub data Ran {ℓ} (A : Type ℓ) : Type ℓ where
  ok : A → Ran A
  failed : Failure → Ran A
  crashed : Ran A

pub ok_inj : {A : Type 0} {x y : A} → ◌≡◌ {A = Ran A} (ok x) (ok y) → x ≡ y
ok_inj e = cc

abbrev pub is_ok {ℓ} : {A : Type ℓ} → Ran A → Bool
is_ok (ok a) = true
is_ok (failed e) = false
is_ok crashed = false

abbrev pub is_crashed {ℓ} : {A : Type ℓ} → Ran A → Bool
is_crashed (ok a) = false
is_crashed (failed e) = false
is_crashed crashed = true

-- The connection, over the states `S` of the database and the sessions `T`, the transactions that
-- `begin` opens. A query sees a state.
pub record Database (S T : Type 0) : Type 0 where
  pub begin : S → Ran T
  pub exec : Statement → T → Option Failure × T
  pub visible : T → S
  pub query : Query → S → Ran (List (List Scanned))
  pub commit : T → Option Failure × S
  pub rollback : T → S

-- What PostgreSQL documents of a transaction, with no other client at work: it starts from the
-- committed state; a statement inside it does not change that state; a rollback, and a commit that
-- fails, leave that state.
pub record IsTransactional {S T : Type 0} (db : Database S T) : Type 0 where
  pub origin : T → S
  pub begin_origin : (s : S) (t : T) → db.begin s ≡ ok t → origin t ≡ s
  pub exec_origin : (q : Statement) (t : T) → origin (db.exec q t).1 ≡ origin t
  pub rollback_origin : (t : T) → db.rollback t ≡ origin t
  pub commit_failed : (t : T) (f : Failure) → (db.commit t).0 ≡ some f → (db.commit t).1 ≡ origin t

-- A function that only reads the state, and one that works in a transaction.
abbrev pub Reader : Type 0 → Type 0 → Type 0
Reader S A = S → Ran A

abbrev pub Tx : Type 0 → Type 0 → Type 0
Tx T A = T → Ran A × T

-- What follows a result.
infixl 5 ◌>>→◌
abbrev pub ◌>>→◌ {ℓ κ} : {A : Type ℓ} {B : Type κ} → Ran A → (A → Ran B) → Ran B
ok a >>→ f = f a
failed e >>→ f = failed e
crashed >>→ f = crashed

module _ {T : Type 0} where
  unfoldable pub continue : {A B : Type 0} → Ran A → (A → Tx T B) → Tx T B
  continue (ok a) f t = f a t
  continue (failed e) f t = (failed e, t)
  continue crashed f t = (crashed, t)

  infixl 5 ◌>>=◌
  unfoldable pub ◌>>=◌ : {A B : Type 0} → Tx T A → (A → Tx T B) → Tx T B
  ◌>>=◌ m f t = let (r, t') = m t in continue r f t'

  unfoldable pub pure : {A : Type 0} → A → Tx T A
  pure a t = (ok a, t)

  unfoldable pub fail : {A : Type 0} → Failure → Tx T A
  fail e t = (failed e, t)

  unfoldable pub crash : {A : Type 0} → Tx T A
  crash t = (crashed, t)

  -- A loop over a list.
  unfoldable pub each : {A : Type 0} → (A → Tx T (Unit {0})) → List A → Tx T (Unit {0})
  each body [] = pure tt
  each body (x ∷ xs) = body x >>= λ _. each body xs

abbrev executed : Option Failure → Ran (Unit {0})
executed none = ok tt
executed (some e) = failed e

module _ {S T : Type 0} (db : Database S T) where
  -- `tx.Exec(…)`, with an early return on its error.
  unfoldable pub exec : Statement → Tx T (Unit {0})
  exec q t = let (e, t') = db.exec q t in (executed e, t')

  -- A reading function on the transaction.
  unfoldable pub reading : {A : Type 0} → Reader S A → Tx T A
  reading m t = (m (db.visible t), t)
