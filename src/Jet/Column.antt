-- ===== src/Jet/Column.antt =====
-- adapter/erjet/column.go: a cell of a declaration, which pairs a form field with a column. `S` are
-- the states of the database and `T` its transactions.
pub mod Cells
pub mod Arrays
use editrig_go.Base.{Bool, not, ◌||◌, Option, none, some, String, is_some}
use editrig_go.Json.{Value, str}
use editrig_go.Ui.Wire.{Wire, matches}
use editrig_go.Jet.Sql
use editrig_go.Jet.Sql.{
  SqlTable, SqlColumn, Expr, Projection, Assignment, Scanned, Reader, Tx, text, cast, column,
  computed,
}
use editrig_go.Jet.Values.{text_or_empty}

-- `KeyedTable`.
pub record KeyedTable : Type 0 where
  pub src : SqlTable
  pub parent : SqlColumn
  pub key : SqlColumn
  pub parent_type : String
  pub key_type : String

-- `ClearPolicy`; no value means NULL.
pub record ClearPolicy : Type 0 where
  pub delete_row : Bool
  pub value : Option Expr

-- `keyedSatellite`.
pub record KeyedSatellite : Type 0 where
  pub table : KeyedTable
  pub col : SqlColumn
  pub clear : ClearPolicy

-- `Column`. A nil function or projection is `none`; a parse that reports `ok == false` returns
-- `none`, else the result with the value in the wire shape of a read.
pub record Column (S T : Type 0) : Type 0 where
  pub proj : Option Projection
  pub assign : Option (Value → Option (Assignment × Value))
  pub value : Option (Value → Option (Expr × Value))
  pub decode : Option (Scanned → Value)
  pub wire : Wire
  pub load : Option (String → Reader S Value)
  pub save : Option (String → Value → Tx T Value)
  pub satellite : Option KeyedSatellite

-- `CAST($1 AS uuid)`.
abbrev pub as_uuid : String → Expr
as_uuid s = cast (text s) "uuid"

-- `assignOf`; a projection that is no column panics, which is `none`.
abbrev assign_to : Option Projection → Value → Option Assignment
assign_to (some (column c)) v = some (record { target = c; value = as_uuid (text_or_empty v) })
assign_to (some (computed e)) v = none
assign_to none v = none

module _ {S T : Type 0} where
  unfoldable pub writable : Column S T → Bool
  writable c = is_some c.assign || is_some c.save

  unfoldable pub is_satellite : Column S T → Bool
  is_satellite c = not (is_some c.proj)

  unfoldable pub accepts : Column S T → Wire → Bool
  accepts c w = matches c.wire w

  unfoldable pub frozen : Column S T → Column S T
  frozen c = record c { assign = none; save = none; value = none }

  unfoldable pub assign_of : Column S T → Value → Option Assignment
  assign_of c v = assign_to c.proj v
