-- ===== src/Decl.antt =====
-- decl/decl.go: the declaration of an entity's form, a list of records that pair a form field with
-- a storage cell. The type `C` of the cells is a parameter, as in the source.
pub mod Lint
pub mod Sections
use editrig_go.Base.{
  Bool, true, false, not, ◌&&◌, Option, none, some, List, [], ◌∷◌, ◌++◌, String, ◌==◌,
  if◌then◌else◌, is_empty, mem_text,
}
use editrig_go.Map.{Map, lookup, insert}
use editrig_go.Json.{or_nil}
use editrig_go.Ui.{Field, Group}

-- `Entry` and `Set`.
mutual
  pub data Entry (C : Type 0) : Type 0 where
    entry : String → String → C → Field → Set C → Entry C

  pub data Set (C : Type 0) : Type 0 where
    none_left : Set C
    with_entry : Entry C → Set C → Set C

abbrev pub group_ids : List Group → List String
group_ids [] = []
group_ids (g ∷ specs) = g.id ∷ group_ids specs

module _ {C : Type 0} where
  abbrev pub entry_name : Entry C → String
  entry_name (entry name group col ui items) = name

  abbrev pub entry_group : Entry C → String
  entry_group (entry name group col ui items) = group

  -- `Order`.
  unfoldable pub order : Set C → List String
  order none_left = []
  order (with_entry e s) = entry_name e ∷ order s

  -- `len(items) > 0`.
  abbrev pub has_entries : Set C → Bool
  has_entries none_left = false
  has_entries (with_entry e s) = true

  -- The names of the fields that refer to the section.
  unfoldable pub members_of : String → Set C → List String
  members_of id none_left = []
  members_of id (with_entry e s) =
      let rest = members_of id s in
      if not (entry_group e == "") && entry_group e == id then entry_name e ∷ rest else rest

  -- `Groups`. A reference to an undeclared section is dropped, with a warning.
  unfoldable pub groups : Set C → List Group → List Group
  groups s [] = []
  groups s (g ∷ specs) =
      let rest = groups s specs in
      let members = members_of g.id s in
      if is_empty members then rest else record g { fields = members } ∷ rest

  unfoldable pub undeclared_from : List String → Set C → Map (List String) → Map (List String)
  undeclared_from known none_left out = out
  undeclared_from known (with_entry e s) out = undeclared_from known s (
      if not (entry_group e == "") && not (mem_text (entry_group e) known)
      then insert (entry_group e) (or_nil (lookup (entry_group e) out) ++ entry_name e ∷ []) out
      else out)

  unfoldable pub undeclared_groups : Set C → List Group → Map (List String)
  undeclared_groups s specs = undeclared_from (group_ids specs) s []
