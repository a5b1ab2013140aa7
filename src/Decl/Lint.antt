-- ===== src/Decl/Lint.antt =====
-- decl/lint.go: the checks on a declaration. A problem is a constructor with the names that its
-- message quotes; the check of the JSON Schema keywords, `ui.Lint`, is not part of this.
pub mod Soundness
use editrig_go.Base.{
  Bool, true, false, not, ◌&&◌, ◌||◌, Option, none, some, List, [], ◌∷◌, ◌++◌, String, ◌==◌,
  if◌then◌else◌, is_empty, mem_text, ltb,
}
use editrig_go.Text.{◌+++◌}
use editrig_go.Config.{ℤ, pos, negsuc}
use editrig_go.Ui.{
  Field, Group, is_readonly, is_required, is_hidden, is_items, is_keyed_items, parent_field_name,
}
use editrig_go.Ui.Wire.{Wire, wire_kind}
use editrig_go.Decl.{Entry, entry, Set, none_left, with_entry, order, group_ids, has_entries}

-- What the gate asks a storage cell.
pub record Cell (C : Type 0) : Type 0 where
  pub writable : C → Bool
  pub accepts : C → Wire → Bool

pub data Problem : Type 0 where
  empty_declaration : Problem
  declared_twice : String → Problem
  editable_unwritable : String → Problem
  readonly_writable : String → Problem
  required_unwritable : String → Problem
  required_readonly : String → Problem
  wrong_wire : String → Wire → Problem
  unknown_parent : String → String → Problem
  not_items : String → Wire → Problem
  no_section : String → Problem
  unknown_section : String → String → Problem
  hidden_in_section : String → String → Problem
  unused_section : String → Problem
  untitled_section : String → Problem
  bad_columns : String → ℤ → Problem

-- `add` under an `if`.
abbrev pub when : Bool → Problem → List Problem
when b p = if b then p ∷ [] else []

unfoldable pub named : String → String → String
named prefix name = if prefix == "" then name else prefix +++ "." +++ name

unfoldable pub access_problems : String → Bool → Bool → List Problem
access_problems at writable readonly =
    if not writable && not readonly
    then editable_unwritable at ∷ []
    else when (writable && readonly) (readonly_writable at)

unfoldable pub required_problems : String → Bool → Bool → Bool → List Problem
required_problems at required writable readonly =
    if required
    then when (not writable) (required_unwritable at) ++ when readonly (required_readonly at)
    else []

abbrev pub parent_problems : String → List String → Option String → List Problem
parent_problems at declared none = []
parent_problems at declared (some parent) =
    when (not (mem_text parent declared)) (unknown_parent at parent)

-- The tests on the section of a field, where there is a registry of sections.
unfoldable pub section_problems : String → List String → String → Bool → List Problem
section_problems at known group hidden =
    if is_empty known
    then []
    else if group == ""
    then when (not hidden) (no_section at)
    else if not (mem_text group known)
    then unknown_section at group ∷ []
    else when hidden (hidden_in_section at group)

-- `used[f.Group] = true`.
abbrev pub used_section : List String → String → Bool → List String
used_section known group hidden =
    if not (group == "") && mem_text group known && not hidden then group ∷ [] else []

abbrev pub bad_column_count : ℤ → Bool
bad_column_count (pos n) = ltb 2 n
bad_column_count (negsuc n) = true

unfoldable pub lint_groups : List String → List Group → List Problem
lint_groups used [] = []
lint_groups used (g ∷ specs) =
    when (not (mem_text g.id used)) (unused_section g.id)
    ++ (when (g.title == "") (untitled_section g.id)
        ++ (when (bad_column_count g.columns) (bad_columns g.id g.columns)
            ++ lint_groups used specs))

module _ {C : Type 0} (cell : Cell C) where
  -- The checks of one field that need neither its place nor its items.
  unfoldable pub field_problems : String → List String → C → Field → List Problem
  field_problems at declared col ui =
      access_problems at (cell.writable col) (is_readonly ui)
      ++ (required_problems at (is_required ui) (cell.writable col) (is_readonly ui)
          ++ (when (cell.writable col && not (cell.accepts col (wire_kind ui)))
                (wrong_wire at (wire_kind ui))
              ++ parent_problems at declared (parent_field_name ui)))

  -- The loop over the fields of one level. `lintNested` is the same loop on the items of a field,
  -- a level without sections; a field without items is a plain one.
  unfoldable pub walk : String → List String → List String → List String → Set C → List Problem
  walk prefix declared known seen none_left = []
  walk prefix declared known seen (with_entry (entry name group col ui items) s) =
      when (mem_text name seen) (declared_twice (named prefix name))
      ++ (field_problems (named prefix name) declared col ui
          ++ (when (has_entries items && not (is_items ui) && not (is_keyed_items ui))
                (not_items (named prefix name) (wire_kind ui))
              ++ (walk (named prefix name) (order items) [] [] items
                  ++ (section_problems (named prefix name) known group (is_hidden ui)
                      ++ walk prefix declared known (name ∷ seen) s))))

  -- The sections that the fields use.
  unfoldable pub used : List String → Set C → List String
  used known none_left = []
  used known (with_entry (entry name group col ui items) s) =
      used_section known group (is_hidden ui) ++ used known s

  unfoldable pub lint : String → Set C → List Group → List Problem
  lint prefix none_left specs = empty_declaration ∷ []
  lint prefix (with_entry e s) specs =
      walk prefix (order (with_entry e s)) (group_ids specs) [] (with_entry e s)
      ++ lint_groups (used (group_ids specs) (with_entry e s)) specs
