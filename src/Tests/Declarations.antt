-- ===== src/Tests/Declarations.antt =====
-- Runs of the theorems on a small declaration.
use editrig_go.Base.{◌≡◌, ◌↔◌, refl, Bool, true, false, List, [], ◌∷◌, arith, none, if◌then◌else◌}
use editrig_go.Config.{pos}
use editrig_go.Ui.{
  text, flag, Field, Group, is_readonly, is_required, is_hidden, is_items, is_keyed, is_keyed_items,
  parent_field_name,
}
use editrig_go.Ui.Wire.{Wire, matches, wire_kind, kind_string}
use editrig_go.Decl.{
  Set, entry, none_left, with_entry, order, groups, group_ids, undeclared_groups, has_entries,
}
use editrig_go.Decl.Lint.{
  Cell, walk, used, lint, lint_groups, field_problems, access_problems, required_problems,
  section_problems, named,
}
use editrig_go.Decl.Lint.Soundness.{IsOrdered, AreDrawn, lint_clean_iff}
use editrig_go.Decl.Sections.{groups_of_clean}
use editrig_go.Map.{lookup}
use editrig_go.Ui.Modifiers.{nullable}
use editrig_go.Ui.Split.{split_field}
use editrig_go.Ui.Split.Laws.{in_schema, ui_half, lookup-split_field}
use editrig_go.Ui.Modifiers.Laws.{nullable_idem}

-- A cell is whether it takes writes; it parses texts.
abbrev text_cell : Cell Bool
text_cell = record {
  writable = λ c. c;
  accepts = λ c w. matches w (record { kind = kind_string; elem = "" });
}

abbrev title_ui : Field
title_ui = ("type", text "string") ∷ ("$required", flag true) ∷ []

abbrev created_ui : Field
created_ui = ("type", text "string") ∷ ("ui:readonly", flag true) ∷ []

abbrev small_set : Set Bool
small_set =
    with_entry (entry "title" "main" true title_ui none_left)
      (with_entry (entry "created" "main" false created_ui none_left) none_left)

abbrev sections : List Group
sections =
    record {
      id = "main";
      title = "Main";
      description = "";
      columns = pos 2;
      toggle_all = false;
      fields = [];
    }
    ∷ []

abbrev text_wire : Wire
text_wire = record { kind = "list"; elem = "string" }

abbrev any_list : Wire
any_list = record { kind = "list"; elem = "any" }

lint_clean_iff_example : (lint text_cell "" small_set sections ≡ []) ↔ (
    (has_entries small_set ≡ true)
    × (IsOrdered text_cell (order small_set) (group_ids sections) [] small_set
        × AreDrawn (used text_cell (group_ids sections) small_set) sections))
lint_clean_iff_example = lint_clean_iff text_cell "" small_set sections

groups_of_clean_example :
    (group_ids (groups small_set sections) ≡ group_ids sections)
    × (undeclared_groups small_set sections ≡ [])
unfolding lint walk used lint_groups field_problems access_problems required_problems
    section_problems is_readonly is_required is_hidden is_items is_keyed is_keyed_items
    parent_field_name wire_kind matches lookup order named
groups_of_clean_example =
    groups_of_clean text_cell "" small_set sections (λ e. absurd (ground arith)) refl

lookup-split_field_example :
    (lookup "type" (split_field title_ui).0
      ≡ (if in_schema "type" then lookup "type" title_ui else none))
    × (lookup "type" (split_field title_ui).1 ≡ ui_half "type" title_ui)
lookup-split_field_example = lookup-split_field "type" title_ui

nullable_idem_example : nullable (nullable title_ui) ≡ nullable title_ui
unfolding lookup
nullable_idem_example = nullable_idem title_ui "string" refl
