-- ===== src/Decl/Lint/Soundness.antt =====
-- What an empty list of problems means.
use editrig_go.Base.{
  ◌≡◌, ◌≢◌, ◌↔◌, ◌⊎◌, inl, inr, subst, refl, Bool, true, false, not, ◌&&◌, Option, none, some, List,
  [], ◌∷◌, ◌++◌, String, ◌==◌, if◌then◌else◌, is_empty, mem_text, arith, eq_iff, Bool-cases,
}
use editrig_go.Ui.{
  Field, Group, is_readonly, is_required, is_hidden, is_items, is_keyed_items, parent_field_name,
}
use editrig_go.Ui.Wire.{wire_kind}
use editrig_go.Decl.{entry, Set, none_left, with_entry, order, group_ids, has_entries}
use editrig_go.Decl.Lint.{
  Cell, Problem, when, named, access_problems, required_problems, parent_problems, section_problems,
  bad_column_count, lint_groups, field_problems, walk, used, lint,
}

-- A list of problems is empty exactly under a condition.
abbrev IsClean : List Problem → Type 0 → Type 0
IsClean ps P = (ps ≡ []) ↔ P

append-IsClean :
    {P Q : Type 0} (xs ys : List Problem) → IsClean xs P → IsClean ys Q → IsClean (xs ++ ys) (P × Q)
append-IsClean [] ys p q = (λ h. (p.0 refl, q.0 h), λ c. q.1 c.1)
append-IsClean (x ∷ xs) ys p q = (λ h. absurd (ground arith), λ c. absurd (ground (arith, p.1 c.0)))

map-IsClean : {P Q : Type 0} (xs : List Problem) → IsClean xs P → (P → Q) → (Q → P) → IsClean xs Q
map-IsClean xs p f g = (λ h. f (p.0 h), λ q. p.1 (g q))

and_not-false : (a b : Bool) → (a ≡ true → b ≡ true) → (a && not b) ≡ false
and_not-false false b h = refl
and_not-false true b h = let e = h refl in ground arith

and_not-not-false :
    (a b c : Bool) → (a ≡ true → (b ≡ true) ⊎ (c ≡ true)) → (a && not b && not c) ≡ false
and_not-not-false false b c h = ground arith
and_not-not-false true b c h = let e = h refl in ground arith

when-IsClean : (b : Bool) (p : Problem) → IsClean (when b p) (b ≡ false)
when-IsClean b p = (λ h. ground arith, λ h. ground arith)

-- The field's two halves agree: it is read-only exactly if the cell takes no writes, a required
-- field can be written, a writable cell accepts the shape that the form sends, and the parent of a
-- relation is a field of this level.
abbrev pub IsFieldOk : {C : Type 0} → Cell C → List String → C → Field → Type 0
IsFieldOk cell declared col ui =
    (cell.writable col ≡ not (is_readonly ui))
    × (is_required ui ≡ true → cell.writable col ≡ true)
    × (cell.writable col ≡ true → cell.accepts col (wire_kind ui) ≡ true)
    × ((parent : String) → parent_field_name ui ≡ some parent → mem_text parent declared ≡ true)

-- Where there are sections, a visible field is in one of them, and a hidden one in none.
abbrev pub IsPlaced : List String → String → Bool → Type 0
IsPlaced known group hidden =
    is_empty known ≡ false
    → if hidden then (group ≡ "") else ((group ≢ "") × (mem_text group known ≡ true))

-- The names of a level are distinct, each field is in order and in its place, and each field with
-- items is a list of objects whose items are in order.
abbrev pub IsOrdered :
    {C : Type 0} → Cell C → List String → List String → List String → Set C → Type 0
IsOrdered cell declared known seen none_left = Unit
IsOrdered cell declared known seen (with_entry (entry name group col ui items) s) =
    (mem_text name seen ≡ false)
    × (IsFieldOk cell declared col ui
        × ((has_entries items ≡ true → (is_items ui ≡ true) ⊎ (is_keyed_items ui ≡ true))
            × (IsOrdered cell (order items) [] [] items
                × (IsPlaced known group (is_hidden ui)
                    × IsOrdered cell declared known (name ∷ seen) s))))

-- Each section is used, has a title, and has one or two columns or leaves them out.
abbrev pub AreDrawn : List String → List Group → Type 0
AreDrawn used [] = Unit
AreDrawn used (g ∷ specs) =
    (mem_text g.id used ≡ true)
    × ((g.title ≢ "") × ((bad_column_count g.columns ≡ false) × AreDrawn used specs))

access-IsClean : (at : String) (w r : Bool) → IsClean (access_problems at w r) (w ≡ not r)
unfolding access_problems
access-IsClean at w r = (λ h. ground arith, λ h. ground arith)

required-IsClean :
    (at : String) (q w r : Bool)
    → IsClean (required_problems at q w r) (q ≡ true → (w ≡ true) × (r ≡ false))
unfolding required_problems
required-IsClean at false w r = (λ h k. absurd (ground arith), λ h. refl)
required-IsClean at true w r = (λ h k. ground arith, λ h. let (a, b) = h refl in ground arith)

abbrev IsDeclared : List String → Option String → Type 0
IsDeclared declared none = Unit
IsDeclared declared (some parent) = mem_text parent declared ≡ true

parent-IsClean :
    (at : String) (declared : List String) (o : Option String)
    → IsClean
        (parent_problems at declared o)
        ((parent : String) → o ≡ some parent → mem_text parent declared ≡ true)
parent-IsClean at declared none = (λ h p e. absurd (ground arith), λ h. refl)
parent-IsClean at declared (some parent) = (
  λ h p e.
      subst (λ o. IsDeclared declared o) e
        (let a : mem_text parent declared ≡ true = ground arith in a),
  λ h. let a = h parent refl in ground arith,
)

section-IsClean :
    (at : String) (known : List String) (group : String) (hidden : Bool)
    → IsClean (section_problems at known group hidden) (IsPlaced known group hidden)
unfolding section_problems
section-IsClean at known group true = elim (Bool-cases (is_empty known)) [
  | inl none_known ↦ (λ h k. absurd (ground arith), λ h. ground arith)
  | inr some_known ↦ (
    λ h k. ground (arith, eq_iff group ""),
    λ h. let a = h some_known in ground (arith, eq_iff group ""),
  )
]
section-IsClean at known group false = elim (Bool-cases (is_empty known)) [
  | inl none_known ↦ (λ h k. absurd (ground arith), λ h. ground arith)
  | inr some_known ↦ (
    λ h k. ground (arith, eq_iff group ""),
    λ h. let a = h some_known in ground (arith, eq_iff group ""),
  )
]

groups-IsClean :
    (us : List String) (specs : List Group) → IsClean (lint_groups us specs) (AreDrawn us specs)
unfolding lint_groups
groups-IsClean us [] = (λ h. tt, λ h. refl)
groups-IsClean us (g ∷ specs) =
    append-IsClean _ _
      (map-IsClean _ (when-IsClean (not (mem_text g.id us)) _) (λ h. ground arith)
        (λ h. ground arith))
      (append-IsClean _ _
        (map-IsClean _ (when-IsClean (g.title == "") _) (λ h. ground (arith, eq_iff g.title ""))
          (λ h. ground (arith, eq_iff g.title "")))
        (append-IsClean _ _ (when-IsClean (bad_column_count g.columns) _)
          (groups-IsClean us specs)))

module _ {C : Type 0} (cell : Cell C) where
  field-IsClean :
      (at : String) (declared : List String) (col : C) (ui : Field)
      → IsClean (field_problems cell at declared col ui) (IsFieldOk cell declared col ui)
  unfolding field_problems
  field-IsClean at declared col ui =
      map-IsClean _
        (append-IsClean _ _ (access-IsClean at (cell.writable col) (is_readonly ui)) (
          append-IsClean _ _
            (required-IsClean at (is_required ui) (cell.writable col) (is_readonly ui))
            (append-IsClean _ _
              (when-IsClean (cell.writable col && not (cell.accepts col (wire_kind ui))) _)
              (parent-IsClean at declared (parent_field_name ui)))))
        (λ h.
          let (a, bcd) = h in
          let (b, cd) = bcd in let (c, d) = cd in (a, λ r. (b r).0, λ w. ground arith, d))
        (λ h.
          let (a, b, c, d) = h in
          (a, ((λ r. (b r, let e = b r in ground arith)), (and_not-false _ _ c, d))))

  walk-IsClean :
      (prefix : String) (declared known seen : List String) (s : Set C)
      → IsClean (walk cell prefix declared known seen s) (IsOrdered cell declared known seen s)
  unfolding walk
  walk-IsClean prefix declared known seen none_left = (λ h. tt, λ h. refl)
  walk-IsClean prefix declared known seen (with_entry (entry name group col ui items) s) =
      append-IsClean _ _ (when-IsClean (mem_text name seen) _) (
        append-IsClean _ _ (field-IsClean (named prefix name) declared col ui) (
          append-IsClean _ _
            (map-IsClean _
              (when-IsClean (has_entries items && not (is_items ui) && not (is_keyed_items ui)) _)
              (λ h k. ground arith) (and_not-not-false _ _ _))
            (append-IsClean _ _ (walk-IsClean (named prefix name) (order items) [] [] items) (
              append-IsClean _ _ (section-IsClean (named prefix name) known group (is_hidden ui))
                (walk-IsClean prefix declared known (name ∷ seen) s)))))

  -- `lint`, the checks of the declaration that `Lint` makes before it appends those of `ui.Lint` on
  -- JSON Schema keywords, finds nothing exactly if the declaration has a field, its levels are in
  -- order, nested ones included, and the fields use and draw all the sections of the registry.
  pub lint_clean_iff :
      (prefix : String) (s : Set C) (specs : List Group)
      → (lint cell prefix s specs ≡ []) ↔ (
          (has_entries s ≡ true)
          × (IsOrdered cell (order s) (group_ids specs) [] s
              × AreDrawn (used cell (group_ids specs) s) specs))
  unfolding lint
  lint_clean_iff prefix none_left specs =
      (λ h. absurd (ground arith), λ h. absurd (ground (arith, h.0)))
  lint_clean_iff prefix (with_entry e s) specs =
      map-IsClean _
        (append-IsClean _ _
          (walk-IsClean prefix (order (with_entry e s)) (group_ids specs) [] (with_entry e s))
          (groups-IsClean (used cell (group_ids specs) (with_entry e s)) specs))
        (λ h. (refl, h)) (λ h. h.1)
