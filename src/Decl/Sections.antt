-- ===== src/Decl/Sections.antt =====
-- The sections that `Groups` draws and the references that `UndeclaredGroups` reports.
use editrig_go.Base.{
  ◌≡◌, ◌≢◌, ap, refl, Bool, true, false, not, ◌&&◌, List, [], ◌∷◌, String, ◌==◌, if◌then◌else◌,
  is_empty, mem_text, arith, eq_iff, Bool-cases, inl, inr,
}
use editrig_go.Map.{Map}
use editrig_go.Ui.{Group, is_hidden}
use editrig_go.Decl.{
  entry, Set, none_left, with_entry, entry_group, members_of, groups, group_ids, undeclared_from,
  undeclared_groups, order,
}
use editrig_go.Decl.Lint.{Cell, used, lint}
use editrig_go.Decl.Lint.Soundness.{IsOrdered, AreDrawn, lint_clean_iff}

placed-known :
    (known : List String) (group : String) (hidden : Bool)
    → (if hidden then (group ≡ "") else ((group ≢ "") × (mem_text group known ≡ true)))
    → group ≢ ""
    → mem_text group known ≡ true
placed-known known group true p n = absurd (n p)
placed-known known group false p n = p.1

ids-ne-nil : (specs : List Group) → specs ≢ [] → is_empty (group_ids specs) ≡ false
ids-ne-nil [] n = absurd (n refl)
ids-ne-nil (g ∷ specs) n = refl

module _ {C : Type 0} where
  -- No field refers to a section that is not declared.
  abbrev pub HasKnownGroups : List String → Set C → Type 0
  HasKnownGroups known none_left = Unit
  HasKnownGroups known (with_entry e s) =
      (entry_group e ≢ "" → mem_text (entry_group e) known ≡ true) × HasKnownGroups known s

  undeclared_from-HasKnownGroups :
      (known : List String) (s : Set C) (out : Map (List String))
      → HasKnownGroups known s
      → undeclared_from known s out ≡ out
  unfolding undeclared_from
  undeclared_from-HasKnownGroups known none_left out h = refl
  undeclared_from-HasKnownGroups known (with_entry e s) out (k, h) =
      elim (Bool-cases (not (entry_group e == "") && not (mem_text (entry_group e) known))) [
        | inl bad ↦ absurd (ground (arith, eq_iff (entry_group e) "", k))
        | inr good ↦ rw good (undeclared_from-HasKnownGroups known s out h)
      ]

  used-members :
      (cell : Cell C) (known : List String) (id : String) (s : Set C)
      → mem_text id (used cell known s) ≡ true
      → members_of id s ≢ []
  unfolding used members_of
  used-members cell known id none_left h e = ground arith
  used-members cell known id (with_entry (entry name group col ui items) s) h e =
      ground (arith, used-members cell known id s)

  IsOrdered-HasKnownGroups :
      (cell : Cell C) (declared known seen : List String) (s : Set C)
      → is_empty known ≡ false
      → IsOrdered cell declared known seen s
      → HasKnownGroups known s
  IsOrdered-HasKnownGroups cell declared known seen none_left k h = tt
  IsOrdered-HasKnownGroups cell declared known seen (with_entry (entry name group col ui items) s) k
        h =
      (
        placed-known known group (is_hidden ui) (h.1.1.1.1.0 k),
        IsOrdered-HasKnownGroups cell declared known (name ∷ seen) s k h.1.1.1.1.1,
      )

  ids-groups :
      (cell : Cell C) (us : List String) (s : Set C) (specs : List Group)
      → ((id : String) → mem_text id us ≡ true → members_of id s ≢ [])
      → AreDrawn us specs
      → group_ids (groups s specs) ≡ group_ids specs
  unfolding groups
  ids-groups cell us s [] f d = refl
  ids-groups cell us s (g ∷ specs) f (u, d) = elim (Bool-cases (is_empty (members_of g.id s))) [
    | inl nobody ↦ absurd (ground (arith, f g.id u))
    | inr somebody ↦ rw somebody (ap (g.id ∷◌) (ids-groups cell us s specs f d.1.1))
  ]

  -- A declaration that the gate finds clean, with a registry of sections, draws every section of
  -- the registry in its order, and reports no reference to an undeclared section.
  pub groups_of_clean :
      (cell : Cell C) (prefix : String) (s : Set C) (specs : List Group)
      → specs ≢ []
      → lint cell prefix s specs ≡ []
      → (group_ids (groups s specs) ≡ group_ids specs) × (undeclared_groups s specs ≡ [])
  unfolding undeclared_groups
  groups_of_clean cell prefix s specs n h =
      let (filled, ordered_drawn) = (lint_clean_iff cell prefix s specs).0 h in
      let (ordered, drawn) = ordered_drawn in
      (
        ids-groups cell (used cell (group_ids specs) s) s specs
            (λ id. used-members cell (group_ids specs) id s) drawn,
        undeclared_from-HasKnownGroups (group_ids specs) s [] (
            IsOrdered-HasKnownGroups cell (order s) (group_ids specs) [] s (ids-ne-nil specs n)
              ordered),
      )
