-- ===== src/Ui/Fields/Laws.antt =====
-- The options that a modifier of ui/field.go sets, and the ones it keeps.
use editrig_go.Base.{◌≡◌, refl, ap, ◌∙◌, some, [], ◌∷◌, String, ◌==◌, if◌then◌else◌}
use editrig_go.Map.{Map, lookup, insert}
use editrig_go.Map.Laws.{lookup-insert}
use editrig_go.Ui.{Any, object, Field, entries, as_object, or_empty}
use editrig_go.Ui.Modifiers.{with_key}
use editrig_go.Ui.Fields.{of_entries, options, with_option}

entries-of_entries : (m : Map Any) → entries (of_entries m) ≡ m
entries-of_entries [] = refl
entries-of_entries ((k, v) ∷ m) = ap (λ rest. (k, v) ∷ rest) (entries-of_entries m)

options-with_option :
    (key : String) (v : Any) (f : Field) → options (with_option key v f) ≡ insert key v (options f)
unfolding options with_option with_key
options-with_option key v f =
    ap (λ o. or_empty (as_object o))
      (lookup-insert "ui:options" "ui:options" (object (of_entries (insert key v (options f)))) f)
    ∙ entries-of_entries (insert key v (options f))

-- A modifier of the options sets its own option, and every other option stays as it was.
lookup-with_option :
    (key asked : String) (v : Any) (f : Field)
    → lookup asked (options (with_option key v f))
      ≡ (if key == asked then some v else lookup asked (options f))
lookup-with_option key asked v f =
    ap (lookup asked) (options-with_option key v f) ∙ lookup-insert key asked v (options f)
