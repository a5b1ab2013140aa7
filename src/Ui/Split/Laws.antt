-- ===== src/Ui/Split/Laws.antt =====
-- The halves of a field hold its keys, each in one of them, and no marker.
use editrig_go.Base.{
  ◌≡◌, refl, ap, ◌∙◌, Bool, true, false, not, ◌&&◌, Option, none, some, [], ◌∷◌, String, ◌==◌,
  eq_iff, if◌then◌else◌, arith,
}
use editrig_go.Text.{cut_prefix}
use editrig_go.Map.{lookup}
use editrig_go.Map.Laws.{lookup-insert}
use editrig_go.Ui.{Any, Field}
use editrig_go.Ui.Split.{is_ui, is_dropped, item_ui_key, place, split_field}

-- The keys that stay in the schema, and the ones that go to the uiSchema.
abbrev pub in_schema : String → Bool
in_schema k = not (is_dropped k) && (not (k == item_ui_key) && not (is_ui k))

lookup-place :
    (j k : String) (v : Any) (halves : Field × Field)
    → lookup j (place k v halves).0 ≡ (if k == j && in_schema k then some v else lookup j halves.0)
unfolding place
lookup-place j k v (prop, ui) = ground (arith, lookup-insert k j v prop)

abbrev pub in_ui : String → Bool
in_ui k = not (is_dropped k) && (not (k == item_ui_key) && is_ui k)

items_not_ui : in_ui "items" ≡ false
unfolding is_ui is_dropped cut_prefix
items_not_ui = refl

item_ui_not_dropped : is_dropped item_ui_key ≡ false
unfolding is_dropped
item_ui_not_dropped = refl

-- What the uiSchema entry holds under a key: the list element's half is renamed to "items".
abbrev pub ui_half : String → Field → Option Any
ui_half j f = if j == "items" then lookup item_ui_key f else if in_ui j then lookup j f else none

lookup-place_ui :
    (j k : String) (v : Any) (halves : Field × Field)
    → lookup j (place k v halves).1 ≡ (
        if k == item_ui_key && j == "items"
        then some v
        else if k == j && in_ui k
        then some v
        else lookup j halves.1)
unfolding place
lookup-place_ui j k v (prop, ui) = ground (
  arith,
  lookup-insert k j v ui,
  lookup-insert "items" j v ui,
  item_ui_not_dropped,
  eq_iff k item_ui_key,
  eq_iff "items" j,
  eq_iff j "items",
  eq_iff k j,
)

-- One more key: `named` and `own` say that it is the list element's or the asked one.
ui_step :
    {A : Type 0} (named items own goes asked : Bool) (v : A) (element other : Option A)
    → (own ≡ true → goes ≡ asked)
    → (items ≡ true → asked ≡ false)
    → (if named && items
        then some v
        else if own && goes
        then some v
        else if items
        then element
        else if asked
        then other
        else none)
      ≡ (if items
          then if named then some v else element
          else if asked
          then if own then some v else other
          else none)
ui_step named items own goes asked v element other h k = ground (arith, h, k)

split_prop :
    (j : String) (f : Field)
    → lookup j (split_field f).0 ≡ (if in_schema j then lookup j f else none)
unfolding split_field lookup
split_prop j [] = ground arith
split_prop j ((k, v) ∷ f) =
    ground (arith, lookup-place j k v (split_field f), split_prop j f, eq_iff k j)

split_ui : (j : String) (f : Field) → lookup j (split_field f).1 ≡ ui_half j f
unfolding split_field lookup
split_ui j [] = ground arith
split_ui j ((k, v) ∷ f) =
    lookup-place_ui j k v (split_field f)
    ∙ ap
        (λ o.
          if k == item_ui_key && j == "items"
          then some v
          else if k == j && in_ui k
          then some v
          else o)
        (split_ui j f)
    ∙ ui_step (k == item_ui_key) (j == "items") (k == j) (in_ui k) (in_ui j) v
        (lookup item_ui_key f) (lookup j f) (λ e. ap in_ui ((eq_iff k j).0 e))
        (λ e. ap in_ui ((eq_iff j "items").0 e) ∙ items_not_ui)

-- A field is split without loss: each key stands in one half under its own name, the half of a
-- list element under "items", and the markers stand in neither.
pub lookup-split_field :
    (j : String) (f : Field)
    → (lookup j (split_field f).0 ≡ (if in_schema j then lookup j f else none))
      × (lookup j (split_field f).1 ≡ ui_half j f)
lookup-split_field j f = (split_prop j f, split_ui j f)
