-- ===== src/Ui/Modifiers/Laws.antt =====
-- The orders in which the modifiers may be called, and calling one twice.
use editrig_go.Base.{
  ◌≡◌, ◌∙◌, sym, ap, subst, refl, Bool, true, false, Option, none, some, [], ◌∷◌, String, ◌==◌,
  if◌then◌else◌, arith, eq_iff, Bool-cases, inl, inr, ◌||◌,
}
use editrig_go.Map.{lookup, insert, delete, has}
use editrig_go.Map.Laws.{lookup-insert, lookup-delete}
use editrig_go.Ui.{Any, null, flag, text, texts, list, cons, Field, is_readonly, is_hidden}
use editrig_go.Ui.Modifiers.{
  with_key, hidden, names_null, is_nullable, nullable_enum, clearable, nullable, readonly,
}

-- Two fields with the same keys and values.
abbrev IsSameField : Field → Field → Type 0
IsSameField f g = (k : String) → lookup k f ≡ lookup k g

-- What is read-only, and was hidden or not.
abbrev marked : Field → Field
marked f = delete "ui:emptyValue" (insert "ui:readonly" (flag true) f)

lookup-marked :
    (f : Field) (k : String)
    → lookup k (marked f) ≡ (
        if "ui:emptyValue" == k
        then none
        else if "ui:readonly" == k
        then some (flag true)
        else lookup k f)
lookup-marked f k = ground (
  arith,
  lookup-delete "ui:emptyValue" k (insert "ui:readonly" (flag true) f),
  lookup-insert "ui:readonly" k (flag true) f,
)

is_hidden-marked : (f : Field) → is_hidden (marked (insert "ui:widget" (text "hidden") f)) ≡ true
unfolding is_hidden
is_hidden-marked f =
    rw
      (
        lookup-marked (insert "ui:widget" (text "hidden") f) "ui:widget",
        lookup-insert "ui:widget" "ui:widget" (text "hidden") f,
      )
      refl

lookup-hidden_marked :
    (f : Field) (k : String)
    → lookup k (marked (insert "ui:widget" (text "hidden") f))
      ≡ lookup k (insert "ui:widget" (text "hidden") (marked f))
lookup-hidden_marked f k = elim (Bool-cases ("ui:widget" == k)) [
  | inl same ↦ subst IsKept ((eq_iff "ui:widget" k).0 same) widget_kept
  | inr other ↦ ground (
    arith,
    lookup-marked (insert "ui:widget" (text "hidden") f) k,
    lookup-marked f k,
    lookup-insert "ui:widget" k (text "hidden") f,
    lookup-insert "ui:widget" k (text "hidden") (marked f),
  )
]
  where
    IsKept : String → Type 0
    IsKept j =
        lookup j (marked (insert "ui:widget" (text "hidden") f))
        ≡ lookup j (insert "ui:widget" (text "hidden") (marked f))

    widget_kept : IsKept "ui:widget"
    widget_kept =
        lookup-marked (insert "ui:widget" (text "hidden") f) "ui:widget"
        ∙ lookup-insert "ui:widget" "ui:widget" (text "hidden") f
        ∙ sym (lookup-insert "ui:widget" "ui:widget" (text "hidden") (marked f))

lookup-insert_twice :
    (k name : String) (v w : Any) (f : Field)
    → lookup k (insert name v (insert name w f)) ≡ lookup k (insert name v f)
lookup-insert_twice k name v w f = ground (
  arith,
  lookup-insert name k v (insert name w f),
  lookup-insert name k w f,
  lookup-insert name k v f,
)

-- Hiding a field and making it read-only may be done in any order: the two results have the same
-- value for every key.
readonly-hidden : (f : Field) → IsSameField (readonly (hidden f)) (hidden (readonly f))
unfolding readonly hidden with_key
readonly-hidden f k =
    rw (is_hidden-marked f) (elim (Bool-cases (is_hidden (marked f) || has "ui:field" (marked f))) [
      | inl drawn ↦ rw drawn (lookup-hidden_marked f k)
      | inr plain ↦ rw plain (
          lookup-hidden_marked f k
          ∙ sym (
              lookup-insert_twice k "ui:widget" (text "hidden") (text "readonlyDisplay")
                (marked f)))
    ])

type-clearable : (b : Bool) (f : Field) → lookup "type" (clearable b f) ≡ lookup "type" f
type-clearable true f = refl
type-clearable false f = lookup-insert "ui:emptyValue" "type" null f

type-nullable_enum :
    (o : Option Any) (f : Field) → lookup "type" (nullable_enum o f) ≡ lookup "type" f
type-nullable_enum none f = refl
type-nullable_enum (some (list vals)) f = lookup-insert "enum" "type" (list (cons null vals)) f
type-nullable_enum (some _) f = refl

or_true : (b : Bool) → (b || true) ≡ true
or_true b = ground arith

-- A field whose type is one name is nullable once it is made so.
is_nullable-nullable :
    (f : Field) (t : String) → lookup "type" f ≡ some (text t) → is_nullable (nullable f) ≡ true
unfolding is_nullable nullable
is_nullable-nullable f t h = rw h (
    ap names_null (
      type-nullable_enum (lookup "enum" cleared) cleared
      ∙ type-clearable (is_readonly typed) typed
      ∙ lookup-insert "type" "type" (texts (t ∷ "null" ∷ [])) f)
    ∙ or_true (t == "null"))
  where
    typed : Field
    typed = insert "type" (texts (t ∷ "null" ∷ [])) f

    cleared : Field
    cleared = clearable (is_readonly typed) typed

nullable_of_nullable : (f : Field) → is_nullable f ≡ true → nullable f ≡ f
unfolding nullable
nullable_of_nullable f h = rw h refl

-- Making a field nullable twice is making it nullable once, if the type of the field is one name.
pub nullable_idem :
    (f : Field) (t : String) → lookup "type" f ≡ some (text t) → nullable (nullable f) ≡ nullable f
nullable_idem f t h = rw (nullable_of_nullable (nullable f) (is_nullable-nullable f t h)) refl
