-- ===== src/Errors.antt =====
-- errors.go and catalog.go: the errors that hooks return, `errors.Is` and `errors.As` on them, and
-- the catalog of localized copy with its keys.
use editrig_go.Base.{
  ℕ, ◌≡◌, refl, Bool, true, false, Option, none, some, List, [], ◌∷◌, map, String, is_empty,
  if◌then◌else◌,
}
use editrig_go.Text.{join, ◌+++◌}
use editrig_go.Text.Decimal.{itoa}

-- `ConflictRef` and `ConflictError`.
pub record ConflictRef : Type 0 where
  pub label_key : String
  pub count : ℕ

pub record ConflictError : Type 0 where
  pub key : String
  pub refs : List ConflictRef

-- The errors that the code tells apart; `wrapped` is `fmt.Errorf` with `%w`, and `plain` any other
-- error under its text.
pub data Failure : Type 0 where
  not_found : Failure
  conflict : ConflictError → Failure
  max_bytes : Failure
  plain : String → Failure
  wrapped : String → Failure → Failure

-- `errors.Is(err, ErrNotFound)`.
unfoldable pub is_not_found : Failure → Bool
is_not_found not_found = true
is_not_found (wrapped prefix inner) = is_not_found inner
is_not_found _ = false

-- `errors.As(err, &ce)` for a `*ConflictError`.
unfoldable pub as_conflict : Failure → Option ConflictError
as_conflict (conflict ce) = some ce
as_conflict (wrapped prefix inner) = as_conflict inner
as_conflict _ = none

-- `errors.As(err, &tooLarge)` for a `*http.MaxBytesError`.
unfoldable pub is_too_large : Failure → Bool
is_too_large max_bytes = true
is_too_large (wrapped prefix inner) = is_too_large inner
is_too_large _ = false

-- `err.Error()`.
unfoldable pub error_text : Failure → String
error_text not_found = "editor: entity not found"
error_text (conflict ce) = "editor: conflict: " +++ ce.key
error_text max_bytes = "http: request body too large"
error_text (plain text) = text
error_text (wrapped prefix inner) = prefix +++ ": " +++ error_text inner

-- `Catalog`.
pub record Catalog : Type 0 where
  pub title : String → String
  pub label : String → String → String
  pub group : String → String
  pub message : String → String

-- `PlainCatalog`.
abbrev pub plain_catalog : Catalog
plain_catalog = record {
  title = λ field. field;
  label = λ field value. value;
  group = λ id. id;
  message = λ suffix. suffix;
}

abbrev pub catalog_root : String
catalog_root = "editor."

unfoldable pub key : String → String → String
key entity suffix = catalog_root +++ entity +++ "." +++ suffix

unfoldable pub value_key : String → String → String → String
unfolding key
value_key entity field value = key entity (field +++ "_values." +++ value)

unfoldable pub field_key : String → String → String → String
unfolding key
field_key entity field sub = key entity (field +++ "_fields." +++ sub)

unfoldable pub group_key : String → String → String
unfolding key
group_key entity id = key entity ("groups." +++ id)

abbrev pub ref_text : Catalog → ConflictRef → String
ref_text cat r = cat.message r.label_key +++ " " +++ itoa r.count

-- `renderConflict` of handler.go.
unfoldable pub render_conflict : Catalog → ConflictError → String
unfolding join itoa
render_conflict cat ce =
    if is_empty ce.refs
    then cat.message ce.key
    else cat.message ce.key +++ ": " +++ join ", " (map (ref_text cat) ce.refs)

render_two :
    render_conflict plain_catalog (record {
      key = "in_use";
      refs =
          record { label_key = "posts"; count = 3 }
          ∷ record { label_key = "tags"; count = 12 }
          ∷ [];
    })
    ≡ "in_use: posts 3, tags 12"
unfolding render_conflict
render_two = refl
