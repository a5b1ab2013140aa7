-- ===== src/Http.antt =====
-- What the handlers see of net/http, and the effects of a handler: the store behind the hooks, the
-- multipart forms whose temporary files are on disk, an early answer, a panic.
pub mod Rules
pub mod Answers
use editrig_go.Base.{
  ℕ, suc, ◌+◌, ◌-◌, Bool, true, false, Option, none, some, List, [], ◌∷◌, String, ◌==◌,
  if◌then◌else◌,
}
use editrig_go.Map.{Map, lookup}
use editrig_go.Json.{Value, Data, Raw}
use editrig_go.Validate.{FieldError}
use editrig_go.Errors.{Failure}
use editrig_go.Entity.{Choice, Hook}

-- What one call of a JSON decoder finds, once `upto` bytes of the body are read.
pub data Token : Type 0 where
  value : Value → Token
  broken : String → Token

pub record Read : Type 0 where
  pub upto : ℕ
  pub token : Token

-- A file part: its bytes, or the error of opening and reading it.
pub record FilePart : Type 0 where
  pub filename : String
  pub mime : String
  pub content : Option String
  pub trouble : String

-- A parsed multipart form.
pub record Form : Type 0 where
  pub values : Map (List Raw)
  pub files : Map (List FilePart)

-- A body of `size` bytes as each of the two readers finds it: the calls of a JSON decoder, or the
-- multipart form that the first `form_upto` bytes hold. `tail_broken` is a read error behind it.
pub record Body : Type 0 where
  pub size : ℕ
  pub reads : List Read
  pub form_upto : ℕ
  pub form : Option Form
  pub tail_broken : Bool

-- `query` holds the pairs of the query string that parse; `bad_query` says that one does not, which
-- `ParseForm` reports as an error.
pub record Request : Type 0 where
  pub content_type : String
  pub query : Map (List String)
  pub bad_query : Bool
  pub body : Body

-- `envelope`, `errBody` and `optionsBody`.
pub record Envelope : Type 0 where
  pub name : String
  pub id : Option String
  pub schema : Raw
  pub ui_schema : Raw
  pub row : Option Data

pub record ErrBody : Type 0 where
  pub field_errors : List FieldError
  pub form_errors : List String

pub data Content : Type 0 where
  nothing : Content
  error : String → Content
  errors : ErrBody → Content
  envelope : Envelope → Content
  choices : List Choice → Content

pub record Response : Type 0 where
  pub status : ℕ
  pub content : Content

-- A step goes on with a value, has answered, or has panicked.
pub data Step {ℓ} (A : Type ℓ) : Type ℓ where
  go : A → Step A
  answer : Response → Step A
  panic : Step A

-- `open_forms` counts the multipart forms whose temporary files are not removed.
pub record World (S : Type 0) : Type 0 where
  pub store : S
  pub open_forms : ℕ

abbrev pub Exec : Type 0 → Type 0 → Type 0
Exec S A = World S → Step A × World S

module _ {S A B : Type 0} where
  unfoldable pub continue : Step A → (A → Exec S B) → Exec S B
  continue (go a) f w = f a w
  continue (answer r) f w = (answer r, w)
  continue panic f w = (panic, w)

  infixl 5 ◌>>=◌
  unfoldable pub ◌>>=◌ : Exec S A → (A → Exec S B) → Exec S B
  ◌>>=◌ m f w = let (r, w') = m w in continue r f w'

module _ {S A : Type 0} where
  unfoldable pub pure : A → Exec S A
  pure a w = (go a, w)

  unfoldable pub reply : ℕ → Content → Exec S A
  reply status content w = (answer (record { status = status; content = content }), w)

  -- `writeJSON(w, status, map[string]string{"error": text})`, and return.
  unfoldable pub reply_error : ℕ → String → Exec S A
  reply_error status text = reply status (error text)

  unfoldable pub crash : Exec S A
  crash w = (panic, w)

  -- The call of a hook; a nil hook panics.
  unfoldable pub call : Hook S A → Exec S A
  call hook w = let (r, s) = hook w.store in (go r, record w { store = s })

  -- The value, or an answer where there is none.
  abbrev pub or_reply : ℕ → String → Option A → Exec S A
  or_reply status text none = reply_error status text
  or_reply status text (some a) = pure a

  -- `defer cleanup()`: the files are removed on every way out.
  unfoldable pub with_cleanup : Bool → Exec S A → Exec S A
  with_cleanup held m w =
      let (r, w') = m w in (r, if held then record w' { open_forms = w'.open_forms - 1 } else w')
