-- ===== src/Upload/Laws/Stores.antt =====
-- Reading a body does not touch the store.
use editrig_go.Base.{Bool, ℕ, refl, true, Option, none, some, [], ltb}
use editrig_go.Text.{has_prefix}
use editrig_go.Map.{lookup}
use editrig_go.Json.{Data}
use editrig_go.Errors.{Failure}
use editrig_go.Config.{BodyLimits, defaults, to_ℕ}
use editrig_go.Http.{World, Request, Body, Form}
use editrig_go.Http.Rules.{Keeps, Keeps-pure, Keeps-crash, Keeps-if, Keeps-bind}
use editrig_go.Upload.{
  rejected, decoded, reject_form, remove_all, open_form, with_files, with_payload, read_files,
  decode_form, decode_multipart, decode_body, Payload, payload, bad_payload, Files, files, bad_file,
  parsed_form, decode_limited, payload_of, payload_value,
}

module _ {S : Type 0} where
  abbrev store_of : World S → S
  store_of w = w.store

  Keeps-remove_all : Keeps store_of remove_all
  unfolding remove_all
  Keeps-remove_all = record { at = λ w. refl }

  Keeps-open_form : Keeps store_of open_form
  unfolding open_form
  Keeps-open_form = record { at = λ w. refl }

  Keeps-reject_form : (status : ℕ) (f : Failure) → Keeps store_of (reject_form status f)
  unfolding reject_form
  Keeps-reject_form status f = Keeps-bind _ _ Keeps-remove_all (λ _. Keeps-pure (rejected status f))

  Keeps-with_files : (input : Data) (fs : Files) → Keeps store_of (with_files input fs)
  Keeps-with_files input (files m) = Keeps-pure (decoded (some input) m true)
  Keeps-with_files input (bad_file f) = Keeps-reject_form 400 f

  Keeps-with_payload : (form : Form) (p : Payload) → Keeps store_of (with_payload form p)
  Keeps-with_payload form (payload input) = Keeps-with_files input (read_files form.files [])
  Keeps-with_payload form (bad_payload f) = Keeps-reject_form 400 f

  Keeps-decode_form :
      (limit : ℕ) (b : Body) (form : Form) → Keeps store_of (decode_form limit b form)
  unfolding decode_form
  Keeps-decode_form limit b form = Keeps-if (ltb limit b.size) _ _ (Keeps-reject_form 413 _) (
      Keeps-if b.tail_broken _ _ (Keeps-reject_form 400 _)
        (Keeps-with_payload form (payload_of (payload_value (lookup "payload" form.values)))))

  Keeps-parsed_form :
      (limit : ℕ) (bad_query : Bool) (b : Body) (o : Option Form)
      → Keeps store_of (parsed_form limit bad_query b o)
  Keeps-parsed_form limit bad_query b none = Keeps-pure _
  Keeps-parsed_form limit bad_query b (some form) =
      Keeps-bind _ _ Keeps-open_form
        (λ _. Keeps-if bad_query _ _ (Keeps-pure _) (Keeps-decode_form limit b form))

  Keeps-decode_limited : (r : Request) (o : Option BodyLimits) → Keeps store_of (decode_limited r o)
  unfolding decode_multipart
  Keeps-decode_limited r none = Keeps-crash
  Keeps-decode_limited r (some l) =
      Keeps-if (has_prefix r.content_type "multipart/") _ _
        (Keeps-if (ltb (to_ℕ l.multipart_bytes) r.body.form_upto) _ _ (Keeps-pure _)
          (Keeps-parsed_form (to_ℕ l.multipart_bytes) r.bad_query r.body r.body.form))
        (Keeps-pure _)

  pub Keeps-decode_body :
      (r : Request) (limits : BodyLimits) → Keeps store_of (decode_body r limits)
  unfolding decode_body
  Keeps-decode_body r limits = Keeps-decode_limited r (defaults limits)
