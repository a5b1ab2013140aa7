-- ===== src/Upload/Laws.antt =====
-- What `decodeBody` does with a form's temporary files, with the limits, and with file parts.
pub mod Limits
pub mod Stores
pub mod FilePresence
use editrig_go.Base.{
  ℕ, ◌+◌, ◌-◌, ◌≤◌, ltb, ◌≡◌, refl, Bool, true, false, Option, none, some, arith, List, [], ◌∷◌,
  String, if◌then◌else◌,
}
use editrig_go.Text.{has_prefix}
use editrig_go.Map.{lookup}
use editrig_go.Json.{Data}
use editrig_go.Errors.{Failure}
use editrig_go.Config.{BodyLimits, defaults, to_ℕ}
use editrig_go.Http.{
  Step, go, answer, panic, World, Request, Body, Form, Exec, pure, crash, continue, ◌>>=◌,
}
use editrig_go.Upload.{
  Decoded, rejected, decoded, JsonBody, plain_result, reject_form, remove_all, open_form,
  with_files, with_payload, read_files, decode_form, decode_multipart, decode_body, Payload,
  payload, bad_payload, Files, files, bad_file, err_body_too_large, err_malformed_multipart,
  payload_of, payload_value, parsed_form, decode_limited, decode_json_body,
}

-- How many forms a result leaves for the caller's cleanup.
abbrev pub left : Step Decoded → ℕ
left (go (decoded input fs true)) = 1
left _ = 0

plain_result-left : (b : JsonBody) → left (go (plain_result b)) ≡ 0
plain_result-left (JsonBody.body p) = refl
plain_result-left (JsonBody.bad f) = ground arith

-- How many forms nobody removes.
abbrev pub lost_form : Bool → Option Form → ℕ
lost_form bad_query none = 0
lost_form bad_query (some form) = if bad_query then 1 else 0

abbrev pub lost_under : Request → Option BodyLimits → ℕ
lost_under r none = 0
lost_under r (some l) =
    if has_prefix r.content_type "multipart/"
    then if ltb (to_ℕ l.multipart_bytes) r.body.form_upto
      then 0
      else lost_form r.bad_query r.body.form
    else 0

lost_form-false : (o : Option Form) → lost_form false o ≡ 0
lost_form-false none = refl
lost_form-false (some form) = refl

pub lost_under-parsed :
    (r : Request) (o : Option BodyLimits) → r.bad_query ≡ false → lost_under r o ≡ 0
lost_under-parsed r none e = refl
lost_under-parsed r (some l) e = ground (arith, lost_form-false r.body.form, e)

module _ {S : Type 0} where
  -- A form was opened before the step: it is removed unless the result leaves it.
  abbrev Balanced : Exec S Decoded → World S → Type 0
  Balanced m w = 1 ≤ w.open_forms → (m w).1.open_forms + 1 ≡ w.open_forms + left (m w).0

  reject_form-Balanced :
      (status : ℕ) (f : Failure) (w : World S) → Balanced (reject_form status f) w
  unfolding reject_form remove_all pure continue ◌>>=◌
  reject_form-Balanced status f w h = omega arith

  with_files-Balanced : (input : Data) (fs : Files) (w : World S) → Balanced (with_files input fs) w
  unfolding pure
  with_files-Balanced input (files m) w h = refl
  with_files-Balanced input (bad_file f) w h = reject_form-Balanced 400 f w h

  with_payload-Balanced :
      (form : Form) (p : Payload) (w : World S) → Balanced (with_payload form p) w
  with_payload-Balanced form (payload input) w h =
      with_files-Balanced input (read_files form.files []) w h
  with_payload-Balanced form (bad_payload f) w h = reject_form-Balanced 400 f w h

  if-Balanced :
      (b : Bool) (m n : Exec S Decoded) (w : World S)
      → Balanced m w
      → Balanced n w
      → Balanced (if b then m else n) w
  if-Balanced true m n w p q = p
  if-Balanced false m n w p q = q

  decode_form-Balanced :
      (limit : ℕ) (b : Body) (form : Form) (w : World S) → Balanced (decode_form limit b form) w
  unfolding decode_form
  decode_form-Balanced limit b form w =
      if-Balanced (ltb limit b.size) _ _ w (reject_form-Balanced 413 err_body_too_large w) (
        if-Balanced b.tail_broken _ _ w (reject_form-Balanced 400 err_malformed_multipart w) (
          with_payload-Balanced form (payload_of (payload_value (lookup "payload" form.values))) w))

  -- After the step there are as many forms as before, those that the result leaves for the caller,
  -- and `lost` ones.
  abbrev IsExact : ℕ → Exec S Decoded → World S → Type 0
  IsExact lost m w = (m w).1.open_forms ≡ w.open_forms + left (m w).0 + lost

  pure-IsExact : (d : Decoded) (w : World S) → left (go d) ≡ 0 → IsExact 0 (pure d) w
  unfolding pure
  pure-IsExact d w h = omega (arith, h)

  parsed-IsExact :
      (limit : ℕ) (bad_query : Bool) (b : Body) (o : Option Form) (w : World S)
      → IsExact (lost_form bad_query o) (parsed_form limit bad_query b o) w
  unfolding open_form pure continue ◌>>=◌
  parsed-IsExact limit bad_query b none w =
      pure-IsExact (rejected 400 err_malformed_multipart) w refl
  parsed-IsExact limit true b (some form) w = omega arith
  parsed-IsExact limit false b (some form) w =
      let w' : World S = record w { open_forms = w.open_forms + 1 } in
      omega (arith, decode_form-Balanced limit b form w' (omega arith))

  if-IsExact :
      (b : Bool) (i j : ℕ) (m n : Exec S Decoded) (w : World S)
      → IsExact i m w
      → IsExact j n w
      → IsExact (if b then i else j) (if b then m else n) w
  if-IsExact true i j m n w p q = p
  if-IsExact false i j m n w p q = q

  limited-IsExact :
      (r : Request) (o : Option BodyLimits) (w : World S)
      → IsExact (lost_under r o) (decode_limited r o) w
  unfolding decode_multipart crash
  limited-IsExact r none w = omega arith
  limited-IsExact r (some l) w =
      if-IsExact (has_prefix r.content_type "multipart/") _ _ _ _ w
        (if-IsExact (ltb (to_ℕ l.multipart_bytes) r.body.form_upto) _ _ _ _ w
          (pure-IsExact (rejected 413 err_body_too_large) w refl)
          (parsed-IsExact (to_ℕ l.multipart_bytes) r.bad_query r.body r.body.form w))
        (pure-IsExact _ w (plain_result-left (decode_json_body (to_ℕ l.json_bytes) r.body)))

  -- Reading the body leaves one form's temporary files on disk if it hands the caller a cleanup, and
  -- one in the case that a multipart form within the limit comes with a malformed query, which is
  -- refused without removing them; every other refusal has removed them.
  pub open_forms-decode_body :
      (r : Request) (limits : BodyLimits) (w : World S)
      → (decode_body r limits w).1.open_forms
        ≡ w.open_forms + left (decode_body r limits w).0 + lost_under r (defaults limits)
  unfolding decode_body
  open_forms-decode_body r limits w = limited-IsExact r (defaults limits) w
