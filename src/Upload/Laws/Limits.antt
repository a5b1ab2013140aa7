-- ===== src/Upload/Laws/Limits.antt =====
-- No body that is larger than its limit is accepted.
use editrig_go.Base.{
  true, false, ℕ, ◌≤◌, ◌≡◌, Bool, Option, none, some, arith, List, [], ◌∷◌, if◌then◌else◌, ltb,
  Bool-cases, inl, inr,
}
use editrig_go.Text.{has_prefix}
use editrig_go.Map.{Map}
use editrig_go.Json.{Data, Upload}
use editrig_go.Config.{BodyLimits, defaults, to_ℕ}
use editrig_go.Http.{go, World, Request, Read, Body, Form, pure, continue, ◌>>=◌}
use editrig_go.Upload.{
  decoded, Outcome, found, at_end, trouble, read_at, later, JsonBody, body, bad, first_read,
  plain_result, decode_json_body, reject_form, remove_all, open_form, parsed_form, decode_form,
  decode_multipart, decode_limited, decode_body,
}

-- The end of the body is seen only if the whole body is within the limit.
read_at-eq-at_end :
    (limit size : ℕ) (reads : List Read) → read_at limit size reads ≡ at_end → size ≤ limit
unfolding read_at
read_at-eq-at_end limit size [] h = ground arith
read_at-eq-at_end limit size (r ∷ rest) h = ground arith

first_read-eq-body :
    (o next : Outcome) (p : Option Data) → first_read o next ≡ body p → next ≡ at_end
first_read-eq-body (found v) next p h = ground arith
first_read-eq-body at_end next p h = cc
first_read-eq-body (trouble f) next p h = cc

decode_json_body-le :
    (limit : ℕ) (b : Body) (p : Option Data) → decode_json_body limit b ≡ body p → b.size ≤ limit
unfolding decode_json_body
decode_json_body-le limit b p h =
    read_at-eq-at_end limit b.size (later b.reads) (first_read-eq-body _ _ p h)

plain_result-eq-decoded :
    (j : JsonBody) {input : Option Data} {fs : Map (List Upload)} {held : Bool}
    → plain_result j ≡ decoded input fs held
    → j ≡ body input
plain_result-eq-decoded (body p) h = cc
plain_result-eq-decoded (bad f) h = absurd (ground arith)

-- The limit that applies to a request.
abbrev pub body_limit : Request → BodyLimits → ℕ
body_limit r l =
    if has_prefix r.content_type "multipart/" then to_ℕ l.multipart_bytes else to_ℕ l.json_bytes

module _ {S : Type 0} where
  decode_form-le :
      (limit : ℕ) (b : Body) (form : Form) (w : World S) {input : Option Data}
      {fs : Map (List Upload)} {held : Bool}
      → (decode_form limit b form w).0 ≡ go (decoded input fs held)
      → b.size ≤ limit
  unfolding decode_form reject_form remove_all pure continue ◌>>=◌
  decode_form-le limit b form w h = elim (Bool-cases (ltb limit b.size)) [
    | inl large ↦ absurd (ground arith)
    | inr small ↦ ground arith
  ]

  parsed_form-le :
      (limit : ℕ) (bad_query : Bool) (b : Body) (o : Option Form) (w : World S)
      {input : Option Data} {fs : Map (List Upload)} {held : Bool}
      → (parsed_form limit bad_query b o w).0 ≡ go (decoded input fs held)
      → b.size ≤ limit
  unfolding open_form pure continue ◌>>=◌
  parsed_form-le limit bad_query b none w h = absurd (ground arith)
  parsed_form-le limit true b (some form) w h = absurd (ground arith)
  parsed_form-le limit false b (some form) w h = decode_form-le limit b form _ h

  decode_limited-le :
      (r : Request) (l : BodyLimits) (w : World S) {input : Option Data} {fs : Map (List Upload)}
      {held : Bool}
      → (decode_limited r (some l) w).0 ≡ go (decoded input fs held)
      → r.body.size ≤ body_limit r l
  unfolding decode_multipart pure
  decode_limited-le r l w {input} {fs} {held} h =
      elim (Bool-cases (has_prefix r.content_type "multipart/")) [
        | inl form ↦ elim (Bool-cases (ltb (to_ℕ l.multipart_bytes) r.body.form_upto)) [
          | inl large ↦ absurd (ground arith)
          | inr small ↦ rw form (
              parsed_form-le (to_ℕ l.multipart_bytes) r.bad_query r.body r.body.form w
                {input = input} {fs = fs} {held = held} (ground arith))
        ]
        | inr json ↦ rw json (
            decode_json_body-le (to_ℕ l.json_bytes) r.body input (
              plain_result-eq-decoded (decode_json_body (to_ℕ l.json_bytes) r.body) {fs = fs}
                {held = held} (ground arith)))
      ]

  -- A body is read only if all of it, a multipart epilogue included, is within the limit that the
  -- filled-in configuration sets for its content type.
  pub decode_body-le :
      (r : Request) (limits full : BodyLimits) (w : World S) {input : Option Data}
      {fs : Map (List Upload)} {held : Bool}
      → defaults limits ≡ some full
      → (decode_body r limits w).0 ≡ go (decoded input fs held)
      → r.body.size ≤ body_limit r full
  unfolding decode_body
  decode_body-le r limits full w d h = decode_limited-le r full w (rw d at h)
