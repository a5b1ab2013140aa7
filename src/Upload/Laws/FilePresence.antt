-- ===== src/Upload/Laws/FilePresence.antt =====
-- Reading a body under positive limits does not panic, and every field that it returns files for has
-- at least one.
use editrig_go.Base.{
  Bool, ℕ, ◌≡◌, ◌≢◌, refl, true, Option, none, some, List, [], ◌∷◌, ◌++◌, String, ltb, All, ◌==◌,
  Option-cases, Bool-cases, inl, inr, subst, ◌⊎◌,
}
use editrig_go.Text.{has_prefix, cut_prefix}
use editrig_go.Map.{Map, lookup, insert}
use editrig_go.Json.{Data, Upload, or_nil}
use editrig_go.Errors.{Failure, is_too_large}
use editrig_go.Config.{BodyLimits, to_ℕ}
use editrig_go.Config.Laws.{IsLimited, defaults_of_IsLimited}
use editrig_go.Http.{Request, Body, Form, FilePart, pure, continue, ◌>>=◌}
use editrig_go.Http.Rules.{Ensures, Ensures-pure, Ensures-if, Ensures-bind}
use editrig_go.Upload.{
  Decoded, rejected, decoded, plain_result, JsonBody, reject_form, remove_all, open_form,
  with_files, with_payload, read_files, read_parts, decode_form, decode_multipart, decode_body,
  Payload, payload, bad_payload, Files, files, bad_file, parsed_form, decode_limited, payload_of,
  payload_value, file_part_prefix, decode_json_body,
}

-- Every field has a file.
abbrev pub HasFiles : Map (List Upload) → Type 0
HasFiles m = All (λ b. b.1 ≢ []) m

append-ne-nil : (ups : List Upload) (up : Upload) → ups ++ up ∷ [] ≢ []
append-ne-nil [] up = cc
append-ne-nil (u ∷ ups) up = cc

HasFiles-insert :
    (field : String) (ups : List Upload) (m : Map (List Upload))
    → ups ≢ []
    → HasFiles m
    → HasFiles (insert field ups m)
unfolding insert
HasFiles-insert field ups [] h a = (h, tt)
HasFiles-insert field ups ((k, v) ∷ m) h (b, a) = elim (Bool-cases (k == field)) [
  | inl e ↦ rw e (h, a)
  | inr e ↦ rw e (b, HasFiles-insert field ups m h a)
]

abbrev FilesOk : Files → Type 0
FilesOk (files m) = HasFiles m
FilesOk (bad_file f) = Unit

read_parts-FilesOk :
    (field : String) (parts : List FilePart) (m : Map (List Upload))
    → HasFiles m
    → FilesOk (read_parts field parts m)
unfolding read_parts
read_parts-FilesOk field [] m a = a
read_parts-FilesOk field (part ∷ parts) m a = elim (Option-cases part.content) [
  | inl e ↦ rw e tt
  | inr (bytes, e) ↦ rw e (
      read_parts-FilesOk field parts _
        (HasFiles-insert field _ m (append-ne-nil (or_nil (lookup field m)) _) a))
]

Files-cases :
    (fs : Files) → ((m : Map (List Upload)) × (fs ≡ files m)) ⊎ ((f : Failure) × (fs ≡ bad_file f))
Files-cases (files m) = inl (m, refl)
Files-cases (bad_file f) = inr (f, refl)

read_files-FilesOk :
    (parts : Map (List FilePart)) (m : Map (List Upload))
    → HasFiles m
    → FilesOk (read_files parts m)
unfolding read_files cut_prefix
read_files-FilesOk [] m a = a
read_files-FilesOk ((name, ps) ∷ rest) m a =
    elim (Option-cases (cut_prefix name file_part_prefix)) [
      | inl e ↦ rw (e, FilesOk, read_files) (read_files-FilesOk rest m a)
      | inr (field, e) ↦ elim (Files-cases (read_parts field ps m)) [
        | inl (next, p) ↦
            rw (e, p, FilesOk, read_files)
              (read_files-FilesOk rest next (subst FilesOk p (read_parts-FilesOk field ps m a)))
        | inr (f, p) ↦ rw (e, p, FilesOk, read_files) tt
      ]
    ]

-- What the write path relies on in a body that was read.
abbrev pub DecodedOk : Decoded → Type 0
DecodedOk (rejected status f) = Unit
DecodedOk (decoded input fs held) = HasFiles fs

plain_result-DecodedOk : (b : JsonBody) → DecodedOk (plain_result b)
plain_result-DecodedOk (JsonBody.body p) = tt
plain_result-DecodedOk (JsonBody.bad f) = elim (Bool-cases (is_too_large f)) [
  | inl h ↦ rw h tt
  | inr h ↦ rw h tt
]

module _ {S : Type 0} where
  Ensures-reject_form :
      (status : ℕ) (f : Failure) → Ensures {S = S} DecodedOk (reject_form status f)
  unfolding reject_form remove_all pure continue ◌>>=◌
  Ensures-reject_form status f = record { at = λ w. tt }

  Ensures-with_files :
      (input : Data) (fs : Files) → FilesOk fs → Ensures {S = S} DecodedOk (with_files input fs)
  Ensures-with_files input (files m) a = Ensures-pure DecodedOk (decoded (some input) m true) a
  Ensures-with_files input (bad_file f) a = Ensures-reject_form 400 f

  Ensures-with_payload :
      (form : Form) (p : Payload) → Ensures {S = S} DecodedOk (with_payload form p)
  Ensures-with_payload form (payload input) =
      Ensures-with_files input (read_files form.files []) (read_files-FilesOk form.files [] tt)
  Ensures-with_payload form (bad_payload f) = Ensures-reject_form 400 f

  Ensures-decode_form :
      (limit : ℕ) (b : Body) (form : Form) → Ensures {S = S} DecodedOk (decode_form limit b form)
  unfolding decode_form
  Ensures-decode_form limit b form =
      Ensures-if DecodedOk (ltb limit b.size) _ _ (Ensures-reject_form 413 _) (
        Ensures-if DecodedOk b.tail_broken _ _ (Ensures-reject_form 400 _)
          (Ensures-with_payload form (payload_of (payload_value (lookup "payload" form.values)))))

  Ensures-open_form : Ensures {S = S} (λ u. Unit) open_form
  unfolding open_form
  Ensures-open_form = record { at = λ w. tt }

  Ensures-parsed_form :
      (limit : ℕ) (bad_query : Bool) (b : Body) (o : Option Form)
      → Ensures {S = S} DecodedOk (parsed_form limit bad_query b o)
  Ensures-parsed_form limit bad_query b none = Ensures-pure DecodedOk _ tt
  Ensures-parsed_form limit bad_query b (some form) =
      Ensures-bind _ DecodedOk _ _ Ensures-open_form (λ _ _.
        Ensures-if DecodedOk bad_query _ _ (Ensures-pure DecodedOk _ tt)
          (Ensures-decode_form limit b form))

  Ensures-decode_limited :
      (r : Request) (l : BodyLimits) → Ensures {S = S} DecodedOk (decode_limited r (some l))
  unfolding decode_multipart
  Ensures-decode_limited r l =
      Ensures-if DecodedOk (has_prefix r.content_type "multipart/") _ _
        (Ensures-if DecodedOk (ltb (to_ℕ l.multipart_bytes) r.body.form_upto) _ _
          (Ensures-pure DecodedOk _ tt)
          (Ensures-parsed_form (to_ℕ l.multipart_bytes) r.bad_query r.body r.body.form))
        (Ensures-pure DecodedOk _
          (plain_result-DecodedOk (decode_json_body (to_ℕ l.json_bytes) r.body)))

  -- Under limits that the configuration allows, reading a body does not panic, and a body that was
  -- read has at least one file for each field that it names.
  pub decode_body-DecodedOk :
      (r : Request) (limits : BodyLimits)
      → IsLimited limits
      → Ensures {S = S} DecodedOk (decode_body r limits)
  unfolding decode_body
  decode_body-DecodedOk r limits h =
      rw (defaults_of_IsLimited limits h) (Ensures-decode_limited r limits)
