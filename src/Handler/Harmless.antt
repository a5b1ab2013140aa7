-- ===== src/Handler/Harmless.antt =====
-- An answer that blames the request (4xx) means that nothing was stored.
use editrig_go.Base.{
  ◌-◌, ◌≡◌, ◌⊎◌, inl, inr, refl, ◌∙◌, Bool, true, false, Option, none, some, arith, List, String,
  if◌then◌else◌, is_some, is_empty, Bool-cases, Option-cases,
}
use editrig_go.Map.{Map}
use editrig_go.Json.{Data, Upload}
use editrig_go.Validate.Structural.{SchemaEngine}
use editrig_go.Errors.{Catalog, error_text}
use editrig_go.Entity.{Entity, Hook, SchemaResult, LoadResult, ValidateResult, SaveResult}
use editrig_go.Http.{
  Step, go, answer, panic, World, Exec, continue, call, with_cleanup, reply_error, ◌>>=◌,
}
use editrig_go.Http.Rules.{Keeps, Keeps-reply_error, Keeps-store-call, IsReading}
use editrig_go.Http.Answers.{
  IsClientError, Harmless, Serves, Serves-pure, Serves-call, Serves-crash, Serves-500, Serves-reply,
  Serves-if, Serves-bind, Harmless-of_keeps, Harmless-of_serves, Harmless-bind,
}
use editrig_go.Upload.{Decoded, rejected, decoded, or_empty}
use editrig_go.Handler.{load_or_500, schema_or_500, run_load, run_schema, call_load, call_schema}
use editrig_go.Handler.Write.{
  save_checked, answer_saved, saved_id, write_status, write_decoded, body_checked, refuse_errors,
}
use editrig_go.Handler.Keeping.{HooksKeep, Keeps-checked_payload, Keeps-save_checked}

-- `Schema`, `Load` and `Validate` only read the store.
pub record HooksRead {S : Type 0} (e : Entity S) : Type 0 where
  pub schema :
      (hook : Catalog → Option Data → Hook S SchemaResult)
      → e.schema ≡ some hook
      → (cat : Catalog) (row : Option Data) → IsReading (hook cat row)
  pub load :
      (hook : String → Hook S LoadResult) → e.load ≡ some hook → (id : String) → IsReading (hook id)
  pub validate :
      (hook : Catalog → Option String → Data → Hook S ValidateResult)
      → e.validate ≡ some hook
      → (cat : Catalog) (id : Option String) (input : Data) → IsReading (hook cat id input)

-- "The entity must roll back its own work when it returns ferr or err."
pub record SavesAtomically {S : Type 0} (e : Entity S) : Type 0 where
  pub rolls_back :
      (save : Option String → Data → Hook S SaveResult)
      → e.save ≡ some save
      → (id : Option String) (input : Data) (s : S)
      → (is_empty (save id input s).0.field_errors ≡ false)
        ⊎ (is_some (save id input s).0.failure ≡ true)
      → (save id input s).1 ≡ s

write_status_ok : (is_update : Bool) → ¬ IsClientError (write_status is_update)
write_status_ok true c = absurd (omega arith)
write_status_ok false c = absurd (omega arith)

module _ {S : Type 0} where
  Serves-call_load :
      (o : Option (String → Hook S LoadResult)) (id : String) → Serves (call_load o id)
  Serves-call_load none id = Serves-crash
  Serves-call_load (some hook) id = Serves-call (hook id)

  Serves-call_schema :
      (o : Option (Catalog → Option Data → Hook S SchemaResult)) (cat : Catalog) (row : Option Data)
      → Serves (call_schema o cat row)
  Serves-call_schema none cat row = Serves-crash
  Serves-call_schema (some hook) cat row = Serves-call (hook cat row)

  Serves-answer_saved :
      (e : Entity S) (cat : Catalog) (is_update : Bool) (id : String)
      → Serves (answer_saved e cat is_update id)
  unfolding answer_saved load_or_500 schema_or_500 run_load run_schema
  Serves-answer_saved e cat is_update id =
      Serves-bind _ _
        (Serves-bind _ _ (Serves-call_load e.load id)
          (λ l. Serves-if (is_some l.failure) _ _ (Serves-500 "load") (Serves-pure l.row)))
        λ row.
          Serves-bind _ _
            (Serves-bind _ _ (Serves-call_schema e.schema cat row)
              (λ s. Serves-if (is_some s.failure) _ _ (Serves-500 "schema") (Serves-pure s)))
            λ s. Serves-reply (write_status is_update) _ (write_status_ok is_update)

-- The deferred cleanup does not touch the store.
released :
    {S : Type 0} (s : S) (held : Bool) (a : Step (Unit {0})) (w : World S)
    → Harmless s (a, w)
    → Harmless s (a, if held then record w { open_forms = w.open_forms - 1 } else w)
released s true (answer resp) w h = h
released s true (go a) w h = tt
released s true panic w h = tt
released s false a w h = h

module _ (engine : SchemaEngine) {S : Type 0} (policy : String) (e : Entity S) (reads : HooksRead e)
    (atomic : SavesAtomically e) (s : S) where
  pub store_hooks : HooksKeep (λ w. w.store) e
  store_hooks = record {
    schema = λ hook p cat row. Keeps-store-call (hook cat row) (reads.schema hook p cat row);
    load = λ hook p id. Keeps-store-call (hook id) (reads.load hook p id);
    validate = λ hook p cat id input.
        Keeps-store-call (hook cat id input) (reads.validate hook p cat id input);
  }

  module _ (save : Option String → Data → Hook S SaveResult) (is_save : e.save ≡ some save)
      (cat : Catalog) (id : Option String) where
    -- What follows a `Save` that returned `saved`.
    abbrev after_save : SaveResult → Exec S (Unit {0})
    after_save saved =
        save_checked saved >>= λ out_id. answer_saved e cat (is_some id) (saved_id id out_id)

    failed-Harmless :
        (saved : SaveResult) (w : World S) → w.store ≡ s → Harmless s (after_save saved w)
    failed-Harmless saved w h = Harmless-bind s _ _ w (Keeps-save_checked saved) h (λ out_id v k.
        Harmless-of_serves s _ _
          ((Serves-answer_saved e cat (is_some id) (saved_id id out_id)).at v))

    succeeded-Serves :
        (saved : SaveResult)
        → is_empty saved.field_errors ≡ true
        → saved.failure ≡ none
        → Serves {S = S} (save_checked saved)
    unfolding save_checked refuse_errors
    succeeded-Serves saved h k =
        rw (h, k) (Serves-bind _ _ (Serves-pure tt) (λ _. Serves-pure saved.out_id))

    saved-Harmless :
        (saved : SaveResult) (w : World S)
        → ((is_empty saved.field_errors ≡ false) ⊎ (is_some saved.failure ≡ true) → w.store ≡ s)
        → Harmless s (after_save saved w)
    saved-Harmless saved w h = elim (Bool-cases (is_empty saved.field_errors)) [
      | inr b ↦ failed-Harmless saved w (h (inl b))
      | inl a ↦ elim (Option-cases saved.failure) [
        | inr (why, c) ↦ failed-Harmless saved w (h (inr (rw c refl)))
        | inl c ↦ Harmless-of_serves s _ _ (
            (Serves-bind _ _ (succeeded-Serves saved a c)
                (λ out_id. Serves-answer_saved e cat (is_some id) (saved_id id out_id))).at
              w)
      ]
    ]

    call-Harmless :
        (ready : Data) (w : World S)
        → w.store ≡ s
        → Harmless s ((call (save id ready) >>= after_save) w)
    unfolding call continue ◌>>=◌
    call-Harmless ready w h =
        saved-Harmless (save id ready w.store).0 (record w { store = (save id ready w.store).1 })
          (λ b. atomic.rolls_back save is_save id ready w.store b ∙ h)

    write_decoded-Harmless :
        (current : Option Data) (input : Data) (files : Map (List Upload)) (w : World S)
        → w.store ≡ s
        → Harmless s (write_decoded engine policy e save cat id current input files w)
    unfolding write_decoded
    write_decoded-Harmless current input files w h =
        Harmless-bind s _ _ w
          (Keeps-checked_payload e store_hooks engine policy cat id current input files) h
          call-Harmless

    with_cleanup-Harmless :
        (held : Bool) (m : Exec S (Unit {0})) (w : World S)
        → Harmless s (m w)
        → Harmless s (with_cleanup held m w)
    unfolding with_cleanup
    with_cleanup-Harmless held m w h = released s held (m w).0 (m w).1 h

    pub body_checked-Harmless :
        (current : Option Data) (d : Decoded) (w : World S)
        → w.store ≡ s
        → Harmless s (body_checked engine policy e save cat id current d w)
    body_checked-Harmless current (rejected status f) w h =
        let k : Keeps {S = S} (λ v. v.store) (reply_error {A = Unit {0}} status (error_text f)) =
          Keeps-reply_error status (error_text f) in
        Harmless-of_keeps s _ _ (k.at w ∙ h)
    body_checked-Harmless current (decoded input files held) w h =
        with_cleanup-Harmless held _ w (write_decoded-Harmless current (or_empty input) files w h)
