-- ===== src/Jet/Store/Contract.antt =====
-- The store as the `Load`, `Save` and `Delete` hooks of an entity ("the method plugs into Entity
-- without an adapter"), and the contract of these hooks.
use editrig_go.Base.{
  Bool, List, ◌≡◌, refl, subst, some_inj, ◌⊎◌, inl, inr, true, false, Option, none, some, [],
  String, is_some, is_empty,
}
use editrig_go.Json.{Data}
use editrig_go.Errors.{Failure, Catalog, plain}
use editrig_go.Validate.Structural.{SchemaEngine}
use editrig_go.Entity.{Entity, Hook, SchemaResult, LoadResult, SaveResult, ValidateResult}
use editrig_go.Registry.{get}
use editrig_go.Http.{World, Request, Response, answer}
use editrig_go.Http.Rules.{IsReading}
use editrig_go.Http.Answers.{IsClientError}
use editrig_go.Handler.{Handler}
use editrig_go.Handler.Write.{write}
use editrig_go.Handler.Harmless.{HooksRead, SavesAtomically}
use editrig_go.Handler.ClientErrors.{store-write}
use editrig_go.Jet.Sql.{Database, IsTransactional, Ran, ok, failed, crashed, is_ok}
use editrig_go.Jet.Values.{Library}
use editrig_go.Jet.Store.{Store, Change, Reported, panicked}
use editrig_go.Jet.Store.Save.{load, save, delete}
use editrig_go.Jet.Store.Stays.{StaysStore}
use editrig_go.Jet.Store.Atomic.{PanickedReport, in_on_write, save-keeps}

-- A hook of the model has no panic: it counts as an error here.
abbrev as_failure : Failure
as_failure = plain "panic"

abbrev loaded : Ran (Option Data) → LoadResult
loaded (ok row) = record { row = row; failure = none }
loaded (failed e) = record { row = none; failure = some e }
loaded crashed = record { row = none; failure = some as_failure }

-- `ferr is always nil`.
abbrev saved : Ran String → SaveResult
saved (ok id) = record { out_id = id; field_errors = []; failure = none }
saved (failed e) = record { out_id = ""; field_errors = []; failure = some e }
saved crashed = record { out_id = ""; field_errors = []; failure = some as_failure }

abbrev deleted : Ran (Unit {0}) → Option Failure
deleted (ok u) = none
deleted (failed e) = some e
deleted crashed = some as_failure

-- The field errors of a save are none, and its failure tells whether it failed.
failure-saved : (r : Ran String) → is_some (saved r).failure ≡ true → is_ok r ≡ false
failure-saved (ok id) e = absurd (cc)
failure-saved (failed f) e = refl
failure-saved crashed e = refl

field_errors-saved : (r : Ran String) → is_empty (saved r).field_errors ≡ true
field_errors-saved (ok id) = refl
field_errors-saved (failed f) = refl
field_errors-saved crashed = refl

module _ (lib : Library) {S T : Type 0} (db : Database S T) where
  unfoldable pub with_store : Entity S → Store S T → Entity S
  with_store e st = record e {
    load = some λ id s. (loaded (load lib db st id s), s);
    save = some λ id input s. let (r, s') = save lib db st id input s in (saved r, s');
    delete = some λ id s. let (r, s') = delete lib db st id s in (deleted r, s');
  }

-- `Schema` and `Validate` of the application only read the store.
pub record ReadsOnly {S : Type 0} (e : Entity S) : Type 0 where
  pub schema :
      (hook : Catalog → Option Data → Hook S SchemaResult)
      → e.schema ≡ some hook
      → (cat : Catalog) (row : Option Data) → IsReading (hook cat row)
  pub validate :
      (hook : Catalog → Option String → Data → Hook S ValidateResult)
      → e.validate ≡ some hook
      → (cat : Catalog) (id : Option String) (input : Data) → IsReading (hook cat id input)

-- `OnWrite` returns, whatever it is told.
abbrev pub ReportsReturn : {S T : Type 0} → Store S T → Type 0
ReportsReturn {S = S} st =
    (hook : String → List Change → Bool → S → Reported S)
    → st.on_write ≡ some hook
    → (id : String) (changes : List Change) (created : Bool) (s s' : S)
    → ¬ (hook id changes created s ≡ panicked s')

module _ (lib : Library) {S T : Type 0} (db : Database S T) (e : Entity S) (st : Store S T) where
  HooksRead-with_store : ReadsOnly e → HooksRead (with_store lib db e st)
  unfolding with_store
  HooksRead-with_store reads = record {
    schema = reads.schema;
    load = λ hook p id.
        subst (λ (f : String → Hook S LoadResult). IsReading (f id)) (some_inj p) (λ s. refl);
    validate = reads.validate;
  }

  rolls_back :
      (r : Ran String) (s s' : S)
      → (is_ok r ≡ false → s' ≡ s)
      → (is_empty (saved r).field_errors ≡ false) ⊎ (is_some (saved r).failure ≡ true)
      → s' ≡ s
  rolls_back r s s' h (inl b) = let known = field_errors-saved r in absurd (cc)
  rolls_back r s s' h (inr b) = h (failure-saved r b)

  keeps_if_returns :
      (r : Ran String × S) (s : S) → ReportsReturn st → (r.1 ≡ s) ⊎ PanickedReport db st r → r.1 ≡ s
  keeps_if_returns r s returns (inl k) = k
  keeps_if_returns r s returns (inr (in_on_write hook id changes created t after o c p q)) =
      absurd (returns hook o id changes created after r.1 p)

  -- The store keeps the contract of `Entity.Save`: what it reports as failed, it has rolled back,
  -- if the cells and the `Create` hook use only the transaction that they are given, and `OnWrite`
  -- returns.
  pub with_store-SavesAtomically :
      (law : IsTransactional db)
      → StaysStore law st
      → ReportsReturn st
      → SavesAtomically (with_store lib db e st)
  unfolding with_store
  with_store-SavesAtomically law k returns = record {
    rolls_back = λ hook p id input s.
        subst
          (λ (f : Option String → Data → Hook S SaveResult).
            (is_empty (f id input s).0.field_errors ≡ false)
              ⊎ (is_some (f id input s).0.failure ≡ true)
            → (f id input s).1 ≡ s)
          (some_inj p)
          (rolls_back _ s _
            (λ b. keeps_if_returns _ s returns (save-keeps lib law st id input s k b)));
  }

-- An entity whose hooks are a store's.
pub record IsStored {S T : Type 0} (lib : Library) (db : Database S T) (e : Entity S) : Type 0 where
  pub rest : Entity S
  pub st : Store S T
  pub law : IsTransactional db
  pub is_store : with_store lib db rest st ≡ e
  pub reads : ReadsOnly rest
  pub stays : StaysStore law st
  pub returns : ReportsReturn st

module _ (engine : SchemaEngine) (lib : Library) {S T : Type 0} (db : Database S T) where
  stored_hooks : (e : Entity S) → IsStored lib db e → HooksRead e × SavesAtomically e
  stored_hooks e k = (
    subst HooksRead k.is_store (HooksRead-with_store lib db k.rest k.st k.reads),
    subst SavesAtomically k.is_store
        (with_store-SavesAtomically lib db k.rest k.st k.law k.stays k.returns),
  )

  -- The handler on top of the store: a create or an update that is answered with a status from 400
  -- to 499 leaves the database as it was, if the entity's `Schema` and `Validate` only read, the
  -- cells and the `Create` hook use only the transaction that they are given, `OnWrite` returns, and
  -- the database's transactions are transactions.
  pub store-write-with_store :
      (h : Handler S) (r : Request) (name : String) (id : Option String) (w : World S)
      (resp : Response)
      → ((e : Entity S) → get h.reg name ≡ some e → IsStored lib db e)
      → (write engine h r name id w).0 ≡ answer resp
      → IsClientError resp.status
      → (write engine h r name id w).1.store ≡ w.store
  store-write-with_store h r name id w resp stored =
      store-write engine h r name id w resp (λ e p. stored_hooks e (stored e p))
