-- ===== src/Jet/Store/Atomic.antt =====
-- A save or a delete that does not succeed leaves the committed state as it was.
use editrig_go.Base.{Bool, List, ◌⊎◌, inl, inr, ◌≡◌, refl, ◌∙◌, false, Option, none, some, String}
use editrig_go.Json.{Data}
use editrig_go.Errors.{Failure}
use editrig_go.Jet.Sql.{Database, IsTransactional, Ran, ok, failed, crashed, is_ok}
use editrig_go.Jet.Values.{Library}
use editrig_go.Jet.Store.{
  Store, Change, Progress, Work, nothing, wrote, Reported, returned, panicked,
}
use editrig_go.Jet.Store.Save.{
  save, delete, finish, finish_delete, in_transaction, reported, notify, changes_of, told,
  committed,
}
use editrig_go.Jet.Store.Stays.{StaysStore, Stays-work}

-- The save panics in `OnWrite`, which was called on the state after a commit.
pub data PanickedReport {S T : Type 0} (db : Database S T) (st : Store S T) (r : Ran String × S)
    : Type 0 where
  in_on_write :
      (hook : String → List Change → Bool → S → Reported S) (id : String) (changes : List Change)
      (created : Bool) (t : T) (after : S)
      → st.on_write ≡ some hook
      → db.commit t ≡ (none, after)
      → hook id changes created after ≡ panicked r.1
      → r.0 ≡ crashed
      → PanickedReport db st r

returned_panicked : {S : Type 0} {s s' : S} → ¬ (returned s ≡ panicked s')
returned_panicked h = absurd (cc)

module _ (lib : Library) {S T : Type 0} {db : Database S T} (law : IsTransactional db) where
  -- What an operation that is not successful must have left, unless it ended as `Other` says.
  in_transaction_atomic :
      {A : Type 0} (Other : Ran A × S → Type 0) (body : T → Ran A × S) (s : S) (r : Ran T)
      → db.begin s ≡ r
      → ((t : T) → law.origin t ≡ s → is_ok (body t).0 ≡ false → ((body t).1 ≡ s) ⊎ Other (body t))
      → is_ok (in_transaction lib db body s r).0 ≡ false
      → ((in_transaction lib db body s r).1 ≡ s) ⊎ Other (in_transaction lib db body s r)
  in_transaction_atomic Other body s (ok t) e h b = h t (law.begin_origin s t e) b
  in_transaction_atomic Other body s (failed f) e h b = inl refl
  in_transaction_atomic Other body s crashed e h b = inl refl

  told_panicked :
      (st : Store S T) (id : String) (changes : List Change) (created : Bool) (t : T) (s : S)
      (o : Option (String → List Change → Bool → S → Reported S)) (r : Reported S)
      → st.on_write ≡ o
      → db.commit t ≡ (none, s)
      → elim o [ none ↦ returned s | some hook ↦ hook id changes created s ] ≡ r
      → is_ok (told lib db id r).0 ≡ false
      → PanickedReport db st (told lib db id r)
  told_panicked st id changes created t s o (returned s') e c h b = absurd (cc)
  told_panicked st id changes created t s none (panicked s') e c h b = absurd (returned_panicked h)
  told_panicked st id changes created t s (some hook) (panicked s') e c h b =
      in_on_write hook id changes created t s e c h refl

  reported_atomic :
      (st : Store S T) (id : String) (p : Progress) (before : Option Data) (s : S) (t : T)
      (r : Option Failure × S)
      → db.commit t ≡ r
      → ((f : Failure) → r.0 ≡ some f → r.1 ≡ s)
      → is_ok (reported lib db st id p before r).0 ≡ false
      → ((reported lib db st id p before r).1 ≡ s)
        ⊎ PanickedReport db st (reported lib db st id p before r)
  unfolding notify
  reported_atomic st id p before s t (some f, s') c h b = inl (h f refl)
  reported_atomic st id p before s t (none, s') c h b =
      inr (told_panicked st id (changes_of lib db p before) _ t s' st.on_write _ refl c refl b)

  finish_atomic :
      (st : Store S T) (s : S) (r : Ran Work) (t : T)
      → law.origin t ≡ s
      → is_ok (finish lib db st (r, t)).0 ≡ false
      → ((finish lib db st (r, t)).1 ≡ s) ⊎ PanickedReport db st (finish lib db st (r, t))
  unfolding finish
  finish_atomic st s (failed e) t k b = inl (law.rollback_origin t ∙ k)
  finish_atomic st s crashed t k b = inl (law.rollback_origin t ∙ k)
  finish_atomic st s (ok (nothing id)) t k b = absurd (cc)
  finish_atomic st s (ok (wrote id p before)) t k b =
      reported_atomic st id p before s t (db.commit t) refl (λ f e. law.commit_failed t f e ∙ k) b

  -- A save that returns an error leaves the committed state as it was, and so does a save that
  -- panics, unless it is `OnWrite` that panics, after a commit; if the cells' own saves and the
  -- `Create` hook work with statements of the transaction they are given.
  pub save-keeps :
      (st : Store S T) (id : Option String) (input : Data) (s : S)
      → StaysStore law st
      → is_ok (save lib db st id input s).0 ≡ false
      → ((save lib db st id input s).1 ≡ s) ⊎ PanickedReport db st (save lib db st id input s)
  unfolding save
  save-keeps st id input s k =
      in_transaction_atomic (PanickedReport db st) _ s (db.begin s) refl
        λ t e. finish_atomic st s _ _ ((Stays-work lib st id input k).at t ∙ e)

  committed_atomic :
      (s : S) (r : Option Failure × S)
      → ((f : Failure) → r.0 ≡ some f → r.1 ≡ s)
      → is_ok (committed lib db r).0 ≡ false
      → (committed lib db r).1 ≡ s
  committed_atomic s (some f, s') h b = h f refl
  committed_atomic s (none, s') h b = absurd (cc)

  finish_delete_atomic :
      (s : S) (o : Option Failure) (t : T)
      → law.origin t ≡ s
      → is_ok (finish_delete lib db (o, t)).0 ≡ false
      → (finish_delete lib db (o, t)).1 ≡ s
  unfolding finish_delete
  finish_delete_atomic s (some e) t k b = law.rollback_origin t ∙ k
  finish_delete_atomic s none t k b =
      committed_atomic s (db.commit t) (λ f e. law.commit_failed t f e ∙ k) b

  -- A delete that returns an error leaves the committed state as it was.
  pub delete-keeps :
      (st : Store S T) (id : String) (s : S)
      → is_ok (delete lib db st id s).0 ≡ false
      → (delete lib db st id s).1 ≡ s
  unfolding delete
  delete-keeps st id s b =
      elim (in_transaction_atomic (λ r. r.1 ≡ s) _ s (db.begin s) refl
        (λ t e p. inl (finish_delete_atomic s _ _ (law.exec_origin _ t ∙ e) p)) b) [
          | inl e ↦ e
          | inr e ↦ e
        ]
