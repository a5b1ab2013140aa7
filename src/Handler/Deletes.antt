-- ===== src/Handler/Deletes.antt =====
-- What `Delete` answers, and when it changes the store.
use editrig_go.Base.{
  ◌≡◌, ◌⊎◌, inl, inr, refl, ap, subst, sym, Bool, true, false, Option, none, some, String, ℕ,
  if◌then◌else◌, is_some, Bool-cases, Option-cases,
}
use editrig_go.Errors.{Failure, as_conflict}
use editrig_go.Entity.{Entity, Hook, LoadResult}
use editrig_go.Registry.{get}
use editrig_go.Http.{
  Response, Request, Step, go, answer, panic, World, Exec, pure, reply, reply_error, call, crash,
  or_reply, continue, ◌>>=◌,
}
use editrig_go.Http.Rules.{IsReading}
use editrig_go.Handler.{
  Handler, entity_of, run_load, call_load, load_or_500, load_or_404, serve_delete, delete_hook,
  delete_reply,
}

-- The status once the hook has returned: gone, refused because of references, or failed.
abbrev pub delete_status : Option Failure → ℕ
delete_status none = 204
delete_status (some f) = if is_some (as_conflict f) then 409 else 500

-- The hook has run once on the row's id, and its result decides the status.
pub record HasRun {S : Type 0} (e : Entity S) (id : String) (s t : S) (status : ℕ) : Type 0 where
  pub hook : String → Hook S (Option Failure)
  pub is_hook : e.delete ≡ some hook
  pub enabled : e.disable_delete ≡ false
  pub store : t ≡ (hook id s).1
  pub result : status ≡ delete_status (hook id s).0

-- Nothing happened to the store, and the answer is a refusal.
abbrev pub HasRefused : {S : Type 0} → S → S → ℕ → Type 0
HasRefused s t status = (t ≡ s) × ((status ≡ 404) ⊎ (status ≡ 405) ⊎ (status ≡ 500))

module _ {S : Type 0} (h : Handler S) (r : Request) (e : Entity S) (id : String) (w : World S) where
  abbrev IsDeletion : Step (Unit {0}) × World S → Type 0
  IsDeletion (answer resp, v) =
      HasRun e id w.store v.store resp.status ⊎ HasRefused w.store v.store resp.status
  IsDeletion (_, v) = Unit

  reply-IsDeletion :
      (hook : String → Hook S (Option Failure)) (o : Option Failure) (v : World S)
      → e.delete ≡ some hook
      → e.disable_delete ≡ false
      → (hook id w.store).0 ≡ o
      → v.store ≡ (hook id w.store).1
      → IsDeletion (delete_reply h r e o v)
  unfolding reply reply_error
  reply-IsDeletion hook none v d f g k =
      inl (record { hook = hook; is_hook = d; enabled = f; store = k; result = rw g refl })
  reply-IsDeletion hook (some why) v d f g k = elim (Option-cases (as_conflict why)) [
    | inl other ↦ rw other (
        inl (record {
          hook = hook;
          is_hook = d;
          enabled = f;
          store = k;
          result = rw (g, other) refl;
        }))
    | inr (ce, refused) ↦ rw refused (
        inl (record {
          hook = hook;
          is_hook = d;
          enabled = f;
          store = k;
          result = rw (g, refused) refl;
        }))
  ]

  abbrev deletion :
      Option (String → Hook S LoadResult) → (String → Hook S (Option Failure)) → Exec S (Unit {0})
  deletion load hook = do
    _ ← (do
      row ← (do
        l ← call_load load id
        if is_some l.failure then reply_error 500 "load" else pure l.row)
      or_reply 404 "not found" row)
    f ← call (hook id)
    delete_reply h r e f

  load-IsDeletion :
      (load : Option (String → Hook S LoadResult)) (hook : String → Hook S (Option Failure))
      → ((l : String → Hook S LoadResult) → load ≡ some l → IsReading (l id))
      → e.delete ≡ some hook
      → e.disable_delete ≡ false
      → IsDeletion (deletion load hook w)
  unfolding ◌>>=◌ continue call crash reply reply_error pure
  load-IsDeletion none hook reads d f = tt
  load-IsDeletion (some l) hook reads d f =
      let k = reads l refl w.store in
      elim (Bool-cases (is_some (l id w.store).0.failure)) [
        | inl bad ↦ rw bad (inr (k, inr (inr refl)))
        | inr good ↦ elim (Option-cases (l id w.store).0.row) [
          | inl gone ↦ rw (good, gone) (inr (k, inl refl))
          | inr (row, there) ↦
              rw (good, there)
                (reply-IsDeletion hook _ _ d f (sym (ap (λ s. (hook id s).0) k))
                  (ap (λ s. (hook id s).1) k))
        ]
      ]

  enabled-IsDeletion :
      (disabled : Bool) (hook : String → Hook S (Option Failure))
      → e.disable_delete ≡ disabled
      → ((l : String → Hook S LoadResult) → e.load ≡ some l → IsReading (l id))
      → e.delete ≡ some hook
      → IsDeletion
          ((if disabled then reply_error 405 "method not allowed" else deletion e.load hook) w)
  unfolding reply reply_error
  enabled-IsDeletion true hook f reads d = inr (refl, inr (inl refl))
  enabled-IsDeletion false hook f reads d = load-IsDeletion e.load hook reads d f

  hook-IsDeletion :
      (o : Option (String → Hook S (Option Failure)))
      → e.delete ≡ o
      → ((l : String → Hook S LoadResult) → e.load ≡ some l → IsReading (l id))
      → IsDeletion (delete_hook h r e id o w)
  unfolding load_or_404 load_or_500 run_load reply reply_error
  hook-IsDeletion none d reads = inr (refl, inr (inl refl))
  hook-IsDeletion (some hook) d reads = enabled-IsDeletion e.disable_delete hook refl reads d

  answered :
      (x : Step (Unit {0}) × World S) (resp : Response)
      → IsDeletion x
      → x.0 ≡ answer resp
      → HasRun e id w.store x.1.store resp.status ⊎ HasRefused w.store x.1.store resp.status
  answered (answer resp', v) resp i a = subst (λ y. IsDeletion (y, v)) a i
  answered (go u, v) resp i a = cc
  answered (panic, v) resp i a = cc

  -- An answer of `Delete` for a registered entity whose `Load` hook only reads: either the hook has
  -- run, once and on the store that the request found, with the status that its result asks for,
  -- and deletion is not disabled, or the store is untouched and the answer is 404, 405 or 500.
  pub serve_delete-IsDeletion :
      (name : String) (resp : Response)
      → get h.reg name ≡ some e
      → ((l : String → Hook S LoadResult) → e.load ≡ some l → IsReading (l id))
      → (serve_delete h r name id w).0 ≡ answer resp
      → HasRun e id w.store (serve_delete h r name id w).1.store resp.status
        ⊎ HasRefused w.store (serve_delete h r name id w).1.store resp.status
  unfolding serve_delete entity_of ◌>>=◌ continue pure
  serve_delete-IsDeletion name resp g reads a =
      answered (serve_delete h r name id w) resp (rw g (hook-IsDeletion e.delete refl reads)) a
