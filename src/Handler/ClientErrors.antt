-- ===== src/Handler/ClientErrors.antt =====
-- A create or an update that is answered 4xx has stored nothing.
use editrig_go.Base.{
  ℕ, ◌≡◌, ◌∙◌, sym, subst, refl, Bool, true, false, Option, none, some, String, if◌then◌else◌,
  is_some,
}
use editrig_go.Json.{Data}
use editrig_go.Validate.Structural.{SchemaEngine}
use editrig_go.Entity.{Entity, Hook, SaveResult}
use editrig_go.Registry.{get}
use editrig_go.Http.{
  World, Request, Response, Step, answer, Exec, reply_error, reply, pure, or_reply, continue, ◌>>=◌,
  go, panic,
}
use editrig_go.Http.Rules.{Keeps, Keeps-reply_error}
use editrig_go.Http.Answers.{IsClientError, Harmless, Harmless-of_keeps, Harmless-bind}
use editrig_go.Upload.Laws.Stores.{Keeps-decode_body}
use editrig_go.Handler.{Handler, entity_of}
use editrig_go.Handler.Write.{is_disabled, write_hook, write}
use editrig_go.Handler.Keeping.{Keeps-current_row}
use editrig_go.Handler.Harmless.{HooksRead, SavesAtomically, store_hooks, body_checked-Harmless}

answer_inj : {A : Type 0} {x y : Response} → ◌≡◌ {A = Step A} (answer x) (answer y) → x ≡ y
answer_inj e = cc

store_of_Harmless :
    {S A : Type 0} (s : S) (a : Step A) (w : World S) (resp : Response)
    → Harmless s (a, w)
    → a ≡ answer resp
    → IsClientError resp.status
    → w.store ≡ s
store_of_Harmless s (answer resp') w resp k e c =
    k (subst (λ (x : Response). IsClientError x.status) (sym (answer_inj e)) c)
store_of_Harmless s (go a) w resp k e c = cc
store_of_Harmless s panic w resp k e c = cc

module _ (engine : SchemaEngine) {S : Type 0} (h : Handler S) (r : Request) where
  reply-Harmless :
      (s : S) (status : ℕ) (text : String) (w : World S)
      → w.store ≡ s
      → Harmless s (reply_error {A = Unit {0}} status text w)
  reply-Harmless s status text w k =
      let kept : Keeps {S = S} (λ v. v.store) (reply_error {A = Unit {0}} status text) =
        Keeps-reply_error status text in
      Harmless-of_keeps s _ _ (kept.at w ∙ k)

  if-Harmless :
      (s : S) (b : Bool) (m n : Exec S (Unit {0})) (w : World S)
      → Harmless s (m w)
      → Harmless s (n w)
      → Harmless s ((if b then m else n) w)
  if-Harmless s true m n w p q = p
  if-Harmless s false m n w p q = q

  module _ (e : Entity S) (reads : HooksRead e) (atomic : SavesAtomically e) (s : S) where
    write_hook-Harmless :
        (id : Option String) (o : Option (Option String → Data → Hook S SaveResult)) (w : World S)
        → e.save ≡ o
        → w.store ≡ s
        → Harmless s (write_hook engine h r e id o w)
    write_hook-Harmless id none w p k = reply-Harmless s 405 "method not allowed" w k
    write_hook-Harmless id (some save) w p k =
        if-Harmless s (is_disabled e (is_some id)) _ _ w
          (reply-Harmless s 405 "method not allowed" w k)
          (Harmless-bind s _ _ w
            (Keeps-current_row e (store_hooks engine h.settings.unknown_fields e reads atomic s) id)
            k
            λ current v l. Harmless-bind s _ _ v (Keeps-decode_body r h.settings.body_limits) l (
              body_checked-Harmless engine h.settings.unknown_fields e reads atomic s save p
                (h.copy r e.name) id current))

  found-Harmless :
      (s : S) (id : Option String) (o : Option (Entity S)) (w : World S)
      → ((e : Entity S) → o ≡ some e → HooksRead e × SavesAtomically e)
      → w.store ≡ s
      → Harmless s ((or_reply 400 "unknown entity" o >>= λ e. write_hook engine h r e id e.save) w)
  unfolding continue reply_error reply pure ◌>>=◌
  found-Harmless s id none w c k = λ _. k
  found-Harmless s id (some e) w c k =
      write_hook-Harmless e (c e refl).0 (c e refl).1 s id e.save w refl k

  -- If the entity's `Schema`, `Load` and `Validate` hooks only read the store and its `Save` rolls
  -- back what it reports as failed, then a create or an update that is answered with a status from
  -- 400 to 499 leaves the store as it was.
  pub store-write :
      (name : String) (id : Option String) (w : World S) (resp : Response)
      → ((e : Entity S) → get h.reg name ≡ some e → HooksRead e × SavesAtomically e)
      → (write engine h r name id w).0 ≡ answer resp
      → IsClientError resp.status
      → (write engine h r name id w).1.store ≡ w.store
  unfolding write entity_of
  store-write name id w resp c a b =
      store_of_Harmless w.store _ _ resp (found-Harmless w.store id (get h.reg name) w c refl) a b
