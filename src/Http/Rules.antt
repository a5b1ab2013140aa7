-- ===== src/Http/Rules.antt =====
-- Rules for the effects of a handler: what a step keeps, and that it does not panic.
use editrig_go.Base.{ℕ, ◌≡◌, refl, ◌∙◌, Bool, true, false, String, if◌then◌else◌}
use editrig_go.Entity.{Hook}
use editrig_go.Http.{
  Response, Content, Step, go, answer, panic, World, Exec, continue, ◌>>=◌, pure, reply,
  reply_error, crash, call, with_cleanup,
}

-- Whatever the step does, `f` of the world is as before.
module _ {S X : Type 0} (f : World S → X) where
  pub record Keeps {A : Type 0} (m : Exec S A) : Type 0 where
    pub at : (w : World S) → f (m w).1 ≡ f w

module _ {S X : Type 0} {f : World S → X} where
  pub Keeps-pure : {A : Type 0} (a : A) → Keeps f (pure a)
  unfolding pure
  Keeps-pure a = record { at = λ w. refl }

  pub Keeps-reply :
      {A : Type 0} (status : ℕ) (content : Content) → Keeps f (reply {A = A} status content)
  unfolding reply
  Keeps-reply status content = record { at = λ w. refl }

  pub Keeps-reply_error :
      {A : Type 0} (status : ℕ) (text : String) → Keeps f (reply_error {A = A} status text)
  unfolding reply_error reply
  Keeps-reply_error status text = record { at = λ w. refl }

  pub Keeps-crash : {A : Type 0} → Keeps f (crash {A = A})
  unfolding crash
  Keeps-crash = record { at = λ w. refl }

  pub Keeps-if :
      {A : Type 0} (b : Bool) (m n : Exec S A)
      → Keeps f m
      → Keeps f n
      → Keeps f (if b then m else n)
  Keeps-if true m n km kn = km
  Keeps-if false m n km kn = kn

  continue-Keeps :
      {A B : Type 0} (r : Step A) (k : A → Exec S B) (w : World S)
      → ((a : A) → Keeps f (k a))
      → f (continue r k w).1 ≡ f w
  unfolding continue
  continue-Keeps (go a) k w h = (h a).at w
  continue-Keeps (answer r) k w h = refl
  continue-Keeps panic k w h = refl

  pub Keeps-bind :
      {A B : Type 0} (m : Exec S A) (k : A → Exec S B)
      → Keeps f m
      → ((a : A) → Keeps f (k a))
      → Keeps f (m >>= k)
  unfolding ◌>>=◌
  Keeps-bind m k km kk = record { at = λ w. continue-Keeps (m w).0 k (m w).1 kk ∙ km.at w }

pub Keeps-open_forms-call : {S A : Type 0} (hook : Hook S A) → Keeps (λ w. w.open_forms) (call hook)
unfolding call
Keeps-open_forms-call hook = record { at = λ w. refl }

-- A hook that only reads.
abbrev pub IsReading : {S A : Type 0} → Hook S A → Type 0
IsReading {S} hook = (s : S) → (hook s).1 ≡ s

pub Keeps-store-call :
    {S A : Type 0} (hook : Hook S A) → IsReading hook → Keeps (λ w. w.store) (call hook)
unfolding call
Keeps-store-call hook h = record { at = λ w. h w.store }

-- A step that does not panic, and goes on only with a value of which `P` holds.
abbrev StepOk : {A : Type 0} → (A → Type 0) → Step A → Type 0
StepOk P (go a) = P a
StepOk P (answer r) = Unit
StepOk P panic = ⊥

pub record Ensures {S A : Type 0} (P : A → Type 0) (m : Exec S A) : Type 0 where
  pub at : (w : World S) → StepOk P (m w).0

module _ {S : Type 0} where
  pub Ensures-pure : {A : Type 0} (P : A → Type 0) (a : A) → P a → Ensures {S = S} P (pure a)
  unfolding pure
  Ensures-pure P a h = record { at = λ w. h }

  pub Ensures-reply :
      {A : Type 0} (P : A → Type 0) (status : ℕ) (content : Content)
      → Ensures {S = S} P (reply status content)
  unfolding reply
  Ensures-reply P status content = record { at = λ w. tt }

  pub Ensures-reply_error :
      {A : Type 0} (P : A → Type 0) (status : ℕ) (text : String)
      → Ensures {S = S} P (reply_error status text)
  unfolding reply_error reply
  Ensures-reply_error P status text = record { at = λ w. tt }

  pub Ensures-call :
      {A : Type 0} (P : A → Type 0) (hook : Hook S A) → ((a : A) → P a) → Ensures P (call hook)
  unfolding call
  Ensures-call P hook h = record { at = λ w. h (hook w.store).0 }

  pub Ensures-if :
      {A : Type 0} (P : A → Type 0) (b : Bool) (m n : Exec S A)
      → Ensures P m
      → Ensures P n
      → Ensures P (if b then m else n)
  Ensures-if P true m n km kn = km
  Ensures-if P false m n km kn = kn

  continue-Ensures :
      {A B : Type 0} (P : A → Type 0) (Q : B → Type 0) (r : Step A) (k : A → Exec S B) (w : World S)
      → StepOk P r
      → ((a : A) → P a → Ensures Q (k a))
      → StepOk Q (continue r k w).0
  unfolding continue
  continue-Ensures P Q (go a) k w p h = (h a p).at w
  continue-Ensures P Q (answer r) k w p h = tt
  continue-Ensures P Q panic k w p h = p

  pub Ensures-bind :
      {A B : Type 0} (P : A → Type 0) (Q : B → Type 0) (m : Exec S A) (k : A → Exec S B)
      → Ensures P m
      → ((a : A) → P a → Ensures Q (k a))
      → Ensures Q (m >>= k)
  unfolding ◌>>=◌
  Ensures-bind P Q m k km kk = record {
    at = λ w. continue-Ensures P Q (m w).0 k (m w).1 (km.at w) kk;
  }

  pub Ensures-with_cleanup :
      {A : Type 0} (P : A → Type 0) (held : Bool) (m : Exec S A)
      → Ensures P m
      → Ensures P (with_cleanup held m)
  unfolding with_cleanup
  Ensures-with_cleanup P held m h = record { at = λ w. h.at w }

-- The step has answered.
answered : {A : Type 0} (r : Step A) → StepOk (λ a. ⊥) r → (resp : Response) × (r ≡ answer resp)
answered (go a) h = absurd h
answered (answer r) h = (r, refl)
answered panic h = absurd h

-- A step that cannot go on and does not panic has answered.
pub Ensures-answer :
    {S A : Type 0} (m : Exec S A)
    → Ensures (λ a. ⊥) m
    → (w : World S) → (resp : Response) × ((m w).0 ≡ answer resp)
Ensures-answer m h w = answered (m w).0 (h.at w)
