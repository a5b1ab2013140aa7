-- ===== src/Http/Answers.antt =====
-- Rules for answers that blame the request, 4xx: steps that never give one, and results that have
-- left the store alone if they are one.
use editrig_go.Base.{ℕ, ◌≤◌, ◌<◌, ◌≡◌, ◌∙◌, Bool, true, false, arith, String, if◌then◌else◌}
use editrig_go.Entity.{Hook}
use editrig_go.Http.{
  Content, Step, go, answer, panic, World, Exec, continue, call, reply, reply_error, pure, crash,
  ◌>>=◌,
}
use editrig_go.Http.Rules.{Keeps}

-- A 4xx status.
abbrev pub IsClientError : ℕ → Type 0
IsClientError status = (400 ≤ status) × (status < 500)

module _ {S : Type 0} (s : S) where
  -- A result that is no 4xx answer, or that leaves the store as `s`.
  abbrev pub Harmless : {A : Type 0} → Step A × World S → Type 0
  Harmless (answer resp, w) = IsClientError resp.status → w.store ≡ s
  Harmless (_, w) = Unit

-- Steps that never answer 4xx.
abbrev pub NoClientError : {A : Type 0} → Step A → Type 0
NoClientError (answer resp) = ¬ IsClientError resp.status
NoClientError _ = Unit

pub record Serves {S A : Type 0} (m : Exec S A) : Type 0 where
  pub at : (w : World S) → NoClientError (m w).0

module _ {S : Type 0} where
  pub Serves-pure : {A : Type 0} (a : A) → Serves {S = S} (pure a)
  unfolding pure
  Serves-pure a = record { at = λ w. tt }

  pub Serves-call : {A : Type 0} (hook : Hook S A) → Serves (call hook)
  unfolding call
  Serves-call hook = record { at = λ w. tt }

  pub Serves-crash : {A : Type 0} → Serves {S = S} (crash {A = A})
  unfolding crash
  Serves-crash = record { at = λ w. tt }

  pub Serves-500 : {A : Type 0} (text : String) → Serves {S = S} (reply_error {A = A} 500 text)
  unfolding reply_error reply
  Serves-500 text = record { at = λ w c. absurd (omega arith) }

  pub Serves-reply :
      {A : Type 0} (status : ℕ) (content : Content)
      → ¬ IsClientError status
      → Serves {S = S} (reply {A = A} status content)
  unfolding reply
  Serves-reply status content h = record { at = λ w. h }

  pub Serves-if :
      {A : Type 0} (b : Bool) (m n : Exec S A) → Serves m → Serves n → Serves (if b then m else n)
  Serves-if true m n p q = p
  Serves-if false m n p q = q

  continue-Serves :
      {A B : Type 0} (r : Step A) (k : A → Exec S B) (w : World S)
      → NoClientError r
      → ((a : A) → Serves (k a))
      → NoClientError (continue r k w).0
  unfolding continue
  continue-Serves (go a) k w p h = (h a).at w
  continue-Serves (answer resp) k w p h = p
  continue-Serves panic k w p h = tt

  pub Serves-bind :
      {A B : Type 0} (m : Exec S A) (k : A → Exec S B)
      → Serves m
      → ((a : A) → Serves (k a))
      → Serves (m >>= k)
  unfolding ◌>>=◌
  Serves-bind m k p h = record { at = λ w. continue-Serves (m w).0 k (m w).1 (p.at w) h }

module _ {S : Type 0} (s : S) where
  pub Harmless-of_keeps : {A : Type 0} (r : Step A) (w : World S) → w.store ≡ s → Harmless s (r, w)
  Harmless-of_keeps (go a) w h = tt
  Harmless-of_keeps (answer resp) w h = λ _. h
  Harmless-of_keeps panic w h = tt

  pub Harmless-of_serves :
      {A : Type 0} (r : Step A) (w : World S) → NoClientError r → Harmless s (r, w)
  Harmless-of_serves (go a) w h = tt
  Harmless-of_serves (answer resp) w h = λ c. absurd (h c)
  Harmless-of_serves panic w h = tt

  pub continue-Harmless :
      {A B : Type 0} (r : Step A) (k : A → Exec S B) (w : World S)
      → w.store ≡ s
      → ((a : A) (v : World S) → v.store ≡ s → Harmless s (k a v))
      → Harmless s (continue r k w)
  unfolding continue
  continue-Harmless (go a) k w h f = f a w h
  continue-Harmless (answer resp) k w h f = λ _. h
  continue-Harmless panic k w h f = tt

  pub Harmless-bind :
      {A B : Type 0} (m : Exec S A) (k : A → Exec S B) (w : World S)
      → Keeps (λ v. v.store) m
      → w.store ≡ s
      → ((a : A) (v : World S) → v.store ≡ s → Harmless s (k a v))
      → Harmless s ((m >>= k) w)
  unfolding ◌>>=◌
  Harmless-bind m k w keeps h f = continue-Harmless (m w).0 k (m w).1 (keeps.at w ∙ h) f
