-- ===== src/Jet/Sql/Rules.antt =====
-- What a function that works in a transaction leaves alone: the state that the transaction
-- started from.
use editrig_go.Base.{◌≡◌, refl, ◌∙◌, Bool, true, false, List, [], ◌∷◌, if◌then◌else◌}
use editrig_go.Errors.{Failure}
use editrig_go.Jet.Sql.{
  Database, IsTransactional, Reader, Tx, Ran, ok, failed, crashed, Statement, continue, ◌>>=◌, pure,
  fail, crash, exec, reading, each,
}

module _ {S T : Type 0} {db : Database S T} (law : IsTransactional db) where
  pub record Stays {A : Type 0} (m : Tx T A) : Type 0 where
    pub at : (t : T) → law.origin (m t).1 ≡ law.origin t

module _ {S T : Type 0} {db : Database S T} {law : IsTransactional db} where
  pub Stays-pure : {A : Type 0} (a : A) → Stays law (pure a)
  unfolding pure
  Stays-pure a = record { at = λ t. refl }

  pub Stays-fail : {A : Type 0} (e : Failure) → Stays law (fail {A = A} e)
  unfolding fail
  Stays-fail e = record { at = λ t. refl }

  pub Stays-crash : {A : Type 0} → Stays law (crash {A = A})
  unfolding crash
  Stays-crash = record { at = λ t. refl }

  pub Stays-exec : (q : Statement) → Stays law (exec db q)
  unfolding exec
  Stays-exec q = record { at = λ t. law.exec_origin q t }

  pub Stays-reading : {A : Type 0} (m : Reader S A) → Stays law (reading db m)
  unfolding reading
  Stays-reading m = record { at = λ t. refl }

  pub Stays-if :
      {A : Type 0} (b : Bool) (m n : Tx T A)
      → Stays law m
      → Stays law n
      → Stays law (if b then m else n)
  Stays-if true m n km kn = km
  Stays-if false m n km kn = kn

  continue-Stays :
      {A B : Type 0} (r : Ran A) (k : A → Tx T B) (t : T)
      → ((a : A) → Stays law (k a))
      → law.origin (continue r k t).1 ≡ law.origin t
  unfolding continue
  continue-Stays (ok a) k t h = (h a).at t
  continue-Stays (failed e) k t h = refl
  continue-Stays crashed k t h = refl

  pub Stays-bind :
      {A B : Type 0} (m : Tx T A) (k : A → Tx T B)
      → Stays law m
      → ((a : A) → Stays law (k a))
      → Stays law (m >>= k)
  unfolding ◌>>=◌
  Stays-bind m k km kk = record { at = λ t. continue-Stays (m t).0 k (m t).1 kk ∙ km.at t }

  pub Stays-each :
      {A : Type 0} (body : A → Tx T (Unit {0})) (xs : List A)
      → ((x : A) → Stays law (body x))
      → Stays law (each body xs)
  unfolding each
  Stays-each body [] h = Stays-pure tt
  Stays-each body (x ∷ xs) h = Stays-bind (body x) _ (h x) (λ _. Stays-each body xs h)
