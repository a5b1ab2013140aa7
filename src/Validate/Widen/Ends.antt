-- ===== src/Validate/Widen/Ends.antt =====
-- Which results of a widening are not the end of its fuel, through the steps it is made of.
use editrig_go.Base.{
  ◌≡◌, refl, ap, sym, ◌∙◌, Bool, true, false, Option, none, some, some_inj, List, [], ◌∷◌, String,
  All,
}
use editrig_go.Map.{lookup, insert}
use editrig_go.Map.Laws.{lookup-insert}
use editrig_go.Json.{
  Value, null, bool, num, str, arr, obj, upload, typed, opaque, Items, items, Data, as_string,
  as_array,
}
use editrig_go.Validate.Widen.{
  Checked, ok, failed, exhausted, ◌>>=◌, refuse_if, or_failed, map_checked, widen_items,
  any_of_markers,
}

pub ends {ℓ} : {A : Type ℓ} → Checked A → Bool
ends (ok a) = true
ends failed = true
ends exhausted = false

pub ends-ok {ℓ} : {A : Type ℓ} (a : A) → ends (ok a) ≡ true
unfolding ends
ends-ok a = refl

pub ends-failed {ℓ} : (A : Type ℓ) → ends {A = A} failed ≡ true
unfolding ends
ends-failed A = refl

module _ {ℓ κ} {A : Type ℓ} {B : Type κ} where
  pub ends-bind :
      (m : Checked A) (f : A → Checked B)
      → ends m ≡ true
      → ((a : A) → m ≡ ok a → ends (f a) ≡ true)
      → ends (m >>= f) ≡ true
  unfolding ends
  ends-bind (ok a) f e h = h a refl
  ends-bind failed f e h = refl
  ends-bind exhausted f e h = e

  pub ends-elim :
      (o : Option A) (n : Checked B) (s : A → Checked B)
      → (o ≡ none → ends n ≡ true)
      → ((a : A) → o ≡ some a → ends (s a) ≡ true)
      → ends (elim o [ none ↦ n | some a ↦ s a ]) ≡ true
  ends-elim none n s hn hs = hn refl
  ends-elim (some a) n s hn hs = hs a refl

pub ends-map_checked {ℓ κ} :
    {A : Type ℓ} {B : Type κ} (f : A → Checked B) (xs : List A)
    → All (λ x. ends (f x) ≡ true) xs
    → ends (map_checked f xs) ≡ true
unfolding map_checked
ends-map_checked f [] a = ends-ok []
ends-map_checked f (x ∷ xs) (e, es) =
    ends-bind (f x) _ e
      (λ y p. ends-bind (map_checked f xs) _ (ends-map_checked f xs es) (λ ys q. ends-ok (y ∷ ys)))

pub ends-refuse_if : (b : Bool) → ends (refuse_if b) ≡ true
ends-refuse_if true = ends-failed _
ends-refuse_if false = ends-ok tt

pub ends-or_failed {ℓ} : {A : Type ℓ} → (o : Option A) → ends (or_failed o) ≡ true
ends-or_failed none = ends-failed _
ends-or_failed (some a) = ends-ok a

abbrev pub result {ℓ} : {A : Type ℓ} → Checked A → Option A
result (ok a) = some a
result _ = none

pub or_failed-ok {ℓ} : {A : Type ℓ} (o : Option A) (a : A) → or_failed o ≡ ok a → o ≡ some a
or_failed-ok none a e = absurd (cc)
or_failed-ok (some b) a e = ap result e

pub refuse_if-ok : (b : Bool) (u : Unit {0}) → refuse_if b ≡ ok u → b ≡ false
refuse_if-ok true u e = absurd (cc)
refuse_if-ok false u e = refl

pub as_string-str : (o : Option Value) (s : String) → as_string o ≡ some s → o ≡ some (str s)
as_string-str none s e = absurd (cc)
as_string-str (some (str t)) s e = ap (λ x. some (str x)) (some_inj e)
as_string-str (some null) s e = absurd (cc)
as_string-str (some (bool b)) s e = absurd (cc)
as_string-str (some (num n)) s e = absurd (cc)
as_string-str (some (arr a)) s e = absurd (cc)
as_string-str (some (obj a)) s e = absurd (cc)
as_string-str (some (upload u)) s e = absurd (cc)
as_string-str (some (typed o)) s e = absurd (cc)
as_string-str (some opaque) s e = absurd (cc)

pub as_array-arr :
    (o : Option Value) (vs : List Value)
    → as_array o ≡ some vs
    → (xs : Items) × (o ≡ some (arr xs)) × (items xs ≡ vs)
as_array-arr none s e = absurd (cc)
as_array-arr (some (arr a)) s e = (a, refl, some_inj e)
as_array-arr (some (str t)) s e = absurd (cc)
as_array-arr (some null) s e = absurd (cc)
as_array-arr (some (bool b)) s e = absurd (cc)
as_array-arr (some (num n)) s e = absurd (cc)
as_array-arr (some (obj a)) s e = absurd (cc)
as_array-arr (some (upload u)) s e = absurd (cc)
as_array-arr (some (typed o)) s e = absurd (cc)
as_array-arr (some opaque) s e = absurd (cc)

pub ends-widen_items : (markers : List Value) (out : Data) → ends (widen_items markers out) ≡ true
unfolding widen_items
ends-widen_items markers out =
    ends-elim (lookup "items" out) _ _ (λ e. ends-ok _)
      (λ item e. ends-elim (as_array (some item)) _ _ (λ e. ends-ok _) (λ t e. ends-failed _))

module _ (markers : List Value) (out widened : Data) where
  branches_stay_if :
      (q : Option (List Value)) (item : Value)
      → elim q [
        | none ↦ ok (insert "items" (any_of_markers markers item) out)
        | some tuple ↦ failed
      ]
        ≡ ok widened
      → lookup "allOf" widened ≡ lookup "allOf" out
  branches_stay_if (some t) item e = absurd (cc)
  branches_stay_if none item e =
      ap (lookup "allOf") (sym (some_inj (ap result e)))
      ∙ lookup-insert "items" "allOf" (any_of_markers markers item) out

  branches_stay :
      (o : Option Value)
      → elim o [
        | none ↦ ok out
        | some item ↦ elim (as_array (some item)) [
          | none ↦ ok (insert "items" (any_of_markers markers item) out)
          | some tuple ↦ failed
        ]
      ]
        ≡ ok widened
      → lookup "allOf" widened ≡ lookup "allOf" out
  branches_stay none e = ap (lookup "allOf") (sym (some_inj (ap result e)))
  branches_stay (some item) e = branches_stay_if (as_array (some item)) item e

  pub lookup-widen_items :
      widen_items markers out ≡ ok widened → lookup "allOf" widened ≡ lookup "allOf" out
  unfolding widen_items
  lookup-widen_items e = branches_stay (lookup "items" out) e

pub ends-exhausted {ℓ} : (A : Type ℓ) → ends {A = A} exhausted ≡ false
unfolding ends
ends-exhausted A = refl
