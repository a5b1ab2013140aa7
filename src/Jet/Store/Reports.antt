-- ===== src/Jet/Store/Reports.antt =====
-- What a write reports, and a write to a row that is not there.
use editrig_go.Base.{
  ◌≡◌, refl, ap, sym, ◌∙◌, Bool, true, false, not, ◌||◌, Option, none, some, List, [], ◌∷◌, ◌++◌,
  String, ◌==◌, eq_iff, eq_refl, mem_text, All, if◌then◌else◌, arith, ◌&&◌,
}
use editrig_go.Map.{lookup, insert, has}
use editrig_go.Map.Laws.{lookup-insert, or_else}
use editrig_go.Json.{Value, Data}
use editrig_go.Jet.Values.{Library}
use editrig_go.Jet.Store.{Change, diff, merge_hook_changes, value_at}

-- The fields of a list of changes.
abbrev pub changed_fields : List Change → List String
changed_fields [] = []
changed_fields (c ∷ cs) = c.field ∷ changed_fields cs

or_equal : (m ka mk d : Bool) → m ≡ (mk && d) → (ka ≡ true → d ≡ false) → m ≡ ((ka || mk) && d)
or_equal m true true d h k = let e = k refl in cc
or_equal m true false d h k = let e = k refl in ground (arith)
or_equal m false mk d h k = h

or_differs :
    (m ka mk d : Bool) → m ≡ (mk && d) → (ka ≡ true → d ≡ true) → (ka || m) ≡ ((ka || mk) && d)
or_differs m true mk d h k = sym (k refl)
or_differs m false mk d h k = h

module _ (lib : Library) (before after : Data) where
  abbrev pub IsChange : List String → Change → Type 0
  IsChange ks c =
      (mem_text c.field ks ≡ true)
      × (c.old ≡ value_at c.field before)
      × (c.new ≡ value_at c.field after)
      × ((lib.sprint c.old == lib.sprint c.new) ≡ false)

  weaken :
      (k : String) (ks : List String) (cs : List Change)
      → All (IsChange ks) cs
      → All (IsChange (k ∷ ks)) cs
  weaken k ks [] a = tt
  weaken k ks (c ∷ cs) ((m, o, n, d), a) = ((ground (arith), o, n, d), weaken k ks cs a)

  diff_one :
      (b : Bool) (k : String) (ks : List String)
      → (lib.sprint (value_at k before) == lib.sprint (value_at k after)) ≡ b
      → All (IsChange ks) (diff lib ks before after)
      → All (IsChange (k ∷ ks)) (
          if b
          then diff lib ks before after
          else record { field = k; old = value_at k before; new = value_at k after }
            ∷ diff lib ks before after)
  diff_one true k ks e a = weaken k ks _ a
  diff_one false k ks e a = ((ground (arith, eq_refl k), refl, refl, e), weaken k ks _ a)

  diff-IsChange : (ks : List String) → All (IsChange ks) (diff lib ks before after)
  unfolding diff
  diff-IsChange [] = tt
  diff-IsChange (k ∷ ks) = diff_one _ k ks refl (diff-IsChange ks)

  -- The value under the key is printed differently before and after.
  abbrev pub differs : String → Bool
  differs k = not (lib.sprint (value_at k before) == lib.sprint (value_at k after))

  changed_at :
      (b : Bool) (k asked : String) (ks : List String)
      → (lib.sprint (value_at k before) == lib.sprint (value_at k after)) ≡ b
      → mem_text asked (changed_fields (diff lib ks before after))
        ≡ (mem_text asked ks && differs asked)
      → mem_text asked (
          changed_fields (
            if b
            then diff lib ks before after
            else record { field = k; old = value_at k before; new = value_at k after }
              ∷ diff lib ks before after))
        ≡ (mem_text asked (k ∷ ks) && differs asked)
  changed_at true k asked ks e h =
      or_equal _ (k == asked) _ _ h λ p. ap differs (sym ((eq_iff k asked).0 p)) ∙ ap not e
  changed_at false k asked ks e h =
      or_differs _ (k == asked) _ _ h λ p. ap differs (sym ((eq_iff k asked).0 p)) ∙ ap not e

  fields-diff :
      (ks : List String) (asked : String)
      → mem_text asked (changed_fields (diff lib ks before after))
        ≡ (mem_text asked ks && differs asked)
  unfolding diff
  fields-diff [] asked = refl
  fields-diff (k ∷ ks) asked = changed_at _ k asked ks refl (fields-diff ks asked)

  -- The diff of an update has exactly the written keys whose value is printed differently before
  -- and after, each with its old and its new value.
  pub diff_exact :
      (ks : List String)
      → All (IsChange ks) (diff lib ks before after)
        × ((k : String)
            → mem_text k (changed_fields (diff lib ks before after)) ≡ (mem_text k ks && differs k))
  diff_exact ks = (diff-IsChange ks, fields-diff ks)

-- What the hook reports under a key, if the key is among its changes.
abbrev pub first_new : String → List Change → Option Value
first_new k [] = none
first_new k (c ∷ cs) = if c.field == k then some c.new else first_new k cs

merge_one :
    (c : Change) (hook : List Change) (changed : List String) (values : Data) (k : String)
    (b : Bool)
    → has c.field values ≡ b
    → ((new : List String) (m : Data)
        → lookup k (merge_hook_changes hook new m).1 ≡ or_else (lookup k m) (first_new k hook))
    → lookup k
        (if b
          then merge_hook_changes hook changed values
          else merge_hook_changes hook (changed ++ (c.field ∷ [])) (insert c.field c.new values)).1
      ≡ or_else (lookup k values) (first_new k (c ∷ hook))
merge_one c hook changed values k true e h = h changed values ∙ ground (arith, eq_iff c.field k)
merge_one c hook changed values k false e h =
    h (changed ++ (c.field ∷ [])) (insert c.field c.new values)
    ∙ ground (arith, eq_iff c.field k, lookup-insert c.field k c.new values)

-- The folded diff of a create: a field that the assignments report keeps their value, and another
-- one has the first value of the hook.
lookup-merge_hook_changes :
    (hook : List Change) (changed : List String) (values : Data) (k : String)
    → lookup k (merge_hook_changes hook changed values).1
      ≡ or_else (lookup k values) (first_new k hook)
unfolding merge_hook_changes
lookup-merge_hook_changes [] changed values k = ground arith
lookup-merge_hook_changes (c ∷ hook) changed values k =
    merge_one c hook changed values k _ refl (λ new m. lookup-merge_hook_changes hook new m k)
