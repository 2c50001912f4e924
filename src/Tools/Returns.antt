-- ===== src/Tools/Returns.antt =====
-- Calls of src/humanflow/tools/executor.py that return, with what holds of the value and the state.
use humanflow.Shared.{◌≡◌, refl, Bool, true, false, nat_instance, string_instance, int_instance}
use humanflow.Shared.Result.{Result, ok, err}
use humanflow.Shared.Action.{Action, ◌>>=◌, do_when}

module _ {S : Type 0} where
  -- The call returned, and its value and state have the property.
  abbrev pub Returns : {A : Type 0} → (A → S → Type 0) → Result A × S → Type 0
  Returns P (ok a, s) = P a s
  Returns P (err x, s) = ⊥

  continued :
      {A B : Type 0} (P : A → S → Type 0) (Q : B → S → Type 0) (f : A → Action S B)
      (o : Result A × S)
      → Returns P o
      → ((a : A) (s : S) → P a s → Returns Q (f a s))
      → Returns Q (elim o.0 [ ok a ↦ f a o.1 | err e ↦ (err e, o.1) ])
  continued P Q f (ok a, s) h k = k a s h
  continued P Q f (err x, s) h k = absurd h

  -- A call that returns, then another one.
  pub bind-Returns :
      {A B : Type 0} (P : A → S → Type 0) (Q : B → S → Type 0) (m : Action S A) (f : A → Action S B)
      (s : S)
      → Returns P (m s)
      → ((a : A) (s' : S) → P a s' → Returns Q (f a s'))
      → Returns Q ((m >>= f) s)
  bind-Returns P Q m f s h k = continued P Q f (m s) h k

  pub Returns-map :
      {A : Type 0} (P Q : A → S → Type 0) (o : Result A × S)
      → ((a : A) (s : S) → P a s → Q a s)
      → Returns P o
      → Returns Q o
  Returns-map P Q (ok a, s) f h = f a s h
  Returns-map P Q (err x, s) f h = absurd h

  pub do_when-Returns :
      (P : Unit {0} → S → Type 0) (c : Bool) (act : Action S (Unit {0})) (s : S)
      → (c ≡ true → Returns P (act s))
      → (c ≡ false → P tt s)
      → Returns P (do_when c act s)
  do_when-Returns P true act s h k = h refl
  do_when-Returns P false act s h k = k refl

  -- A call that returns only values with the property, or raises.
  abbrev pub Permits : {A : Type 0} → (A → S → Type 0) → Result A × S → Type 0
  Permits P (ok a, s) = P a s
  Permits P (err x, s) = Unit {0}

  pub Permits-map :
      {A : Type 0} (P Q : A → S → Type 0) (o : Result A × S)
      → ((a : A) (s : S) → P a s → Q a s)
      → Permits P o
      → Permits Q o
  Permits-map P Q (ok a, s) f h = f a s h
  Permits-map P Q (err x, s) f h = tt

  permitted :
      {A B : Type 0} (P : A → S → Type 0) (Q : B → S → Type 0) (f : A → Action S B)
      (o : Result A × S)
      → Permits P o
      → ((a : A) (s : S) → P a s → Permits Q (f a s))
      → Permits Q (elim o.0 [ ok a ↦ f a o.1 | err e ↦ (err e, o.1) ])
  permitted P Q f (ok a, s) h k = k a s h
  permitted P Q f (err x, s) h k = tt

  pub bind-Permits :
      {A B : Type 0} (P : A → S → Type 0) (Q : B → S → Type 0) (m : Action S A) (f : A → Action S B)
      (s : S)
      → Permits P (m s)
      → ((a : A) (s' : S) → P a s' → Permits Q (f a s'))
      → Permits Q ((m >>= f) s)
  bind-Permits P Q m f s h k = permitted P Q f (m s) h k

  pub Permits-any : {A : Type 0} (o : Result A × S) → Permits (λ a s. Unit {0}) o
  Permits-any (ok a, s) = tt
  Permits-any (err x, s) = tt
