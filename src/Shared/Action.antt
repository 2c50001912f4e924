-- ===== src/Shared/Action.antt =====
-- A method of a mutable object: it returns or raises, and what it wrote before a raise stays written.
use humanflow.Shared.Tests.{if◌then◌else◌}
use humanflow.Shared.Result.{Result, ok, err, Error}
use mathlib.Core.Bool.{Bool, true, false}
use mathlib.Core.Path.{◌≡◌, ap, refl}

abbrev pub Action {ℓ κ} : Type ℓ → Type κ → Type (ℓ ⊔ κ)
Action S A = S → Result A × S

module _ {S : Type 0} where
  abbrev pub pure : {A : Type 0} → A → Action S A
  pure a s = (ok a, s)

  abbrev pub raise : {A : Type 0} → Error → Action S A
  raise e s = (err e, s)

  abbrev pub gets : {A : Type 0} → (S → A) → Action S A
  gets f s = (ok (f s), s)

  abbrev pub modify : (S → S) → Action S (Unit {0})
  modify f s = (ok tt, f s)

  abbrev pub lift : {A : Type 0} → Result A → Action S A
  lift r s = (r, s)

  -- `if test: raise error`
  abbrev pub raise_when : Bool → Error → Action S (Unit {0})
  raise_when c e s = (if c then err e else ok tt, s)

  -- `if test: act`
  abbrev pub do_when : Bool → Action S (Unit {0}) → Action S (Unit {0})
  do_when c act s = if c then act s else (ok tt, s)

infixl 5 ◌>>=◌ ◌>>◌
abbrev pub ◌>>=◌ : {S A B : Type 0} → Action S A → (A → Action S B) → Action S B
◌>>=◌ m f s = let (r, s') = m s in elim r [ ok a ↦ f a s' | err e ↦ (err e, s') ]

abbrev pub ◌>>◌ : {S A B : Type 0} → Action S A → Action S B → Action S B
m >> k = m >>= λ _. k

-- A call whose first step is known.
module _ {S A B : Type 0} (m : Action S A) (f : A → Action S B) (s s' : S) where
  pub bind_ok : (a : A) → m s ≡ (ok a, s') → (m >>= f) s ≡ f a s'
  bind_ok a h = ap (λ o. elim o.0 [ ok b ↦ f b o.1 | err e ↦ (err e, o.1) ]) h

  pub bind_err : (x : Error) → m s ≡ (err x, s') → (m >>= f) s ≡ (err x, s')
  bind_err x h = ap (λ o. elim o.0 [ ok b ↦ f b o.1 | err e ↦ (err e, o.1) ]) h

-- Properties of a call whose first step is a guard or the result of another call, where a raise has
-- the property.
module _ {S A : Type 0} (P : Result A × S → Type 0) (s : S)
    (refused : (x : Error) → P (err x, s)) where
  pub guarded :
      (bad : Bool) (x : Error) (rest : Action S A)
      → (bad ≡ false → P (rest s))
      → P ((raise_when bad x >> rest) s)
  guarded true x rest h = refused x
  guarded false x rest h = h refl

  pub lifted :
      {B : Type 0} (answer : Result B) (rest : B → Action S A)
      → ((b : B) → answer ≡ ok b → P (rest b s))
      → P ((lift answer >>= rest) s)
  lifted (ok b) rest h = h b refl
  lifted (err x) rest h = refused x
