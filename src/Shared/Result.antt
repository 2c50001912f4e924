-- ===== src/Shared/Result.antt =====
-- A Python call that returns or raises. An exception carries its class and the constant part of its
-- message.
use Prim.Native.String.{String}
use mathlib.Core.List.{List, [], ◌∷◌}
use humanflow.Shared.Tests.{if◌then◌else◌}
use mathlib.Core.Path.{◌≡◌, refl}
use mathlib.Core.Logic.{◌⊎◌, inl, inr}
use mathlib.Core.Bool.{Bool, true, false}

pub data Error : Type 0 where
  value_error : String → Error
  invalid_transition : Error
  key_error : Error
  runtime_error : String → Error
  permission_error : String → Error
  timeout_error : String → Error
  tool_protocol_error : String → Error
  tool_provider_error : String → Error
  assertion_error : String → Error
  overflow_error : String → Error

-- How a call ends.
pub data Result {κ} (T : Type κ) : Type κ where
  err : Error → Result T
  ok : T → Result T

infixl 5 ◌>>=◌
abbrev pub ◌>>=◌ {ℓ κ} : {S : Type ℓ} {T : Type κ} → Result S → (S → Result T) → Result T
err x >>= next = err x
ok value >>= next = next value

-- The checks of a constructor (`__post_init__`), in order: the first that fails raises.
unfoldable pub checked {ℓ} : {A : Type ℓ} → List (Bool × Error) → A → Result A
checked [] v = ok v
checked ((bad, x) ∷ cs) v = let rest = checked cs v in if bad then err x else rest

pub checked_cases {ℓ} :
    {A : Type ℓ} (cs : List (Bool × Error)) (v : A)
    → (checked cs v ≡ ok v) ⊎ ((x : Error) × (checked cs v ≡ err x))
unfolding checked
checked_cases [] v = inl refl
checked_cases ((true, x) ∷ cs) v = inr (x, refl)
checked_cases ((false, x) ∷ cs) v = checked_cases cs v

-- A check passes exactly when none fails.
abbrev pub Passes : List (Bool × Error) → Type 0
Passes [] = Unit
Passes ((bad, x) ∷ cs) = (bad ≡ false) × Passes cs

pub checked_ok {ℓ} :
    {A : Type ℓ} (cs : List (Bool × Error)) (v : A) → Passes cs → checked cs v ≡ ok v
unfolding checked
checked_ok [] v h = refl
checked_ok ((bad, x) ∷ cs) v h = rw h.0 (checked_ok cs v h.1)

pub Passes-of_ok {ℓ} :
    {A : Type ℓ} (cs : List (Bool × Error)) (v w : A) → checked cs v ≡ ok w → Passes cs × (v ≡ w)
unfolding checked
Passes-of_ok [] v w h = (tt, cc)
Passes-of_ok ((true, x) ∷ cs) v w h = cc
Passes-of_ok ((false, x) ∷ cs) v w h = let (p, e) = Passes-of_ok cs v w h in ((refl, p), e)

pub Result-cases {ℓ} :
    {A : Type ℓ} (r : Result A) → ((a : A) × (r ≡ ok a)) ⊎ ((x : Error) × (r ≡ err x))
Result-cases (ok a) = inl (a, refl)
Result-cases (err x) = inr (x, refl)
