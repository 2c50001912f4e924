-- ===== src/Shared/Lists.antt =====
-- List functions over the native numbers.
use Prim.Native.Nat.{ℕ, suc, ◌+◌}
use mathlib.Core.Path.{◌≡◌, refl, ap}
use mathlib.Core.Bool.{Bool, true, false}
use mathlib.Core.List.{List, [], ◌∷◌, ◌++◌}
use native.Mathlib.Omega.{arith}
use mathlib.Core.Logic.{inl, inr}
use humanflow.Shared.Tests.{Bool-cases, if◌then◌else◌}

-- Each member has the property.
abbrev pub All {κ μ} : {T : Type κ} → (T → Type μ) → List T → Type μ
All Good [] = Unit
All Good (t ∷ ts) = Good t × All Good ts

pub All-map {ℓ κ} :
    {A : Type ℓ} {P Q : A → Type κ} (f : (a : A) → P a → Q a) (xs : List A) → All P xs → All Q xs
All-map f [] h = tt
All-map f (x ∷ xs) h = (f x h.0, All-map f xs h.1)

module _ {ℓ} {A : Type ℓ} where
  abbrev pub length : List A → ℕ
  length [] = 0
  length (x ∷ xs) = suc (length xs)

  pub length-append : (xs ys : List A) → length (xs ++ ys) ≡ length xs + length ys
  length-append [] ys = omega arith
  length-append (x ∷ xs) ys = omega (arith, length-append xs ys)

  pub append_nil : (xs : List A) → xs ++ [] ≡ xs
  append_nil [] = refl
  append_nil (x ∷ xs) = ap (λ ys. x ∷ ys) (append_nil xs)

  -- The middle element may stand at the end of the first list.
  pub append_step : (xs : List A) (y : A) (ys : List A) → (xs ++ (y ∷ [])) ++ ys ≡ xs ++ (y ∷ ys)
  append_step [] y ys = refl
  append_step (x ∷ xs) y ys = ap (λ zs. x ∷ zs) (append_step xs y ys)

  -- `any(test(x) for x in xs)`
  abbrev pub any : (A → Bool) → List A → Bool
  any test [] = false
  any test (x ∷ xs) = let rest = any test xs in if test x then true else rest

  -- `[x for x in xs if keep(x)]`
  abbrev pub select : (A → Bool) → List A → List A
  select keep [] = []
  select keep (x ∷ xs) = let rest = select keep xs in if keep x then x ∷ rest else rest

pub All-select {ℓ κ μ} :
    {A : Type ℓ} (P : A → Type κ) (Q : A → Type μ) (keep : A → Bool) (xs : List A)
    → ((a : A) → keep a ≡ true → P a → Q a)
    → All P xs
    → All Q (select keep xs)
All-select P Q keep [] f h = tt
All-select P Q keep (x ∷ xs) f h = elim (Bool-cases (keep x)) [
  | inl kept ↦ rw kept (f x kept h.0, All-select P Q keep xs f h.1)
  | inr dropped ↦ rw dropped (All-select P Q keep xs f h.1)
]

pub All-snoc {ℓ κ} :
    {A : Type ℓ} (P : A → Type κ) (xs : List A) (y : A) → All P xs → P y → All P (xs ++ (y ∷ []))
All-snoc P [] y h p = (p, tt)
All-snoc P (x ∷ xs) y h p = (h.0, All-snoc P xs y h.1 p)
