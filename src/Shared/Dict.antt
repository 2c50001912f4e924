-- ===== src/Shared/Dict.antt =====
-- Python's `dict` with string keys: an association list in the order of insertion.
use mathlib.Core.Logic.{inl, inr}
use humanflow.Shared.Tests.{Bool-cases, ◌==◌, if◌then◌else◌, string_instance}
use Prim.Native.String.{String}
use mathlib.Core.Path.{◌≡◌, refl, subst}
use mathlib.Core.Option.{Option, none, some}
use mathlib.Core.List.{List, [], ◌∷◌, ◌++◌}
use native.Mathlib.Omega.{arith}
use text.Mathlib.TextEquality.{eq_iff}

abbrev pub Dict {ℓ} : Type ℓ → Type ℓ
Dict V = List (String × V)

module _ {ℓ} {V : Type ℓ} where
  -- `d.get(k)`
  unfoldable pub lookup : String → Dict V → Option V
  lookup k [] = none
  lookup k ((j, v) ∷ d) = if j == k then some v else lookup k d

  -- `d[k] = v`
  unfoldable pub insert : String → V → Dict V → Dict V
  insert k v [] = (k, v) ∷ []
  insert k v ((j, w) ∷ d) = if j == k then (j, v) ∷ d else (j, w) ∷ insert k v d

  -- `d.pop(k, None)`
  unfoldable pub erase : String → Dict V → Dict V
  erase k [] = []
  erase k ((j, v) ∷ d) = let rest = erase k d in if j == k then rest else (j, v) ∷ rest

  unfoldable pub keys : Dict V → List String
  keys [] = []
  keys ((j, v) ∷ d) = j ∷ keys d

  pub lookup-insert :
      (k j : String) (v : V) (d : Dict V)
      → lookup j (insert k v d) ≡ (if k == j then some v else lookup j d)
  unfolding lookup insert
  lookup-insert k j v [] = refl
  lookup-insert k j v ((i, w) ∷ d) =
      ground (arith, eq_iff k j, eq_iff i k, eq_iff i j, lookup-insert k j v d)

  pub lookup-insert_self : (k : String) (v : V) (d : Dict V) → lookup k (insert k v d) ≡ some v
  lookup-insert_self k v d = ground (arith, lookup-insert k k v d, eq_iff k k)

  pub lookup-erase :
      (k j : String) (d : Dict V) → lookup j (erase k d) ≡ (if k == j then none else lookup j d)
  unfolding lookup erase
  lookup-erase k j [] = ground arith
  lookup-erase k j ((i, w) ∷ d) =
      ground (arith, eq_iff k j, eq_iff i k, eq_iff i j, lookup-erase k j d)

  -- A write at a known key keeps the keys; at a new key it appends.
  pub keys-insert_old :
      (k : String) (v w : V) (d : Dict V) → lookup k d ≡ some w → keys (insert k v d) ≡ keys d
  unfolding lookup insert keys
  keys-insert_old k v w [] h = cc
  keys-insert_old k v w ((i, u) ∷ d) h = ground (arith, keys-insert_old k v w d)

  pub keys-insert_new :
      (k : String) (v : V) (d : Dict V)
      → lookup k d ≡ none
      → keys (insert k v d) ≡ keys d ++ (k ∷ [])
  unfolding lookup insert keys
  keys-insert_new k v [] h = refl
  keys-insert_new k v ((i, u) ∷ d) h = ground (arith, keys-insert_new k v d)

  -- Every value of the dictionary has a property.
  abbrev pub Holds {κ} : (V → Type κ) → Dict V → Type κ
  Holds P [] = Unit
  Holds P ((j, v) ∷ d) = P v × Holds P d

  pub Holds-insert {κ} :
      (P : V → Type κ) (k : String) (v : V) (d : Dict V) → P v → Holds P d → Holds P (insert k v d)
  unfolding insert
  Holds-insert P k v [] p h = (p, tt)
  Holds-insert P k v ((j, w) ∷ d) p h = elim (Bool-cases (j == k)) [
    | inl same ↦ rw same (p, h.1)
    | inr other ↦ rw other (h.0, Holds-insert P k v d p h.1)
  ]

  pub Holds-lookup {κ} :
      (P : V → Type κ) (k : String) (v : V) (d : Dict V) → Holds P d → lookup k d ≡ some v → P v
  unfolding lookup
  Holds-lookup P k v [] h e = cc
  Holds-lookup P k v ((j, w) ∷ d) h e = elim (Bool-cases (j == k)) [
    | inl same ↦ let q : w ≡ v = ground arith in subst P q h.0
    | inr other ↦ Holds-lookup P k v d h.1 (rw other at e)
  ]
