-- ===== src/Engineering/Repeats.antt =====
-- How often a failure is on file under src/humanflow/engineering/supervisor.py.
use humanflow.Engineering.Supervisor.{with_failure, Progress}
use humanflow.Engineering.Breaker.{
  is_open, record_failure, failures_of, circuit_open, HarnessFailureState,
}
use humanflow.Shared.Dict.{lookup-insert, insert, Dict}
use text.Mathlib.TextEquality.{eq_iff}
use mathlib.Core.Path.{refl}
use Prim.Native.Nat.{ℕ}
use humanflow.Shared.{
  both, suc, ◌+◌, ◌≤◌, ◌<◌, String, ◌≡◌, sym, ap, ◌∙◌, inl, inr, Bool, true, false, List, [], ◌∷◌,
  ◌++◌, arith, leb, if◌then◌else◌, Bool-cases, ◌==◌, nat_instance, string_instance, int_instance,
  length, length-append,
}

-- How often a digest occurs.
unfoldable pub occurrences : String → List String → ℕ
occurrences k [] = 0
occurrences k (x ∷ xs) = let rest = occurrences k xs in if x == k then suc rest else rest

abbrev pub once_if : Bool → ℕ
once_if c = if c then 1 else 0

occurrences-snoc :
    (k : String) (xs : List String) (x : String)
    → occurrences k (xs ++ (x ∷ [])) ≡ occurrences k xs + once_if (x == k)
unfolding occurrences
occurrences-snoc k [] x = ground arith
occurrences-snoc k (y ∷ xs) x = ground (arith, occurrences-snoc k xs x)

failures_of-insert :
    (k s : String) (n : ℕ) (d : Dict ℕ)
    → failures_of k (insert s n d) ≡ (if s == k then n else failures_of k d)
unfolding failures_of
failures_of-insert k s n d = elim (Bool-cases (s == k)) [
  | inl same ↦ rw (lookup-insert s k n d, same, failures_of) refl
  | inr other ↦ rw (lookup-insert s k n d, other, failures_of) refl
]

-- The progress before an attempt: the counts are those of the failures on file, each failure is on file
-- at most twice, or three times once a retry was granted, and one retry is granted at most.
pub record IsBounded (n : ℕ) (p : Progress) : Type 0 where
  pub counted :
      (k : String) → failures_of k p.breaker.failure_counts ≡ occurrences k p.failure_fingerprints
  pub threshold : p.breaker.repeated_failure_threshold ≡ 3
  pub allowed : p.breaker.maximum_retries_after_circuit ≡ 1
  pub closed : is_open p.breaker.state ≡ false
  pub few :
      (k : String) → occurrences k p.failure_fingerprints ≤ 2 + p.breaker.retries_after_circuit
  pub once : p.breaker.retries_after_circuit ≤ 1
  pub numbered : length p.failure_fingerprints + 1 ≡ n

-- A failure that is put on file.
pub filed :
    (n : ℕ) (p : Progress) (sha256 : String)
    → IsBounded n p
    → (k : String)
    → occurrences k (with_failure sha256 p).failure_fingerprints
      ≤ 3 + p.breaker.retries_after_circuit
filed n p sha256 b k =
    omega
      (arith, occurrences-snoc k p.failure_fingerprints sha256, b.few k, at_most_once (sha256 == k))
  where
    at_most_once : (c : Bool) → once_if c ≤ 1
    at_most_once c = ground arith

snoc_same :
    (k : String) (xs : List String) (x : String)
    → (x == k) ≡ true
    → occurrences k (xs ++ (x ∷ [])) ≡ occurrences k xs + 1
snoc_same k xs x same = ground (arith, occurrences-snoc k xs x)

snoc_other :
    (k : String) (xs : List String) (x : String)
    → (x == k) ≡ false
    → occurrences k (xs ++ (x ∷ [])) ≡ occurrences k xs
snoc_other k xs x other = ground (arith, occurrences-snoc k xs x)

insert_same :
    (k s : String) (n : ℕ) (d : Dict ℕ) → (s == k) ≡ true → failures_of k (insert s n d) ≡ n
insert_same k s n d same = ground (arith, failures_of-insert k s n d)

insert_other :
    (k s : String) (n : ℕ) (d : Dict ℕ)
    → (s == k) ≡ false
    → failures_of k (insert s n d) ≡ failures_of k d
insert_other k s n d other = ground (arith, failures_of-insert k s n d)

pub filed_counts :
    (n : ℕ) (p : Progress) (sha256 : String)
    → IsBounded n p
    → (k : String)
    → failures_of k (with_failure sha256 p).breaker.failure_counts
      ≡ occurrences k (with_failure sha256 p).failure_fingerprints
unfolding record_failure
filed_counts n p sha256 b k =
    let d : Dict ℕ = p.breaker.failure_counts in
    let count : ℕ = failures_of sha256 d + 1 in
    elim (Bool-cases (sha256 == k)) [
      | inl same ↦
          let e : sha256 ≡ k = (eq_iff sha256 k).0 same in
          insert_same k sha256 count d same
          ∙ (ap (λ x. failures_of x d + 1) e
              ∙ (ap (λ x. x + 1) (b.counted k)
                  ∙ sym (snoc_same k p.failure_fingerprints sha256 same)))
      | inr other ↦
          insert_other k sha256 count d other
          ∙ (b.counted k ∙ sym (snoc_other k p.failure_fingerprints sha256 other))
    ]

shut_count :
    (limit count : ℕ) (s : HarnessFailureState)
    → is_open (if leb limit count then circuit_open else s) ≡ false
    → count < limit
shut_count limit count s h = elim (Bool-cases (leb limit count)) [
  | inl over ↦ both refl (rw over at h)
  | inr under ↦ ground arith
]

-- A failure that leaves the breaker shut is on file at most twice.
pub shut_few :
    (n : ℕ) (p : Progress) (sha256 : String)
    → IsBounded n p
    → is_open (with_failure sha256 p).breaker.state ≡ false
    → (k : String)
    → occurrences k (with_failure sha256 p).failure_fingerprints
      ≤ 2 + p.breaker.retries_after_circuit
unfolding record_failure
shut_few n p sha256 b shut k = elim (Bool-cases (sha256 == k)) [
  | inl same ↦
      let e : sha256 ≡ k = (eq_iff sha256 k).0 same in
      let low =
        shut_count p.breaker.repeated_failure_threshold
          (failures_of sha256 p.breaker.failure_counts + 1) p.breaker.state shut in
      omega (
        arith,
        snoc_same k p.failure_fingerprints sha256 same,
        b.counted k,
        b.threshold,
        ap (λ x. failures_of x p.breaker.failure_counts) e,
      )
  | inr other ↦ omega (arith, snoc_other k p.failure_fingerprints sha256 other, b.few k)
]

pub filed_numbered :
    (n : ℕ) (p : Progress) (sha256 : String)
    → IsBounded n p
    → length (with_failure sha256 p).failure_fingerprints + 1 ≡ n + 1
filed_numbered n p sha256 b =
    omega (arith, length-append p.failure_fingerprints (sha256 ∷ []), b.numbered)
