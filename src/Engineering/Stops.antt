-- ===== src/Engineering/Stops.antt =====
-- How an attempt of src/humanflow/engineering/supervisor.py ends, and whether another one follows.
use humanflow.Engineering.Repeats.{
  filed_numbered, shut_few, filed_counts, filed, IsBounded, occurrences,
}
use humanflow.Shared.Result.{Result}
use humanflow.Engineering.Registry.{Registry}
use humanflow.Engineering.Supervisor.{
  released_as, final_state, candidate_of, is_final, is_pass, next_attempt, with_failure,
  after_failure, ended, SupervisorTaskOutcome, Progress, HarnessRun,
}
use humanflow.Engineering.Breaker.{
  failure_value, record_failure, is_open, authorize_retry, FailureCircuitBreaker,
  HarnessFailureState,
}
use humanflow.Tools.Returns.{Permits}
use humanflow.Shared.Action.{Action, pure}
use mathlib.Core.Path.{refl, subst}
use Prim.Native.Nat.{ℕ}
use humanflow.Shared.{
  zero, suc, ◌+◌, ◌≤◌, ◌<◌, String, ◌≡◌, sym, ◌∙◌, inl, inr, Bool, true, false, Option, none, some,
  arith, leb, if◌then◌else◌, Bool-cases, nat_instance, string_instance, int_instance,
}

-- What a run of a task returns: within the limit of attempts, no failure was met more than four times,
-- and a release candidate is the commit of the last run, which passed.
pub record IsLimited (maximum : ℕ) (runs : ℕ → HarnessRun) (o : SupervisorTaskOutcome)
    : Type 0 where
  pub limited : o.attempts ≤ maximum
  pub repeated : (k : String) → occurrences k o.failure_fingerprints ≤ 4
  pub released :
      (commit : String)
      → o.release_candidate ≡ some commit
      → (is_pass (runs o.attempts).outcome ≡ true)
        × (candidate_of (runs o.attempts).outcome ≡ some commit)
        × (o.final_status ≡ "VERIFIED_PASS")

authorize_spent :
    (c : FailureCircuitBreaker)
    → is_open c.state ≡ true
    → leb c.maximum_retries_after_circuit c.retries_after_circuit ≡ true
    → authorize_retry c ≡ (false, record c { state = HarnessFailureState.blocked })
unfolding authorize_retry
authorize_spent c h spent = rw (h, spent) refl

authorize_free :
    (c : FailureCircuitBreaker)
    → is_open c.state ≡ true
    → leb c.maximum_retries_after_circuit c.retries_after_circuit ≡ false
    → authorize_retry c ≡ (
      true,
      record c {
        retries_after_circuit = c.retries_after_circuit + 1;
        state = HarnessFailureState.repeated_failure;
      },
    )
unfolding authorize_retry
authorize_free c h free = rw (h, free) refl

module _ (maximum : ℕ) (runs : ℕ → HarnessRun) where
  abbrev pub Settled : Result SupervisorTaskOutcome × Registry → Type 0
  Settled o = Permits (λ r s. IsLimited maximum runs r) o

  pub ended-IsLimited :
      (n : ℕ) (status : String) (p : Progress)
      → n ≤ maximum
      → ((k : String) → occurrences k p.failure_fingerprints ≤ 4)
      → IsLimited maximum runs (ended n status p)
  ended-IsLimited n status p le few = record {
    limited = le;
    repeated = few;
    released = λ commit h. cc;
  }

  pub released_as-Settled :
      (n : ℕ) (candidate : Option String) (p : Progress) (s : Registry)
      → n ≤ maximum
      → IsBounded n p
      → is_pass (runs n).outcome ≡ true
      → candidate_of (runs n).outcome ≡ candidate
      → Settled (released_as n candidate p s)
  released_as-Settled n none p s le b pass same = tt
  released_as-Settled n (some commit) p s le b pass same = record {
    limited = le;
    repeated = λ k. omega (arith, b.few k, b.once);
    released = λ c h. (pass, same ∙ h, refl);
  }

  -- What the next attempts must give.
  abbrev pub Continues : ℕ → ℕ → (Progress → Action Registry SupervisorTaskOutcome) → Type 0
  Continues left n retry =
      (rest : ℕ) (p : Progress) (s : Registry)
      → left ≡ suc rest
      → IsBounded (n + 1) p
      → Settled (retry p s)

  next_attempt-Settled :
      (left n : ℕ) (retry : Progress → Action Registry SupervisorTaskOutcome) (p : Progress)
      (s : Registry)
      → n ≤ maximum
      → Continues left n retry
      → IsBounded (n + 1) p
      → Settled (next_attempt left n retry p s)
  next_attempt-Settled zero n retry p s le again b =
      ended-IsLimited n (failure_value p.breaker.state) p le (λ k. omega (arith, b.few k, b.once))
  next_attempt-Settled (suc left) n retry p s le again b = again left p s refl b

  pub if_Settled :
      (c : Bool) (x y : Action Registry SupervisorTaskOutcome) (s : Registry)
      → (c ≡ true → Settled (x s))
      → (c ≡ false → Settled (y s))
      → Settled ((if c then x else y) s)
  if_Settled true x y s f g = f refl
  if_Settled false x y s f g = g refl

  module _ (left n : ℕ) (status sha256 : String)
      (retry : Progress → Action Registry SupervisorTaskOutcome) (p : Progress) (s : Registry)
      (le : n ≤ maximum) (again : Continues left n retry) (b : IsBounded n p) where
    abbrev pub later : Progress
    later = with_failure sha256 p

    four : (k : String) → occurrences k later.failure_fingerprints ≤ 4
    four k = omega (arith, filed n p sha256 b k, b.once)

    -- The breaker is open: one retry, or the end.
    abbrev answered : Bool × FailureCircuitBreaker → Action Registry SupervisorTaskOutcome
    answered o =
        let (granted, c) = o in
        if granted
        then next_attempt left n retry (record later { breaker = c })
        else pure (ended n (failure_value c.state) (record later { breaker = c }))

    shut-IsBounded : is_open later.breaker.state ≡ false → IsBounded (n + 1) later
    unfolding record_failure
    shut-IsBounded shut = record {
      counted = filed_counts n p sha256 b;
      threshold = b.threshold;
      allowed = b.allowed;
      closed = shut;
      few = shut_few n p sha256 b shut;
      once = b.once;
      numbered = filed_numbered n p sha256 b;
    }

    abbrev retried : Progress
    retried = record later {
      breaker = record later.breaker {
        retries_after_circuit = later.breaker.retries_after_circuit + 1;
        state = HarnessFailureState.repeated_failure;
      };
    }

    retried-IsBounded : p.breaker.retries_after_circuit < 1 → IsBounded (n + 1) retried
    unfolding record_failure
    retried-IsBounded free = record {
      counted = filed_counts n p sha256 b;
      threshold = b.threshold;
      allowed = b.allowed;
      closed = refl;
      few = λ k. omega (arith, filed n p sha256 b k);
      once = omega arith;
      numbered = filed_numbered n p sha256 b;
    }

    same_retries : later.breaker.retries_after_circuit ≡ p.breaker.retries_after_circuit
    unfolding record_failure
    same_retries = refl

    same_limit : later.breaker.maximum_retries_after_circuit ≡ 1
    unfolding record_failure
    same_limit = b.allowed

    answered-Settled :
        is_open later.breaker.state ≡ true → Settled (answered (authorize_retry later.breaker) s)
    answered-Settled open_now =
        let c : FailureCircuitBreaker = later.breaker in
        elim (Bool-cases (leb c.maximum_retries_after_circuit c.retries_after_circuit)) [
          | inl spent ↦
              subst (λ o. Settled (answered o s)) (sym (authorize_spent c open_now spent))
                (ended-IsLimited n (failure_value HarnessFailureState.blocked)
                  (record later { breaker = record c { state = HarnessFailureState.blocked } }) le
                  four)
          | inr free ↦
              let low : c.retries_after_circuit < c.maximum_retries_after_circuit = ground arith in
              subst (λ o. Settled (answered o s)) (sym (authorize_free c open_now free))
                (next_attempt-Settled left n retry retried s le again
                  (retried-IsBounded (omega (arith, low, same_retries, same_limit))))
        ]

    pub after_failure-Settled : Settled (after_failure left n status retry later s)
    unfolding after_failure
    after_failure-Settled =
        if_Settled (is_final status)
          (pure (
            ended n status
              (record later { breaker = record later.breaker { state = final_state status } })))
          (if is_open later.breaker.state
            then answered (authorize_retry later.breaker)
            else next_attempt left n retry later)
          s
          (λ fin.
            ended-IsLimited n status
              (record later { breaker = record later.breaker { state = final_state status } }) le
              four)
          (λ other.
            if_Settled (is_open later.breaker.state) (answered (authorize_retry later.breaker))
              (next_attempt left n retry later) s answered-Settled
              (λ shut. next_attempt-Settled left n retry later s le again (shut-IsBounded shut)))
