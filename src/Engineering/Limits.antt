-- ===== src/Engineering/Limits.antt =====
-- Bounded runs of a task under src/humanflow/engineering/supervisor.py, whatever the harness does.
use humanflow.Engineering.Stops.{
  after_failure-Settled, released_as-Settled, if_Settled, ended-IsLimited, IsLimited, Continues,
  Settled,
}
use humanflow.Shared.Result.{ok}
use humanflow.Engineering.Repeats.{IsBounded, occurrences}
use humanflow.Engineering.Registry.{Registry}
use humanflow.Engineering.Supervisor.{
  candidate_of, released_as, is_pass, with_failure, status_of, after_failure, failure_fingerprint,
  prepare_attempt, HarnessOutcome, new_breaker, SupervisorTaskOutcome, Progress, settle_run,
  attempt_task, run_task_bounded, HarnessRun,
}
use humanflow.Engineering.Breaker.{failures_of}
use humanflow.Tools.Returns.{Permits, bind-Permits, Permits-any}
use humanflow.Shared.Action.{Action, ◌>>=◌, ◌>>◌, modify, lift}
use humanflow.Shared.Dict.{lookup}
use mathlib.Core.Path.{refl, subst}
use Prim.Native.Nat.{ℕ}
use humanflow.Shared.{
  zero, suc, ◌+◌, ◌-◌, ◌≤◌, String, ◌≡◌, [], arith, nat_instance, string_instance, int_instance,
}

module _ (maximum : ℕ) (runs : ℕ → HarnessRun) (task_id now : String) where
  settle_run-Settled :
      (left n : ℕ) (retry : Progress → Action Registry SupervisorTaskOutcome) (p : Progress)
      (s : Registry)
      → n ≤ maximum
      → Continues maximum runs left n retry
      → IsBounded n p
      → Settled maximum runs (settle_run task_id left n (runs n).outcome retry p s)
  unfolding settle_run
  settle_run-Settled left n retry p s le again b =
      let ran : HarnessOutcome = (runs n).outcome in
      let fail : Action Registry SupervisorTaskOutcome =
        lift (failure_fingerprint task_id ran) >>= λ sha256.
        after_failure left n (status_of ran) retry (with_failure sha256 p) in
      if_Settled maximum runs (is_pass ran) (released_as n (candidate_of ran) p) fail s
        (λ pass. released_as-Settled maximum runs n (candidate_of ran) p s le b pass refl)
        (λ other.
          bind-Permits (λ u s'. Unit {0}) (λ r s'. IsLimited maximum runs r)
            (lift (failure_fingerprint task_id ran))
            (λ sha256. after_failure left n (status_of ran) retry (with_failure sha256 p)) s
            (Permits-any (failure_fingerprint task_id ran, s))
            (λ sha256 s' h.
              after_failure-Settled maximum runs left n (status_of ran) sha256 retry p s' le again
                b))

  attempt_task-Settled :
      (left n : ℕ) (p : Progress) (s : Registry)
      → n + left ≡ maximum + 1
      → IsBounded n p
      → Settled maximum runs (attempt_task task_id now runs left n p s)
  unfolding attempt_task
  attempt_task-Settled zero n p s total b =
      ended-IsLimited maximum runs (n - 1) "BLOCKED" p (omega arith)
        (λ k. omega (arith, b.few k, b.once))
  attempt_task-Settled (suc left) n p s total b =
      let settled : Action Registry SupervisorTaskOutcome =
        settle_run task_id left n (runs n).outcome (attempt_task task_id now runs left (n + 1)) p in
      bind-Permits (λ u s'. Unit {0}) (λ r s'. IsLimited maximum runs r)
        (prepare_attempt task_id now) (λ u. modify (runs n).leaves >> settled) s
        (Permits-any (prepare_attempt task_id now s))
        (λ u s1 h.
          settle_run-Settled left n (attempt_task task_id now runs left (n + 1)) p
            ((runs n).leaves s1) (omega arith)
            (λ rest p' s2 e b'. attempt_task-Settled left (n + 1) p' s2 (omega arith) b') b)

new-IsBounded : IsBounded 1 (record { breaker = new_breaker; failure_fingerprints = [] })
unfolding failures_of occurrences lookup
new-IsBounded = record {
  counted = λ k. refl;
  threshold = refl;
  allowed = refl;
  closed = refl;
  few = λ k. omega arith;
  once = omega arith;
  numbered = refl;
}

-- What a bounded run of a task returns, whatever the harness does: it is within the limit of attempts,
-- no failure occurred more than four times, and a release candidate is the commit of the last run, which
-- passed.
pub run_task_bounded-IsLimited :
    (maximum : ℕ) (task_id now : String) (runs : ℕ → HarnessRun) (s s' : Registry)
    (o : SupervisorTaskOutcome)
    → run_task_bounded task_id now runs maximum s ≡ (ok o, s')
    → IsLimited maximum runs o
unfolding run_task_bounded
run_task_bounded-IsLimited maximum task_id now runs s s' o h =
    subst (Permits (λ r s. IsLimited maximum runs r)) h (
      attempt_task-Settled maximum runs task_id now maximum 1
        (record { breaker = new_breaker; failure_fingerprints = [] }) s (omega arith) new-IsBounded)
