-- ===== src/Engineering/Supervisor.antt =====
-- `run_task_bounded` of src/humanflow/engineering/supervisor.py over the registry and the breaker. A run
-- of the harness is an input: what it leaves of the registry, and its result or exception with the
-- digest of its failure. Of the files that are written only the commit of a release candidate is kept.
use humanflow.Engineering.Tasks.{status_instance, coordinator, ready, retried_statuses}
use humanflow.Shared.Text.{is_blank}
use humanflow.Shared.Result.{ok, value_error, err, runtime_error, Result}
use humanflow.Engineering.Breaker.{
  blocked, scope_violation, integrity_failure, is_open, healthy, failure_value, HarnessFailureState,
  authorize_retry, record_failure, FailureCircuitBreaker,
}
use humanflow.Engineering.Registry.{move_task, Registry, find_task}
use humanflow.Shared.Action.{Action, ◌>>=◌, ◌>>◌, raise, modify, lift, pure}
use Prim.Native.Nat.{ℕ}
use humanflow.Shared.{
  contains, ◌-◌, zero, suc, ◌+◌, String, Bool, false, ◌||◌, Option, none, some, List, [], ◌∷◌, ◌++◌,
  if◌then◌else◌, ◌==◌, nat_instance, string_instance, int_instance,
}

-- What a run of the harness returns or raises; the texts of an exception are searched in upper case.
pub data HarnessOutcome : Type 0 where
  finished : (status reasons sha256 : String) (candidate_commit : Option String) → HarnessOutcome
  raised :
      (exception_type message sha256 : String) (mentions_integrity mentions_scope : Bool)
      → HarnessOutcome

pub record HarnessRun : Type 0 where
  pub leaves : Registry → Registry
  pub outcome : HarnessOutcome

pub record SupervisorTaskOutcome : Type 0 where
  pub final_status : String
  pub attempts : ℕ
  pub circuit_state : HarnessFailureState
  pub release_candidate : Option String
  pub failure_fingerprints : List String

-- `_exception_state`
unfoldable pub exception_state : Bool → Bool → HarnessFailureState
exception_state mentions_integrity mentions_scope =
    if mentions_integrity
    then integrity_failure
    else if mentions_scope
    then scope_violation
    else blocked

-- The status after a run.
unfoldable pub status_of : HarnessOutcome → String
unfolding exception_state failure_value
status_of (finished status reasons sha256 candidate) = status
status_of (raised type message sha256 i s) = failure_value (exception_state i s)

-- `FailureFingerprint.create`: its checks, and the digest.
unfoldable pub create_fingerprint : String → String → String → String → Result String
create_fingerprint exception_type error component sha256 =
    if is_blank exception_type || is_blank error || is_blank component
    then err (value_error "failure fingerprint inputs must not be empty")
    else ok sha256

-- `_failure_fingerprint`
unfoldable pub failure_fingerprint : String → HarnessOutcome → Result String
unfolding create_fingerprint
failure_fingerprint task_id (finished status reasons sha256 candidate) =
    create_fingerprint "MergeRejected" reasons task_id sha256
failure_fingerprint task_id (raised type message sha256 i s) =
    create_fingerprint type (if message == "" then type else message) task_id sha256

-- `_prepare_attempt`
unfoldable pub prepare_attempt : String → String → Action Registry (Unit {0})
unfolding find_task move_task
prepare_attempt task_id now = find_task task_id >>= λ task.
    if contains task.status retried_statuses
    then move_task task_id ready coordinator [] now >> pure tt
    else if task.status == ready
    then pure tt
    else raise (runtime_error "task cannot be retried")

-- What the loop carries from one attempt to the next.
pub record Progress : Type 0 where
  pub breaker : FailureCircuitBreaker
  pub failure_fingerprints : List String

abbrev pub ended : ℕ → String → Progress → SupervisorTaskOutcome
ended n status p = record {
  final_status = status;
  attempts = n;
  circuit_state = p.breaker.state;
  release_candidate = none;
  failure_fingerprints = p.failure_fingerprints;
}

abbrev pub released_as : ℕ → Option String → Progress → Action Registry SupervisorTaskOutcome
released_as n none p = raise (runtime_error "verified result is missing candidate commit")
released_as n (some commit) p =
    pure (record (ended n "VERIFIED_PASS" p) { release_candidate = some commit })

abbrev pub is_final : String → Bool
is_final status = status == "INTEGRITY_FAILURE" || status == "SCOPE_VIOLATION"

abbrev pub final_state : String → HarnessFailureState
final_state status = if status == "INTEGRITY_FAILURE" then integrity_failure else scope_violation

-- The failure is on file.
abbrev pub with_failure : String → Progress → Progress
with_failure sha256 p = record {
  breaker = record_failure sha256 p.breaker;
  failure_fingerprints = p.failure_fingerprints ++ (sha256 ∷ []);
}

-- The end of the last attempt takes the state of the breaker.
abbrev pub next_attempt :
    ℕ
    → ℕ
    → (Progress → Action Registry SupervisorTaskOutcome)
    → Progress
    → Action Registry SupervisorTaskOutcome
next_attempt zero n retry p = pure (ended n (failure_value p.breaker.state) p)
next_attempt (suc left) n retry p = retry p

-- What follows a failure that is on file.
unfoldable pub after_failure :
    ℕ
    → ℕ
    → String
    → (Progress → Action Registry SupervisorTaskOutcome)
    → Progress
    → Action Registry SupervisorTaskOutcome
unfolding authorize_retry failure_value
after_failure left n status retry p =
    if is_final status
    then pure
        (ended n status (record p { breaker = record p.breaker { state = final_state status } }))
    else if is_open p.breaker.state
    then (let (granted, b) = authorize_retry p.breaker in
        if granted
        then next_attempt left n retry (record p { breaker = b })
        else pure (ended n (failure_value b.state) (record p { breaker = b })))
    else next_attempt left n retry p

abbrev pub is_pass : HarnessOutcome → Bool
is_pass (finished status reasons sha256 candidate) = status == "VERIFIED_PASS"
is_pass (raised type message sha256 i s) = false

abbrev pub candidate_of : HarnessOutcome → Option String
candidate_of (finished status reasons sha256 candidate) = candidate
candidate_of (raised type message sha256 i s) = none

-- What follows a run of the harness.
unfoldable pub settle_run :
    String
    → ℕ
    → ℕ
    → HarnessOutcome
    → (Progress → Action Registry SupervisorTaskOutcome)
    → Progress
    → Action Registry SupervisorTaskOutcome
unfolding failure_fingerprint record_failure after_failure status_of
settle_run task_id left n outcome retry p =
    if is_pass outcome
    then released_as n (candidate_of outcome) p
    else lift (failure_fingerprint task_id outcome) >>= λ sha256.
        after_failure left n (status_of outcome) retry (with_failure sha256 p)

abbrev pub new_breaker : FailureCircuitBreaker
new_breaker = record {
  repeated_failure_threshold = 3;
  no_progress_threshold = 3;
  maximum_retries_after_circuit = 1;
  output_collapse_characters = 32;
  failure_counts = [];
  observations = [];
  retries_after_circuit = 0;
  state = healthy;
}

module _ (task_id now : String) (runs : ℕ → HarnessRun) where
  -- The loop: the attempts that are left, and the number of this one.
  unfoldable pub attempt_task : ℕ → ℕ → Progress → Action Registry SupervisorTaskOutcome
  unfolding prepare_attempt settle_run
  attempt_task zero n p = pure (ended (n - 1) "BLOCKED" p)
  attempt_task (suc left) n p =
      prepare_attempt task_id now
      >> (modify (runs n).leaves
          >> settle_run task_id left n (runs n).outcome (attempt_task left (n + 1)) p)

  -- `run_task_bounded`
  unfoldable pub run_task_bounded : ℕ → Action Registry SupervisorTaskOutcome
  unfolding attempt_task
  run_task_bounded maximum_iterations =
      attempt_task maximum_iterations 1
        (record { breaker = new_breaker; failure_fingerprints = [] })
