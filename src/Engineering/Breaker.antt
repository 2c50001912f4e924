-- ===== src/Engineering/Breaker.antt =====
-- src/humanflow/engineering/failures.py: the observations of an agent's iterations and the breaker that
-- stops repeated failures. A fingerprint is known by its digest.
use humanflow.Shared.Text.{codes}
use humanflow.Shared.Dict.{lookup, insert, Dict}
use humanflow.Shared.Result.{ok, err, checked, value_error, Result, Error}
use Prim.Native.Nat.{ℕ}
use humanflow.Shared.{
  list_eq_iff, list_eq, zero, suc, ◌+◌, String, Bool, true, false, not, ◌&&◌, ◌||◌, none, some,
  List, [], ◌∷◌, map, ltb, leb, if◌then◌else◌, Eq, ◌==◌, nat_instance, string_instance, ℤ, pos,
  pos_part, ltb_ℤ, int_eq, int_instance, length,
}

pub data HarnessFailureState : Type 0 where
  healthy blocked_manual_validation test_dispute resource_conflict integrity_failure no_progress :
      HarnessFailureState
  oscillation_detected output_collapse budget_exceeded scope_violation circuit_open :
      HarnessFailureState
  repeated_failure merge_rejected release_rejected blocked : HarnessFailureState

unfoldable pub failure_value : HarnessFailureState → String
failure_value healthy = "HEALTHY"
failure_value blocked_manual_validation = "BLOCKED_MANUAL_VALIDATION"
failure_value test_dispute = "TEST_DISPUTE"
failure_value resource_conflict = "RESOURCE_CONFLICT"
failure_value integrity_failure = "INTEGRITY_FAILURE"
failure_value no_progress = "NO_PROGRESS"
failure_value oscillation_detected = "OSCILLATION_DETECTED"
failure_value output_collapse = "OUTPUT_COLLAPSE"
failure_value budget_exceeded = "BUDGET_EXCEEDED"
failure_value scope_violation = "SCOPE_VIOLATION"
failure_value circuit_open = "CIRCUIT_OPEN"
failure_value repeated_failure = "REPEATED_FAILURE"
failure_value merge_rejected = "MERGE_REJECTED"
failure_value release_rejected = "RELEASE_REJECTED"
failure_value blocked = "BLOCKED"

abbrev pub is_open : HarnessFailureState → Bool
is_open circuit_open = true
is_open _ = false

pub record IterationObservation : Type 0 where
  pub iteration : ℤ
  pub diff_sha256 : String
  pub failing_fingerprints : List String
  pub lines_changed : ℤ
  pub output_characters : ℤ
  pub task_resolved : Bool
  pub budget_exceeded : Bool
  pub scope_violation : Bool

abbrev pub observation_checks : IterationObservation → List (Bool × Error)
observation_checks o =
    (
      ltb_ℤ o.iteration (pos 1)
          || ltb_ℤ o.lines_changed (pos 0)
          || ltb_ℤ o.output_characters (pos 0),
      value_error "iteration and counts must be non-negative",
    )
    ∷ (not (length (codes o.diff_sha256) == 64), value_error "diff_sha256 must be a SHA-256 digest")
    ∷ []

unfoldable pub make_observation : IterationObservation → Result IterationObservation
make_observation o = checked (observation_checks o) o

-- The breaker; the observations are kept with the last one first.
pub record FailureCircuitBreaker : Type 0 where
  pub repeated_failure_threshold : ℕ
  pub no_progress_threshold : ℕ
  pub maximum_retries_after_circuit : ℕ
  pub output_collapse_characters : ℕ
  pub failure_counts : Dict ℕ
  pub observations : List IterationObservation
  pub retries_after_circuit : ℕ
  pub state : HarnessFailureState

unfoldable pub make_breaker : ℕ → ℕ → ℤ → ℤ → Result FailureCircuitBreaker
make_breaker repeated window retries collapse =
    if ltb repeated 2 || ltb window 2
    then err (value_error "failure thresholds must be at least two")
    else if ltb_ℤ retries (pos 0) || ltb_ℤ collapse (pos 0)
    then err (value_error "retry and output thresholds must be non-negative")
    else ok (record {
      repeated_failure_threshold = repeated;
      no_progress_threshold = window;
      maximum_retries_after_circuit = pos_part retries;
      output_collapse_characters = pos_part collapse;
      failure_counts = [];
      observations = [];
      retries_after_circuit = 0;
      state = healthy;
    })

-- `_failure_counts.get(sha256, 0)`
unfoldable pub failures_of : String → Dict ℕ → ℕ
failures_of k d = elim (lookup k d) [ none ↦ 0 | some n ↦ n ]

unfoldable pub record_failure : String → FailureCircuitBreaker → FailureCircuitBreaker
unfolding failures_of
record_failure sha256 b =
    let count = failures_of sha256 b.failure_counts + 1 in
    record b {
      failure_counts = insert sha256 count b.failure_counts;
      state = if leb b.repeated_failure_threshold count then circuit_open else b.state;
    }

abbrev pub take : {A : Type 0} → ℕ → List A → List A
take zero xs = []
take (suc n) [] = []
take (suc n) (x ∷ xs) = x ∷ take n xs

-- All elements are equal to the first one.
abbrev pub all_same : {A : Type 0} ⦃eq : Eq A⦄ → List A → Bool
all_same [] = true
all_same (x ∷ []) = true
all_same (x ∷ (y ∷ ys)) = let rest = all_same (y ∷ ys) in x == y && rest

instance abbrev prints_instance : Eq (List String)
prints_instance = record { same = list_eq; same_iff = list_eq_iff }

-- `_no_progress`
unfoldable pub is_stuck : FailureCircuitBreaker → Bool
is_stuck b =
    let window = take b.no_progress_threshold b.observations in
    length window == b.no_progress_threshold
    && all_same (map (λ o. o.diff_sha256) window)
    && all_same (map (λ o. o.failing_fingerprints) window)

-- `_oscillates`
unfoldable pub oscillates : FailureCircuitBreaker → Bool
oscillates b = elim (take 4 b.observations) [
  | d ∷ (c ∷ (b ∷ (a ∷ []))) ↦
      a.diff_sha256 == c.diff_sha256
      && b.diff_sha256 == d.diff_sha256
      && not (a.diff_sha256 == b.diff_sha256)
  | _ ↦ false
]

-- `record_iteration`
unfoldable pub record_iteration :
    IterationObservation → FailureCircuitBreaker → FailureCircuitBreaker
unfolding is_stuck oscillates
record_iteration o old =
    let b : FailureCircuitBreaker = record old { observations = o ∷ old.observations } in
    record b {
      state =
          if o.task_resolved
          then healthy
          else if o.budget_exceeded
          then HarnessFailureState.budget_exceeded
          else if o.scope_violation
          then HarnessFailureState.scope_violation
          else if int_eq o.lines_changed (pos 0)
              && ltb_ℤ o.output_characters (pos b.output_collapse_characters)
          then output_collapse
          else if oscillates b
          then oscillation_detected
          else if is_stuck b
          then no_progress
          else b.state;
    }

unfoldable pub authorize_retry : FailureCircuitBreaker → Bool × FailureCircuitBreaker
authorize_retry b =
    if not (is_open b.state)
    then (false, b)
    else if leb b.maximum_retries_after_circuit b.retries_after_circuit
    then (false, record b { state = blocked })
    else (
      true,
      record b { retries_after_circuit = b.retries_after_circuit + 1; state = repeated_failure },
    )
