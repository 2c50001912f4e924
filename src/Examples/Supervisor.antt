-- ===== src/Examples/Supervisor.antt =====
-- Concrete runs of a task under the supervisor.
use humanflow.Engineering.Stops.{IsLimited}
use humanflow.Shared.Text.{is_blank}
use humanflow.Engineering.Limits.{run_task_bounded-IsLimited}
use humanflow.Shared.Dict.{insert, lookup}
use humanflow.Engineering.Supervisor.{
  finished, HarnessOutcome, run_task_bounded, HarnessRun, SupervisorTaskOutcome,
}
use humanflow.Engineering.Tasks.{TaskStatus, TaskRisk, TaskPriority, EngineeringTaskRecord}
use humanflow.Engineering.Registry.{Registry}
use humanflow.Engineering.Breaker.{failures_of, HarnessFailureState}
use mathlib.Core.Path.{refl}
use humanflow.Shared.Result.{Result, ok}
use Prim.Native.Nat.{ℕ}
use humanflow.Shared.{
  String, ◌≡◌, false, none, some, [], ◌∷◌, if◌then◌else◌, ◌==◌, nat_instance, string_instance,
  int_instance,
}

abbrev docs_task : EngineeringTaskRecord
docs_task = record {
  task_id = "HF-2";
  title = "Write the docs";
  source = "audit";
  priority = TaskPriority.p1;
  risk = TaskRisk.low;
  status = TaskStatus.ready;
  passes = false;
  problem_fingerprint = none;
  dependencies = [];
  allowed_paths = "docs" ∷ [];
  protected_paths = [];
  verification = ("pytest" ∷ []) ∷ [];
  target_metrics = [];
  evidence_refs = [];
  human_approval_required = false;
  human_approved = false;
  created_at_utc = "t0";
  updated_at_utc = "t0";
}

abbrev one_task : Registry
one_task = ("HF-2", docs_task) ∷ []

abbrev rejected : String → HarnessOutcome
rejected sha256 = finished "MERGE_REJECTED" "review missing" sha256 none

-- The second run passes.
abbrev runs : ℕ → HarnessRun
runs n = record {
  leaves = λ d. d;
  outcome = if n == 2 then finished "VERIFIED_PASS" "" "" (some "c1") else rejected "s1";
}

abbrev passed_outcome : SupervisorTaskOutcome
passed_outcome = record {
  final_status = "VERIFIED_PASS";
  attempts = 2;
  circuit_state = HarnessFailureState.healthy;
  release_candidate = some "c1";
  failure_fingerprints = "s1" ∷ [];
}

second_passes : run_task_bounded "HF-2" "t1" runs 4 one_task ≡ (ok passed_outcome, one_task)
unfolding run_task_bounded lookup is_blank failures_of insert
second_passes = refl

run_task_bounded-IsLimited_example : IsLimited 4 runs passed_outcome
run_task_bounded-IsLimited_example =
    run_task_bounded-IsLimited 4 "HF-2" "t1" runs one_task one_task passed_outcome second_passes

-- Every run fails in the same way.
abbrev failing : ℕ → HarnessRun
failing n = record { leaves = λ d. d; outcome = rejected "s1" }

abbrev stopped : Result SupervisorTaskOutcome
stopped = ok (record {
  final_status = "BLOCKED";
  attempts = 4;
  circuit_state = HarnessFailureState.blocked;
  release_candidate = none;
  failure_fingerprints = "s1" ∷ ("s1" ∷ ("s1" ∷ ("s1" ∷ [])));
})

-- The circuit opens at the third failure, and one retry is left.
fourth_stops : run_task_bounded "HF-2" "t1" failing 9 one_task ≡ (stopped, one_task)
unfolding run_task_bounded lookup is_blank failures_of insert
fourth_stops = refl

abbrev two_failures : ℕ → HarnessRun
two_failures n = record { leaves = λ d. d; outcome = rejected (if n == 1 then "s1" else "s2") }

abbrev reported_healthy : Result SupervisorTaskOutcome
reported_healthy = ok (record {
  final_status = "HEALTHY";
  attempts = 2;
  circuit_state = HarnessFailureState.healthy;
  release_candidate = none;
  failure_fingerprints = "s1" ∷ ("s2" ∷ []);
})

-- Two runs that fail for two reasons.
failures_end_healthy :
    run_task_bounded "HF-2" "t1" two_failures 2 one_task ≡ (reported_healthy, one_task)
unfolding run_task_bounded lookup is_blank failures_of insert
failures_end_healthy = refl
