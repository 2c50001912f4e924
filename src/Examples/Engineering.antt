-- ===== src/Examples/Engineering.antt =====
-- Concrete calls of the task registry and of the scheduler.
use humanflow.Engineering.Entries.{
  shipped-EnteredBy, verified-EnteredBy, shipped_statuses, EnteredBy,
}
use humanflow.Engineering.Authority.{Keeps}
use humanflow.Shared.Result.{ok, Passes, checked, permission_error, err}
use humanflow.Shared.Text.{is_blank}
use humanflow.Engineering.Governance.{
  after_registry_calls-new_registry, run_call-Keeps, run_call_raise,
}
use humanflow.Shared.Dict.{insert, lookup}
use humanflow.Engineering.Invariant.{IsRegistry}
use humanflow.Engineering.Scheduler.{plan}
use humanflow.Engineering.Tasks.{
  task_checks, verified_statuses, worker, human, TaskRisk, verifier, TaskStatus, TaskPriority,
  is_unsafe_path, EngineeringTaskRecord,
}
use humanflow.Engineering.Plans.{plan-IsSafe, IsSafe}
use humanflow.Engineering.Registry.{
  new_registry, tasks_by_id, after_registry_calls, call_move, Registry, RegistryCall, run_call,
}
use humanflow.Shared.{
  ◌≡◌, refl, true, false, none, some, List, [], ◌∷◌, nat_instance, string_instance, int_instance,
  All,
}

abbrev fix_task : EngineeringTaskRecord
fix_task = record {
  task_id = "HF-1";
  title = "Fix the ledger";
  source = "audit";
  priority = TaskPriority.p1;
  risk = TaskRisk.low;
  status = TaskStatus.verification;
  passes = false;
  problem_fingerprint = some "f1";
  dependencies = [];
  allowed_paths = "src/audio" ∷ [];
  protected_paths = "src/controller" ∷ [];
  verification = ("pytest" ∷ []) ∷ [];
  target_metrics = [];
  evidence_refs = [];
  human_approval_required = false;
  human_approved = false;
  created_at_utc = "t0";
  updated_at_utc = "t0";
}

abbrev docs_task : EngineeringTaskRecord
docs_task = record fix_task {
  task_id = "HF-2";
  problem_fingerprint = none;
  status = TaskStatus.ready;
  allowed_paths = "docs" ∷ [];
}

abbrev two_tasks : Registry
two_tasks = ("HF-1", fix_task) ∷ ("HF-2", docs_task) ∷ []

two_tasks-IsRegistry : IsRegistry two_tasks
unfolding lookup is_unsafe_path is_blank
two_tasks-IsRegistry = (
  refl,
  (refl, (refl, (refl, (refl, (refl, tt))))),
  refl,
  (refl, (refl, (refl, (refl, (refl, (refl, tt))))), refl, tt),
)

abbrev pass_calls : List RegistryCall
pass_calls =
    call_move "HF-1" TaskStatus.passed worker ("e" ∷ []) "t1"
    ∷ call_move "HF-1" TaskStatus.passed verifier ("e" ∷ []) "t2"
    ∷ []

abbrev passed_task : EngineeringTaskRecord
passed_task = record fix_task {
  status = TaskStatus.passed;
  passes = true;
  evidence_refs = "e" ∷ [];
  updated_at_utc = "t2";
}

pass_calls_run : lookup "HF-1" (after_registry_calls pass_calls two_tasks) ≡ some passed_task
unfolding lookup after_registry_calls is_unsafe_path is_blank checked insert
pass_calls_run = refl

two_tasks_pass : All (λ t. Passes (task_checks t)) (fix_task ∷ (docs_task ∷ []))
unfolding is_unsafe_path is_blank
two_tasks_pass =
    ((refl, (refl, (refl, (refl, (refl, tt))))), ((refl, (refl, (refl, (refl, (refl, tt))))), tt))

two_tasks_new : new_registry (fix_task ∷ (docs_task ∷ [])) ≡ ok two_tasks
unfolding new_registry insert
two_tasks_new = refl

after_registry_calls-new_registry_example : IsRegistry (after_registry_calls pass_calls two_tasks)
after_registry_calls-new_registry_example =
    after_registry_calls-new_registry (fix_task ∷ (docs_task ∷ [])) pass_calls two_tasks
      two_tasks_pass two_tasks_new (tt, (tt, tt))

verified-EnteredBy_example : EnteredBy verifier verified_statuses "HF-1" pass_calls two_tasks
unfolding lookup
verified-EnteredBy_example =
    verified-EnteredBy pass_calls two_tasks "HF-1" fix_task passed_task (tt, (tt, tt))
      two_tasks-IsRegistry refl refl pass_calls_run refl

abbrev merged_task : EngineeringTaskRecord
merged_task = record fix_task { status = TaskStatus.merged; passes = true }

abbrev merged_tasks : Registry
merged_tasks = ("HF-1", merged_task) ∷ []

merged_tasks-IsRegistry : IsRegistry merged_tasks
unfolding lookup is_unsafe_path is_blank
merged_tasks-IsRegistry = (refl, (refl, (refl, (refl, (refl, (refl, tt))))), refl, tt)

abbrev release_calls : List RegistryCall
release_calls = call_move "HF-1" TaskStatus.released human [] "t1" ∷ []

release_calls_run :
    lookup "HF-1" (after_registry_calls release_calls merged_tasks)
    ≡ some (record merged_task { status = TaskStatus.released; updated_at_utc = "t1" })
unfolding lookup after_registry_calls is_unsafe_path is_blank checked insert
release_calls_run = refl

shipped-EnteredBy_example : EnteredBy human shipped_statuses "HF-1" release_calls merged_tasks
unfolding lookup
shipped-EnteredBy_example =
    shipped-EnteredBy release_calls merged_tasks "HF-1" merged_task
      (record merged_task { status = TaskStatus.released; updated_at_utc = "t1" }) (tt, tt)
      merged_tasks-IsRegistry refl refl release_calls_run refl

run_call-Keeps_example :
    (u : EngineeringTaskRecord) × (lookup "HF-1"
        (run_call (call_move "HF-1" TaskStatus.passed verifier ("e" ∷ []) "t2") two_tasks).1
      ≡ some u)
    × Keeps (some verifier) fix_task u
unfolding lookup
run_call-Keeps_example =
    run_call-Keeps (call_move "HF-1" TaskStatus.passed verifier ("e" ∷ []) "t2") two_tasks "HF-1"
      fix_task two_tasks-IsRegistry refl

worker_refused :
    (run_call (call_move "HF-1" TaskStatus.passed worker [] "t1") two_tasks).0
    ≡ err (permission_error "status requires verifier authority")
unfolding run_call lookup checked
worker_refused = refl

run_call_raise_example :
    (run_call (call_move "HF-1" TaskStatus.passed worker [] "t1") two_tasks).1 ≡ two_tasks
run_call_raise_example =
    run_call_raise (call_move "HF-1" TaskStatus.passed worker [] "t1") two_tasks
      (permission_error "status requires verifier authority") two_tasks-IsRegistry worker_refused

docs_scheduled : (plan 2 (docs_task ∷ []) (fix_task ∷ []) []).scheduled ≡ docs_task ∷ []
unfolding plan
docs_scheduled = refl

plan-IsSafe_example :
    IsSafe 1
      (tasks_by_id [] (docs_task ∷ fix_task ∷ []))
      (fix_task ∷ [])
      (plan 2 (docs_task ∷ []) (fix_task ∷ []) [])
plan-IsSafe_example = plan-IsSafe 2 (docs_task ∷ []) (fix_task ∷ []) []
