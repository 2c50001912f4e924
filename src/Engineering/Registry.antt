-- ===== src/Engineering/Registry.antt =====
-- `TaskRegistry` of src/humanflow/engineering/registry.py: the dictionary of tasks and every call that
-- writes it. What git answers is a parameter; the time of an update is an argument.
use humanflow.Shared.{
  ℕ, String, Bool, true, false, not, ◌&&◌, ◌||◌, Option, none, some, List, [], ◌∷◌, ◌++◌, leb,
  if◌then◌else◌, ◌==◌, nat_instance, string_instance, contains, int_instance, length, any, select,
}
use Prim.Native.String.{◌++◌ as str_append}
use humanflow.Shared.Text.{codes, codes_instance, is_blank}
use humanflow.Shared.Dict.{Dict, lookup, insert}
use humanflow.Shared.Result.{
  Result, ok, err, Error, value_error, key_error, permission_error, checked,
}
use humanflow.Shared.Action.{Action, ◌>>=◌, ◌>>◌, raise_when, modify, gets, lift, pure}
use humanflow.Engineering.Tasks.{
  ready, running, released, verifier, role_instance, blocked, status_instance, is_empty_command,
  verifier_only, human, next_statuses, triaged, merged, verified_statuses, coordinator, make_task,
  TaskStatus, ActorRole, proposed, EngineeringTaskRecord,
}

abbrev pub Registry : Type 0
Registry = Dict EngineeringTaskRecord

-- `tuple(dict.fromkeys(xs))`: the first of equal texts stays.
unfoldable pub distinct : List String → List String
distinct [] = []
distinct (x ∷ xs) = x ∷ select (λ y. not (y == x)) (distinct xs)

-- `{task.task_id: task for task in tasks}`
unfoldable pub tasks_by_id : Registry → List EngineeringTaskRecord → Registry
tasks_by_id d [] = d
tasks_by_id d (t ∷ ts) = tasks_by_id (insert t.task_id t d) ts

unfoldable pub new_registry : List EngineeringTaskRecord → Result Registry
unfolding tasks_by_id
new_registry tasks =
    let d = tasks_by_id [] tasks in
    if length d == length tasks then ok d else err (value_error "task IDs must be unique")

-- `get`
unfoldable pub find_task : String → Action Registry EngineeringTaskRecord
find_task task_id d = elim (lookup task_id d) [ none ↦ (err key_error, d) | some t ↦ (ok t, d) ]

abbrev pub has_fingerprint : String → EngineeringTaskRecord → Bool
has_fingerprint print t = elim t.problem_fingerprint [ none ↦ false | some other ↦ other == print ]

-- The first task of the registry with the same fingerprint.
unfoldable pub find_duplicate : String → Registry → Option EngineeringTaskRecord
find_duplicate print [] = none
find_duplicate print ((k, t) ∷ d) =
    let rest = find_duplicate print d in if has_fingerprint print t then some t else rest

-- `replace(task, evidence_refs=..., updated_at_utc=...)`
unfoldable pub linked_task : List String → String → EngineeringTaskRecord → EngineeringTaskRecord
unfolding distinct
linked_task evidence now t = record t {
  evidence_refs = distinct (t.evidence_refs ++ evidence);
  updated_at_utc = now;
}

unfoldable pub duplicate_of : EngineeringTaskRecord → Registry → Option EngineeringTaskRecord
unfolding find_duplicate
duplicate_of task d = elim task.problem_fingerprint [
  | none ↦ none
  | some print ↦ find_duplicate print d
]

abbrev pub is_known : String → Registry → Bool
is_known task_id d = elim (lookup task_id d) [ none ↦ false | some t ↦ true ]

-- Writes a checked record under its identifier and returns it.
unfoldable pub store : String → EngineeringTaskRecord → Action Registry EngineeringTaskRecord
unfolding make_task
store task_id t = do made ← lift (make_task t); modify (insert task_id made); pure made

unfoldable pub add : EngineeringTaskRecord → String → Action Registry EngineeringTaskRecord
unfolding duplicate_of linked_task store
add task now = do
  known ← gets (is_known task.task_id)
  raise_when known (value_error "duplicate task_id")
  duplicate ← gets (duplicate_of task)
  elim duplicate [
    | some t ↦ store t.task_id (linked_task task.evidence_refs now t)
    | none ↦ modify (insert task.task_id task) >> pure task
  ]

abbrev pub transition_checks : EngineeringTaskRecord → TaskStatus → ActorRole → List (Bool × Error)
transition_checks t target actor =
    (not (contains target (next_statuses t.status)), value_error "illegal task transition")
    ∷ (
      contains target verifier_only && not (actor == verifier),
      permission_error "status requires verifier authority",
    )
    ∷ (
      target == released && not (actor == human),
      permission_error "initial release policy requires human authority",
    )
    ∷ (
      target == running && not (actor == coordinator),
      permission_error "only the coordinator may dispatch a task",
    )
    ∷ (
      target == ready && t.human_approval_required && not t.human_approved,
      permission_error "task requires human approval before READY",
    )
    ∷ []

unfoldable pub updated_task :
    TaskStatus → List String → String → EngineeringTaskRecord → EngineeringTaskRecord
unfolding linked_task
updated_task target evidence now t = record (linked_task evidence now t) {
  status = target;
  passes = contains target verified_statuses;
}

-- `_transition_unlocked`
unfoldable pub transition_unlocked :
    String → TaskStatus → ActorRole → List String → String → Action Registry EngineeringTaskRecord
unfolding find_task updated_task store
transition_unlocked task_id target actor evidence now = do
  current ← find_task task_id
  updated ←
      lift (
        checked (transition_checks current target actor) (updated_task target evidence now current))
  store task_id updated

-- `TaskRegistry.transition`
unfoldable pub move_task :
    String → TaskStatus → ActorRole → List String → String → Action Registry EngineeringTaskRecord
unfolding transition_unlocked
move_task task_id target actor evidence now = do
  raise_when (target == merged) (permission_error "merged requires record_verified_merge")
  transition_unlocked task_id target actor evidence now

abbrev pub approval_checks : EngineeringTaskRecord → List (Bool × Error)
approval_checks t =
    (not t.human_approval_required, value_error "task does not require human approval")
    ∷ (
      not (contains t.status (proposed ∷ triaged ∷ blocked ∷ [])),
      value_error "human approval must be recorded before READY",
    )
    ∷ []

abbrev pub approved_task : List String → String → EngineeringTaskRecord → EngineeringTaskRecord
approved_task evidence now t = record (linked_task evidence now t) { human_approved = true }

unfoldable pub record_human_approval :
    String → ActorRole → List String → String → Action Registry EngineeringTaskRecord
unfolding find_task store linked_task
record_human_approval task_id actor evidence now = do
  raise_when (not (actor == human)) (permission_error "human approval requires human authority")
  raise_when (is_empty_command evidence || any is_blank evidence)
      (value_error "human approval requires non-empty evidence")
  current ← find_task task_id
  approved ← lift (checked (approval_checks current) (approved_task evidence now current))
  store task_id approved

-- `[0-9a-f]{40}` or `[0-9a-f]{64}`
unfoldable pub is_object_id : List ℕ → Bool
is_object_id s =
    not (any (λ c. not ((leb 48 c && leb c 57) || (leb 97 c && leb c 102))) s)
    && (length s == 40 || length s == 64)

-- What git answers in one repository: the commit a revision names, or an error; and ancestry.
pub record Git : Type 0 where
  pub rev_parse : String → Result String
  pub is_ancestor : String → String → Bool

-- The checked ancestry and the transition, at the end of `record_verified_merge`.
unfoldable pub merge_contained :
    Git
    → String
    → ActorRole
    → List String
    → String
    → String
    → String
    → Action Registry EngineeringTaskRecord
unfolding transition_unlocked distinct
merge_contained git task_id actor evidence now candidate latest_main =
    raise_when (not (git.is_ancestor candidate latest_main))
      (permission_error "candidate commit is not contained in latest main")
    >> transition_unlocked task_id merged actor
        (distinct (
          evidence
          ++ (str_append "git-candidate:" candidate ∷ str_append "git-merge:" latest_main ∷ [])))
        now

-- The part of `record_verified_merge` that asks git.
unfoldable pub merge_commit :
    Git → String → String → ActorRole → List String → String → Action Registry EngineeringTaskRecord
unfolding merge_contained
merge_commit git task_id commit actor evidence now = do
  candidate ← lift (git.rev_parse (str_append commit "^{commit}"))
  latest_main ← lift (git.rev_parse "HEAD^{commit}")
  merge_contained git task_id actor evidence now candidate latest_main

unfoldable pub record_verified_merge :
    Git → String → String → ActorRole → List String → String → Action Registry EngineeringTaskRecord
unfolding is_object_id merge_commit
record_verified_merge git task_id commit actor evidence now =
    raise_when (not (contains actor (coordinator ∷ human ∷ [])))
      (permission_error "merged requires coordinator or human authority")
    >> (raise_when (is_empty_command evidence)
          (permission_error "merged requires verifier evidence")
        >> (raise_when (not (is_object_id (codes commit)))
              (permission_error "candidate commit must be a full hexadecimal object ID")
            >> merge_commit git task_id commit actor evidence now))

-- A call that writes the registry, and what it leaves, returned or raised.
pub data RegistryCall : Type 0 where
  call_add : EngineeringTaskRecord → String → RegistryCall
  call_move : String → TaskStatus → ActorRole → List String → String → RegistryCall
  call_approve : String → ActorRole → List String → String → RegistryCall
  call_merge : Git → String → String → ActorRole → List String → String → RegistryCall

unfoldable pub run_call : RegistryCall → Action Registry EngineeringTaskRecord
unfolding add move_task record_human_approval record_verified_merge
run_call (call_add t now) = add t now
run_call (call_move id target actor evidence now) = move_task id target actor evidence now
run_call (call_approve id actor evidence now) = record_human_approval id actor evidence now
run_call (call_merge git id commit actor evidence now) =
    record_verified_merge git id commit actor evidence now

unfoldable pub after_registry_calls : List RegistryCall → Registry → Registry
unfolding run_call
after_registry_calls [] d = d
after_registry_calls (c ∷ cs) d = after_registry_calls cs (run_call c d).1
