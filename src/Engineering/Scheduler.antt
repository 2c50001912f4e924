-- ===== src/Engineering/Scheduler.antt =====
-- `ConservativeTaskScheduler` of src/humanflow/engineering/scheduler.py: which ready tasks run at once.
use humanflow.Engineering.Registry.{Registry, tasks_by_id}
use humanflow.Shared.{
  ℕ, ◌-◌, String, Bool, true, false, not, ◌&&◌, ◌||◌, none, some, List, [], ◌∷◌, ◌++◌, ltb, leb,
  if◌then◌else◌, ◌==◌, nat_instance, string_instance, contains, int_instance, length, any, select,
}
use humanflow.Shared.Text.{codes, codes_instance, starts_with}
use humanflow.Shared.Dict.{Dict, lookup, insert}
use humanflow.Shared.Result.{Result, ok, err, value_error}
use humanflow.Engineering.Tasks.{
  p3, p2, status_instance, p1, verified_statuses, ready, p0, TaskPriority, path_parts,
  EngineeringTaskRecord,
}

-- `PurePosixPath(rule).parts`: a root of one or two slashes, then the parts but empty ones and `.`.
abbrev pub posix_root : List ℕ → List (List ℕ)
posix_root s =
    if starts_with s (codes "///")
    then codes "/" ∷ []
    else if starts_with s (codes "//")
    then codes "//" ∷ []
    else if starts_with s (codes "/")
    then codes "/" ∷ []
    else []

abbrev pub posix_parts : List ℕ → List (List ℕ)
posix_parts s =
    posix_root s ++ select (λ part. not (part == []) && not (part == codes ".")) (path_parts s)

abbrev pub is_glob_char : ℕ → Bool
is_glob_char c = c == 42 || c == 63 || c == 91

-- The parts before the first with a wildcard.
abbrev pub literal_parts : List (List ℕ) → List (List ℕ)
literal_parts [] = []
literal_parts (part ∷ parts) =
    let rest = literal_parts parts in if any is_glob_char part then [] else part ∷ rest

-- `"/".join(parts)`
abbrev pub join_parts : List (List ℕ) → List ℕ
join_parts [] = []
join_parts (part ∷ []) = part
join_parts (part ∷ next ∷ parts) = part ++ (47 ∷ join_parts (next ∷ parts))

-- `s.rstrip("/")`
abbrev pub rstrip_slashes : List ℕ → List ℕ
rstrip_slashes [] = []
rstrip_slashes (c ∷ s) =
    let rest = rstrip_slashes s in if rest == [] && c == 47 then [] else c ∷ rest

-- `_literal_prefix`
unfoldable pub literal_prefix : String → List ℕ
literal_prefix rule = rstrip_slashes (join_parts (literal_parts (posix_parts (codes rule))))

-- `_path_rules_may_overlap`
unfoldable pub path_rules_may_overlap : String → String → Bool
unfolding literal_prefix
path_rules_may_overlap left right =
    let l = literal_prefix left in
    let r = literal_prefix right in
    if l == [] || r == []
    then true
    else l == r || starts_with l (r ++ codes "/") || starts_with r (l ++ codes "/")

abbrev pub is_empty_list : List String → Bool
is_empty_list [] = true
is_empty_list (x ∷ xs) = false

unfoldable pub tasks_conflict : EngineeringTaskRecord → EngineeringTaskRecord → Bool
unfolding path_rules_may_overlap
tasks_conflict left right =
    if left.task_id == right.task_id
    then true
    else if is_empty_list left.allowed_paths || is_empty_list right.allowed_paths
    then true
    else any (λ l. any (λ r. path_rules_may_overlap l r) right.allowed_paths) left.allowed_paths

abbrev pub priority_rank : TaskPriority → ℕ
priority_rank p0 = 0
priority_rank p1 = 1
priority_rank p2 = 2
priority_rank p3 = 3

-- `a <= b` on texts, by code points.
abbrev pub leb_codes : List ℕ → List ℕ → Bool
leb_codes [] b = true
leb_codes (x ∷ a) [] = false
leb_codes (x ∷ a) (y ∷ b) =
    let rest = leb_codes a b in if ltb x y then true else if x == y then rest else false

-- `(task.priority.value, task.task_id)` in order
abbrev pub comes_before : EngineeringTaskRecord → EngineeringTaskRecord → Bool
comes_before s t =
    let p = priority_rank s.priority in
    let q = priority_rank t.priority in
    if p == q then leb_codes (codes s.task_id) (codes t.task_id) else ltb p q

unfoldable pub insert_task :
    EngineeringTaskRecord → List EngineeringTaskRecord → List EngineeringTaskRecord
insert_task t [] = t ∷ []
insert_task t (u ∷ us) =
    let rest = insert_task t us in if comes_before t u then t ∷ u ∷ us else u ∷ rest

-- `sorted(tasks, key=...)`, which keeps the order of equal keys.
unfoldable pub sorted_tasks : List EngineeringTaskRecord → List EngineeringTaskRecord
unfolding insert_task
sorted_tasks [] = []
sorted_tasks (t ∷ ts) = insert_task t (sorted_tasks ts)

unfoldable pub make_scheduler : ℕ → Result ℕ
make_scheduler maximum =
    if leb 1 maximum && leb maximum 3
    then ok maximum
    else err (value_error "initial maximum_parallel_workers must be between 1 and 3")

-- A dependency that is unknown or not verified.
abbrev pub is_unresolved : Registry → String → Bool
is_unresolved by_id dependency = elim (lookup dependency by_id) [
  | none ↦ true
  | some t ↦ not (contains t.status verified_statuses)
]

pub record Planned : Type 0 where
  pub scheduled : List EngineeringTaskRecord
  pub deferred : Dict String

abbrev pub defer : EngineeringTaskRecord → String → Planned → Planned
defer t reason s = record s { deferred = insert t.task_id reason s.deferred }

-- One round of the loop of `plan`.
unfoldable pub plan_task :
    ℕ → Registry → List EngineeringTaskRecord → EngineeringTaskRecord → Planned → Planned
unfolding tasks_conflict
plan_task capacity by_id running t s =
    if not (t.status == ready)
    then defer t "TASK_NOT_READY" s
    else if any (is_unresolved by_id) t.dependencies
    then defer t "DEPENDENCY_NOT_VERIFIED" s
    else if leb capacity (length s.scheduled)
    then defer t "WORKER_LIMIT" s
    else if any (tasks_conflict t) (running ++ s.scheduled)
    then defer t "RESOURCE_CONFLICT" s
    else record s { scheduled = s.scheduled ++ (t ∷ []) }

unfoldable pub plan_tasks :
    ℕ → Registry → List EngineeringTaskRecord → List EngineeringTaskRecord → Planned → Planned
unfolding plan_task
plan_tasks capacity by_id running [] s = s
plan_tasks capacity by_id running (t ∷ ts) s =
    plan_tasks capacity by_id running ts (plan_task capacity by_id running t s)

-- `plan`; the decision names the scheduled tasks by their identifiers.
unfoldable pub plan :
    ℕ
    → List EngineeringTaskRecord
    → List EngineeringTaskRecord
    → List EngineeringTaskRecord
    → Planned
unfolding sorted_tasks plan_tasks tasks_by_id
plan maximum tasks running known_tasks =
    plan_tasks (maximum - length running) (tasks_by_id [] (known_tasks ++ (tasks ++ running)))
      running (sorted_tasks tasks) (record { scheduled = []; deferred = [] })
