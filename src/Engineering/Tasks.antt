-- ===== src/Engineering/Tasks.antt =====
-- The task records of src/humanflow/engineering/registry.py. The optional times of creation are texts
-- that the caller gives.
use humanflow.Shared.{
  ℕ, String, ◌≡◌, refl, Bool, true, false, not, ◌||◌, Option, List, [], ◌∷◌, ◌++◌, if◌then◌else◌,
  Eq, ◌==◌, nat_instance, string_instance, index_eq, index_eq_iff, contains, int_instance, any,
}
use humanflow.Shared.Text.{codes, codes_instance, is_blank, starts_with}
use humanflow.Shared.Dict.{Dict}
use humanflow.Shared.Result.{Result, Error, value_error, checked}

pub data TaskStatus : Type 0 where
  proposed triaged ready running verification passed : TaskStatus
  task_failed blocked merge_candidate merged released measured : TaskStatus

abbrev pub status_index : TaskStatus → ℕ
status_index proposed = 0
status_index triaged = 1
status_index ready = 2
status_index running = 3
status_index verification = 4
status_index passed = 5
status_index task_failed = 6
status_index blocked = 7
status_index merge_candidate = 8
status_index merged = 9
status_index released = 10
status_index measured = 11

abbrev pub status_at : ℕ → TaskStatus
status_at n =
    if n == 0
    then proposed
    else if n == 1
    then triaged
    else if n == 2
    then ready
    else if n == 3
    then running
    else if n == 4
    then verification
    else if n == 5
    then passed
    else if n == 6
    then task_failed
    else if n == 7
    then blocked
    else if n == 8
    then merge_candidate
    else if n == 9
    then merged
    else if n == 10
    then released
    else measured

pub status_at-status_index : (s : TaskStatus) → status_at (status_index s) ≡ s
status_at-status_index proposed = refl
status_at-status_index _ = refl

instance abbrev pub status_instance : Eq TaskStatus
status_instance = record {
  same = index_eq status_index status_at status_at-status_index;
  same_iff = index_eq_iff status_index status_at status_at-status_index;
}

pub data TaskRisk : Type 0 where
  low medium high critical : TaskRisk

pub data TaskPriority : Type 0 where
  p0 p1 p2 p3 : TaskPriority

pub data ActorRole : Type 0 where
  coordinator worker verifier human : ActorRole

abbrev pub role_index : ActorRole → ℕ
role_index coordinator = 0
role_index worker = 1
role_index verifier = 2
role_index human = 3

abbrev pub role_at : ℕ → ActorRole
role_at n =
    if n == 0 then coordinator else if n == 1 then worker else if n == 2 then verifier else human

pub role_at-role_index : (s : ActorRole) → role_at (role_index s) ≡ s
role_at-role_index coordinator = refl
role_at-role_index _ = refl

instance abbrev pub role_instance : Eq ActorRole
role_instance = record {
  same = index_eq role_index role_at role_at-role_index;
  same_iff = index_eq_iff role_index role_at role_at-role_index;
}

-- `_ALLOWED_TRANSITIONS`
abbrev pub next_statuses : TaskStatus → List TaskStatus
next_statuses proposed = triaged ∷ blocked ∷ []
next_statuses triaged = ready ∷ blocked ∷ []
next_statuses ready = running ∷ blocked ∷ []
next_statuses running = verification ∷ task_failed ∷ blocked ∷ []
next_statuses verification = passed ∷ task_failed ∷ blocked ∷ []
next_statuses passed = merge_candidate ∷ []
next_statuses task_failed = ready ∷ blocked ∷ []
next_statuses blocked = triaged ∷ ready ∷ []
next_statuses merge_candidate = merged ∷ task_failed ∷ []
next_statuses merged = released ∷ []
next_statuses released = measured ∷ task_failed ∷ []
next_statuses measured = []

-- `_VERIFIER_ONLY`
abbrev pub verifier_only : List TaskStatus
verifier_only = passed ∷ task_failed ∷ merge_candidate ∷ []

-- The set of statuses from which `passes` is derived.
-- The statuses from which the supervisor starts another attempt.
abbrev pub retried_statuses : List TaskStatus
retried_statuses = task_failed ∷ blocked ∷ []

abbrev pub verified_statuses : List TaskStatus
verified_statuses = passed ∷ merge_candidate ∷ merged ∷ released ∷ measured ∷ []

pub record EngineeringTaskRecord : Type 0 where
  pub task_id : String
  pub title : String
  pub source : String
  pub priority : TaskPriority
  pub risk : TaskRisk
  pub status : TaskStatus
  pub passes : Bool
  pub problem_fingerprint : Option String
  pub dependencies : List String
  pub allowed_paths : List String
  pub protected_paths : List String
  pub verification : List (List String)
  pub target_metrics : Dict String
  pub evidence_refs : List String
  pub human_approval_required : Bool
  pub human_approved : Bool
  pub created_at_utc : String
  pub updated_at_utc : String

-- The parts between slashes.
abbrev pub path_parts : List ℕ → List (List ℕ)
path_parts [] = [] ∷ []
path_parts (c ∷ s) = elim (path_parts s) [
  | [] ↦ (c ∷ []) ∷ []
  | part ∷ parts ↦ if c == 47 then [] ∷ part ∷ parts else (c ∷ part) ∷ parts
]

-- The test of `_validate_relative_path`: a blank path, an absolute one, or one with a part `..`.
unfoldable pub is_unsafe_path : String → Bool
is_unsafe_path value =
    is_blank value
    || starts_with (codes value) (codes "/")
    || contains (codes "..") (path_parts (codes value))

abbrev pub is_empty_command : List String → Bool
is_empty_command [] = true
is_empty_command (part ∷ parts) = false

-- `a != b`
abbrev pub differ : Bool → Bool → Bool
differ a b = if a then not b else b

-- The checks of `__post_init__`.
abbrev pub task_checks : EngineeringTaskRecord → List (Bool × Error)
task_checks t =
    (
      is_blank t.task_id || is_blank t.title || is_blank t.source,
      value_error "task identity, title and source must not be empty",
    )
    ∷ (
      differ t.passes (contains t.status verified_statuses),
      value_error "passes must be derived from verified task status",
    )
    ∷ (
      any is_unsafe_path (t.allowed_paths ++ t.protected_paths),
      value_error "task path must be a safe repository-relative path",
    )
    ∷ (
      any (λ path. contains path t.protected_paths) t.allowed_paths,
      value_error "allowed_paths and protected_paths must not overlap exactly",
    )
    ∷ (
      any (λ command. is_empty_command command || any is_blank command) t.verification,
      value_error "verification commands must be non-empty argv tuples",
    )
    ∷ []

unfoldable pub make_task : EngineeringTaskRecord → Result EngineeringTaskRecord
make_task t = checked (task_checks t) t
