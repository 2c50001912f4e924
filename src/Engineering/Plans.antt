-- ===== src/Engineering/Plans.antt =====
-- The promises of src/humanflow/engineering/scheduler.py: the limit of workers, ready tasks with
-- verified dependencies, and no two tasks that conflict.
use humanflow.Engineering.Scheduler.{
  defer, sorted_tasks, is_unresolved, tasks_conflict, Planned, plan_task, plan_tasks, plan,
}
use humanflow.Engineering.Registry.{tasks_by_id, Registry}
use humanflow.Shared.{
  append_step, All-snoc, append_nil, ℕ, ◌-◌, ◌≤◌, String, ◌≡◌, refl, sym, ap, ◌∙◌, ◌⊎◌, inl, inr,
  true, false, List, [], ◌∷◌, ◌++◌, arith, leb, Bool-cases, ◌==◌, nat_instance, string_instance,
  int_instance, All, length, length-append, any,
}
use mathlib.Core.Path.{subst}
use humanflow.Engineering.Tasks.{status_instance, EngineeringTaskRecord, ready}

-- Each task of a list has no conflict with the ones before it, nor with the peers.
abbrev pub Apart : List EngineeringTaskRecord → List EngineeringTaskRecord → Type 0
Apart peers [] = Unit
Apart peers (t ∷ ts) = (any (tasks_conflict t) peers ≡ false) × Apart (peers ++ (t ∷ [])) ts

pub Apart-append :
    (peers ts : List EngineeringTaskRecord) (t : EngineeringTaskRecord)
    → Apart peers ts
    → any (tasks_conflict t) (peers ++ ts) ≡ false
    → Apart peers (ts ++ (t ∷ []))
Apart-append peers [] t h e = (ap (any (tasks_conflict t)) (sym (append_nil peers)) ∙ e, tt)
Apart-append peers (u ∷ us) t h e = (
  h.0,
  Apart-append (peers ++ (u ∷ [])) us t h.1
      (ap (any (tasks_conflict t)) (append_step peers u us) ∙ e),
)

-- A task is ready and its dependencies are verified.
abbrev pub Startable : Registry → EngineeringTaskRecord → Type 0
Startable by_id t = (t.status ≡ ready) × (any (is_unresolved by_id) t.dependencies ≡ false)

pub record IsSafe (capacity : ℕ) (by_id : Registry) (running : List EngineeringTaskRecord)
    (s : Planned) : Type 0 where
  pub limited : length s.scheduled ≤ capacity
  pub startable : All (Startable by_id) s.scheduled
  pub apart : Apart running s.scheduled

added-IsSafe :
    (capacity : ℕ) (by_id : Registry) (running : List EngineeringTaskRecord)
    (t : EngineeringTaskRecord) (s : Planned)
    → IsSafe capacity by_id running s
    → Startable by_id t
    → leb capacity (length s.scheduled) ≡ false
    → any (tasks_conflict t) (running ++ s.scheduled) ≡ false
    → IsSafe capacity by_id running (record s { scheduled = s.scheduled ++ (t ∷ []) })
added-IsSafe capacity by_id running t s h ready_now room free = record {
  limited = ground (arith, length-append s.scheduled (t ∷ []));
  startable = All-snoc (Startable by_id) s.scheduled t h.startable ready_now;
  apart = Apart-append running s.scheduled t h.apart free;
}

-- The outcome of one round: a task deferred, or scheduled after all four tests.
plan_task_cases :
    (capacity : ℕ) (by_id : Registry) (running : List EngineeringTaskRecord)
    (t : EngineeringTaskRecord) (s : Planned)
    → ((reason : String) × (plan_task capacity by_id running t s ≡ defer t reason s))
      ⊎ ((plan_task capacity by_id running t s ≡ record s { scheduled = s.scheduled ++ (t ∷ []) })
          × ((t.status == ready) ≡ true)
          × (any (is_unresolved by_id) t.dependencies ≡ false)
          × (leb capacity (length s.scheduled) ≡ false)
          × (any (tasks_conflict t) (running ++ s.scheduled) ≡ false))
unfolding plan_task
plan_task_cases capacity by_id running t s = elim (Bool-cases (t.status == ready)) [
  | inr idle ↦ rw idle (inl ("TASK_NOT_READY", refl))
  | inl waiting ↦ elim (Bool-cases (any (is_unresolved by_id) t.dependencies)) [
    | inl missing ↦ rw (waiting, missing) (inl ("DEPENDENCY_NOT_VERIFIED", refl))
    | inr met ↦ elim (Bool-cases (leb capacity (length s.scheduled))) [
      | inl full ↦ rw (waiting, met, full) (inl ("WORKER_LIMIT", refl))
      | inr room ↦ elim (Bool-cases (any (tasks_conflict t) (running ++ s.scheduled))) [
        | inl clash ↦ rw (waiting, met, room, clash) (inl ("RESOURCE_CONFLICT", refl))
        | inr free ↦ rw (waiting, met, room, free) (inr (refl, refl, refl, refl, refl))
      ]
    ]
  ]
]

plan_task-IsSafe :
    (capacity : ℕ) (by_id : Registry) (running : List EngineeringTaskRecord)
    (t : EngineeringTaskRecord) (s : Planned)
    → IsSafe capacity by_id running s
    → IsSafe capacity by_id running (plan_task capacity by_id running t s)
plan_task-IsSafe capacity by_id running t s h = elim (plan_task_cases capacity by_id running t s) [
  | inl (reason, e) ↦
      subst (IsSafe capacity by_id running) (sym e)
        (record { limited = h.limited; startable = h.startable; apart = h.apart })
  | inr (e, waiting, met, room, free) ↦ subst (IsSafe capacity by_id running) (sym e) (
      added-IsSafe capacity by_id running t s h
        ((status_instance.same_iff t.status ready).0 waiting, met) room free)
]

pub plan_tasks-IsSafe :
    (capacity : ℕ) (by_id : Registry) (running ts : List EngineeringTaskRecord) (s : Planned)
    → IsSafe capacity by_id running s
    → IsSafe capacity by_id running (plan_tasks capacity by_id running ts s)
unfolding plan_tasks
plan_tasks-IsSafe capacity by_id running [] s h = h
plan_tasks-IsSafe capacity by_id running (t ∷ ts) s h =
    plan_tasks-IsSafe capacity by_id running ts (plan_task capacity by_id running t s)
      (plan_task-IsSafe capacity by_id running t s h)

-- A plan keeps to the limit of workers less the running ones, schedules only ready tasks whose
-- dependencies are known and verified, and no scheduled task conflicts with a running task or with
-- one scheduled before it.
pub plan-IsSafe :
    (maximum : ℕ) (tasks running known_tasks : List EngineeringTaskRecord)
    → IsSafe
        (maximum - length running)
        (tasks_by_id [] (known_tasks ++ (tasks ++ running)))
        running
        (plan maximum tasks running known_tasks)
unfolding plan
plan-IsSafe maximum tasks running known_tasks =
    plan_tasks-IsSafe (maximum - length running)
      (tasks_by_id [] (known_tasks ++ (tasks ++ running))) running (sorted_tasks tasks)
      (record { scheduled = []; deferred = [] })
      (record { limited = omega arith; startable = tt; apart = tt })
