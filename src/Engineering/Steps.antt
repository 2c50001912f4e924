-- ===== src/Engineering/Steps.antt =====
-- What each call of src/humanflow/engineering/registry.py leaves: the registry as it was, or one
-- entry written.
use humanflow.Shared.Dict.{insert, lookup}
use humanflow.Shared.Result.{
  checked_cases, err, Passes-of_ok, key_error, checked, Passes, Result-cases, ok, Result, Error,
}
use humanflow.Engineering.Tasks.{
  role_instance, ActorRole, TaskStatus, task_checks, make_task, EngineeringTaskRecord,
}
use humanflow.Shared.{
  String, ◌≡◌, refl, sym, ap, ◌⊎◌, inl, inr, Bool, none, some, List, arith, Option-cases,
  nat_instance, string_instance, int_instance,
}
use humanflow.Shared.Action.{◌>>=◌, lift, bind_ok, bind_err}
use mathlib.Core.Path.{subst}
use humanflow.Engineering.Registry.{
  transition_checks, updated_task, transition_unlocked, store, find_task, Registry,
}

-- A write of `store` has passed the record's own checks; a refused one changes nothing.
pub Stored :
    String → EngineeringTaskRecord → Registry → Result EngineeringTaskRecord × Registry → Type 0
Stored id t d (r, d') =
    ((r ≡ ok t) × (d' ≡ insert id t d) × Passes (task_checks t))
    ⊎ ((d' ≡ d) × ((x : Error) × (r ≡ err x)))

pub store-Stored :
    (id : String) (t : EngineeringTaskRecord) (d : Registry) → Stored id t d (store id t d)
unfolding store make_task Stored
store-Stored id t d = elim (Result-cases (checked (task_checks t) t)) [
  | inl (made, e) ↦
      let (p, same) = Passes-of_ok (task_checks t) t made e in
      rw e (inl (ap ok (sym same), ap (λ x. insert id x d) (sym same), p))
  | inr (x, e) ↦ rw e (inr (refl, (x, refl)))
]

-- A call either raises and changes nothing, or stores a version of a known task.
unfoldable pub Rewrites :
    (EngineeringTaskRecord → EngineeringTaskRecord)
    → (EngineeringTaskRecord → Type 0)
    → String
    → Registry
    → Result EngineeringTaskRecord × Registry
    → Type 0
Rewrites f Allowed id d (r, d') =
    ((t : EngineeringTaskRecord) × (lookup id d ≡ some t)
      × Allowed t
      × (r ≡ ok (f t))
      × (d' ≡ insert id (f t) d)
      × Passes (task_checks (f t)))
    ⊎ ((d' ≡ d) × ((x : Error) × (r ≡ err x)))

pub Stored-Rewrites :
    (f : EngineeringTaskRecord → EngineeringTaskRecord) (Allowed : EngineeringTaskRecord → Type 0)
    (id : String) (t : EngineeringTaskRecord) (d : Registry)
    (o : Result EngineeringTaskRecord × Registry)
    → lookup id d ≡ some t
    → Allowed t
    → Stored id (f t) d o
    → Rewrites f Allowed id d o
unfolding Stored Rewrites
Stored-Rewrites f Allowed id t d (r, d') e a (inl (returned, written, p)) =
    inl (t, e, a, returned, written, p)
Stored-Rewrites f Allowed id t d (r, d') e a (inr h) = inr h

find_task_unknown :
    (id : String) (d : Registry) → lookup id d ≡ none → find_task id d ≡ (err key_error, d)
unfolding find_task
find_task_unknown id d h = ground arith

find_task_known :
    (id : String) (t : EngineeringTaskRecord) (d : Registry)
    → lookup id d ≡ some t
    → find_task id d ≡ (ok t, d)
unfolding find_task
find_task_known id t d h = ground arith

pub refused-Rewrites :
    (f : EngineeringTaskRecord → EngineeringTaskRecord) (Allowed : EngineeringTaskRecord → Type 0)
    (id : String) (d : Registry) (x : Error)
    → Rewrites f Allowed id d (err x, d)
unfolding Rewrites
refused-Rewrites f Allowed id d x = inr (refl, (x, refl))

-- Check a known task, and store its new version.
replace-Rewrites :
    (f : EngineeringTaskRecord → EngineeringTaskRecord)
    (checks : EngineeringTaskRecord → List (Bool × Error)) (id : String) (t : EngineeringTaskRecord)
    (d : Registry)
    → lookup id d ≡ some t
    → Rewrites f
        (λ u. Passes (checks u))
        id
        d
        ((lift (checked (checks t) (f t)) >>= λ u. store id u) d)
replace-Rewrites f checks id t d known = elim (checked_cases (checks t) (f t)) [
  | inl e ↦
      let (p, same) = Passes-of_ok (checks t) (f t) (f t) e in
      subst (Rewrites f (λ u. Passes (checks u)) id d)
        (sym (
          bind_ok (lift (checked (checks t) (f t))) (λ u. store id u) d d (f t)
            (ap (λ r. (r, d)) e)))
        (Stored-Rewrites f (λ u. Passes (checks u)) id t d (store id (f t) d) known p
          (store-Stored id (f t) d))
  | inr (x, e) ↦
      subst (Rewrites f (λ u. Passes (checks u)) id d)
        (sym
          (bind_err (lift (checked (checks t) (f t))) (λ u. store id u) d d x (ap (λ r. (r, d)) e)))
        (refused-Rewrites f (λ u. Passes (checks u)) id d x)
]

-- Look a task up, check it, and store its new version.
pub checked-store-Rewrites :
    (f : EngineeringTaskRecord → EngineeringTaskRecord)
    (checks : EngineeringTaskRecord → List (Bool × Error)) (id : String) (d : Registry)
    → Rewrites f
        (λ t. Passes (checks t))
        id
        d
        ((find_task id >>= λ t. lift (checked (checks t) (f t)) >>= λ u. store id u) d)
checked-store-Rewrites f checks id d = elim (Option-cases (lookup id d)) [
  | inl unknown ↦
      subst (Rewrites f (λ t. Passes (checks t)) id d)
        (sym (
          bind_err (find_task id) (λ t. lift (checked (checks t) (f t)) >>= λ u. store id u) d d
            key_error (find_task_unknown id d unknown)))
        (refused-Rewrites f (λ t. Passes (checks t)) id d key_error)
  | inr (t, known) ↦
      subst (Rewrites f (λ u. Passes (checks u)) id d)
        (sym (
          bind_ok (find_task id) (λ u. lift (checked (checks u) (f u)) >>= λ v. store id v) d d t
            (find_task_known id t d known)))
        (replace-Rewrites f checks id t d known)
]

pub transition_unlocked-Rewrites :
    (id : String) (target : TaskStatus) (actor : ActorRole) (evidence : List String) (now : String)
    (d : Registry)
    → Rewrites
        (updated_task target evidence now)
        (λ t. Passes (transition_checks t target actor))
        id
        d
        (transition_unlocked id target actor evidence now d)
unfolding transition_unlocked
transition_unlocked-Rewrites id target actor evidence now d =
    checked-store-Rewrites (updated_task target evidence now)
      (λ t. transition_checks t target actor) id d
