-- ===== src/Engineering/Governance.antt =====
-- The promises of the registry of src/humanflow/engineering/registry.py, for one call and for any
-- sequence of calls.
use humanflow.Shared.Dict.{lookup-insert, insert, lookup}
use humanflow.Engineering.Invariant.{
  lookup-IsRegistry, run_call-Evolves, insert-IsRegistry, IsMade, IsRegistry,
}
use humanflow.Shared.Result.{Passes, ok, err, Error, Result}
use humanflow.Engineering.Steps.{Rewrites}
use humanflow.Engineering.Authority.{Keeps, actor_of, Evolves}
use humanflow.Engineering.Tasks.{task_checks, status_instance, EngineeringTaskRecord, ActorRole}
use humanflow.Engineering.Registry.{
  tasks_by_id, new_registry, run_call, Registry, RegistryCall, after_registry_calls,
}
use humanflow.Shared.{
  String, ◌≡◌, refl, sym, ap, ◌∙◌, inl, inr, Option, some, List, [], ◌∷◌, arith, eq_iff, Bool-cases,
  ◌==◌, nat_instance, string_instance, int_instance, All, length,
}
use mathlib.Core.Path.{subst}

pub Evolves-IsRegistry :
    (c : RegistryCall) (d : Registry) (o : Result EngineeringTaskRecord × Registry)
    → IsMade c
    → IsRegistry d
    → Evolves c d o
    → IsRegistry o.1
unfolding Evolves Rewrites
Evolves-IsRegistry c d (r, d') m h (inl (f, (id, inl (t, e, k, returned, written, p)))) =
    subst IsRegistry (sym written)
      (insert-IsRegistry id (f t) d (k.0 ∙ (lookup-IsRegistry id t d h e).0) p h)
Evolves-IsRegistry c d (r, d') m h (inl (f, (id, inr (same, raised)))) =
    subst IsRegistry (sym same) h
Evolves-IsRegistry c d o m h (inr (t, (now, call, fresh, e))) =
    let made : Passes (task_checks t) = subst IsMade call m in
    subst (λ x. IsRegistry x.1) (sym e) (insert-IsRegistry t.task_id t d refl made h)

-- From a registry whose tasks are filed once and pass their checks, any calls, returned or raised, keep
-- it so. The tasks that calls add have passed their checks.
after_registry_calls-IsRegistry :
    (cs : List RegistryCall) (d : Registry)
    → All IsMade cs
    → IsRegistry d
    → IsRegistry (after_registry_calls cs d)
unfolding after_registry_calls
after_registry_calls-IsRegistry [] d m h = h
after_registry_calls-IsRegistry (c ∷ cs) d m h =
    after_registry_calls-IsRegistry cs (run_call c d).1 m.1
      (Evolves-IsRegistry c d (run_call c d) m.0 h (run_call-Evolves c d h))

tasks_by_id-IsRegistry :
    (ts : List EngineeringTaskRecord) (d : Registry)
    → All (λ t. Passes (task_checks t)) ts
    → IsRegistry d
    → IsRegistry (tasks_by_id d ts)
unfolding tasks_by_id
tasks_by_id-IsRegistry [] d p h = h
tasks_by_id-IsRegistry (t ∷ ts) d p h =
    tasks_by_id-IsRegistry ts (insert t.task_id t d) p.1
      (insert-IsRegistry t.task_id t d refl p.0 h)

new_registry-IsRegistry :
    (ts : List EngineeringTaskRecord) (d : Registry)
    → All (λ t. Passes (task_checks t)) ts
    → new_registry ts ≡ ok d
    → IsRegistry d
unfolding new_registry
new_registry-IsRegistry ts d p e = elim (Bool-cases (length (tasks_by_id [] ts) == length ts)) [
  | inl distinct ↦
      let q : tasks_by_id [] ts ≡ d = ground arith in
      subst IsRegistry q (tasks_by_id-IsRegistry ts [] p tt)
  | inr twice ↦ ground arith
]

-- In a registry that is made of tasks that have passed their checks, after any calls, returned or
-- raised, each task is filed once, under its own identifier, and passes its own checks: `passes` is set
-- exactly in the verified statuses, and the paths are safe. The tasks that calls add have passed
-- their checks.
pub after_registry_calls-new_registry :
    (ts : List EngineeringTaskRecord) (cs : List RegistryCall) (d : Registry)
    → All (λ t. Passes (task_checks t)) ts
    → new_registry ts ≡ ok d
    → All IsMade cs
    → IsRegistry (after_registry_calls cs d)
after_registry_calls-new_registry ts cs d p e m =
    after_registry_calls-IsRegistry cs d m (new_registry-IsRegistry ts d p e)

Keeps-refl : (who : Option ActorRole) (t : EngineeringTaskRecord) → Keeps who t t
Keeps-refl who t = (refl, inl refl, inl refl)

inserted-Keeps :
    (who : Option ActorRole) (f : EngineeringTaskRecord → EngineeringTaskRecord) (id j : String)
    (s t : EngineeringTaskRecord) (d : Registry)
    → lookup id d ≡ some s
    → Keeps who s (f s)
    → lookup j d ≡ some t
    → (u : EngineeringTaskRecord) × (lookup j (insert id (f s) d) ≡ some u) × Keeps who t u
inserted-Keeps who f id j s t d known kept e = elim (Bool-cases (id == j)) [
  | inl same ↦
      let q : s ≡ t = ground (arith, eq_iff id j) in
      (f s, lookup-insert id j (f s) d ∙ rw same refl, subst (λ v. Keeps who v (f s)) q kept)
  | inr other ↦ (t, lookup-insert id j (f s) d ∙ rw other e, Keeps-refl who t)
]

Evolves-Keeps :
    (c : RegistryCall) (d : Registry) (o : Result EngineeringTaskRecord × Registry) (j : String)
    (t : EngineeringTaskRecord)
    → Evolves c d o
    → lookup j d ≡ some t
    → (u : EngineeringTaskRecord) × (lookup j o.1 ≡ some u) × Keeps (actor_of c) t u
unfolding Evolves Rewrites
Evolves-Keeps c d (r, d') j t (inl (f, (id, inl (s, known, kept, returned, written, p)))) e =
    subst (λ x. (u : EngineeringTaskRecord) × (lookup j x ≡ some u) × Keeps (actor_of c) t u)
      (sym written) (inserted-Keeps (actor_of c) f id j s t d known kept e)
Evolves-Keeps c d (r, d') j t (inl (f, (id, inr (same, raised)))) e =
    (t, ap (lookup j) same ∙ e, Keeps-refl (actor_of c) t)
Evolves-Keeps c d o j t (inr (s, (now, call, fresh, q))) e = (
  t,
  ap (λ x. lookup j x.1) q ∙ (lookup-insert s.task_id j s d ∙ ground (arith, eq_iff s.task_id j)),
  Keeps-refl (actor_of c) t,
)

-- On a registry whose tasks are filed once and pass their checks, every call, returned or raised,
-- keeps each task on file under its identifier. Its status changes only along the table of
-- transitions and with the role the new status needs: a verifier for passed, failed and merge
-- candidate, the coordinator for running, a human for released, one of coordinator and human for
-- merged, and for ready the approval where one is required. Only a human's call changes the approval.
pub run_call-Keeps :
    (c : RegistryCall) (d : Registry) (j : String) (t : EngineeringTaskRecord)
    → IsRegistry d
    → lookup j d ≡ some t
    → (u : EngineeringTaskRecord) × (lookup j (run_call c d).1 ≡ some u) × Keeps (actor_of c) t u
run_call-Keeps c d j t h e = Evolves-Keeps c d (run_call c d) j t (run_call-Evolves c d h) e

Evolves-raise :
    (c : RegistryCall) (d : Registry) (o : Result EngineeringTaskRecord × Registry) (x : Error)
    → Evolves c d o
    → o.0 ≡ err x
    → o.1 ≡ d
unfolding Evolves Rewrites
Evolves-raise c d (r, d') x (inl (f, (id, inl (t, e, k, returned, written, p)))) h = cc
Evolves-raise c d (r, d') x (inl (f, (id, inr (same, raised)))) h = same
Evolves-raise c d o x (inr (t, (now, call, fresh, e))) h =
    let q : o.0 ≡ ok t = ap (λ p. p.0) e in cc

-- A call of the registry that raises leaves the registry as it was, where its tasks are filed once and
-- pass their checks.
pub run_call_raise :
    (c : RegistryCall) (d : Registry) (x : Error)
    → IsRegistry d
    → (run_call c d).0 ≡ err x
    → (run_call c d).1 ≡ d
run_call_raise c d x h e = Evolves-raise c d (run_call c d) x (run_call-Evolves c d h) e
