-- ===== src/Engineering/Authority.antt =====
-- Who may move a task of src/humanflow/engineering/registry.py to which status.
use humanflow.Shared.Dict.{insert, lookup}
use humanflow.Shared.Result.{ok, Passes, Result}
use humanflow.Engineering.Calls.{
  record_human_approval-Rewrites, move_task-Rewrites, not-false, Rewrites-map,
  record_verified_merge-Merges, Merges,
}
use humanflow.Engineering.Steps.{Rewrites}
use humanflow.Engineering.Tasks.{
  status_instance, next_statuses, verifier, worker, TaskStatus, human, coordinator, role_instance,
  ActorRole, EngineeringTaskRecord,
}
use humanflow.Engineering.Registry.{
  approval_checks, approved_task, record_verified_merge, transition_checks, record_human_approval,
  move_task, call_approve, call_merge, call_move, call_add, Registry, Git, RegistryCall,
  linked_task, updated_task,
}
use humanflow.Shared.{
  String, ◌≡◌, refl, ap, ◌⊎◌, inl, inr, true, false, not, Option, none, some, List, [], ◌∷◌, arith,
  ◌==◌, nat_instance, string_instance, contains, int_instance,
}

abbrev pub actor_of : RegistryCall → Option ActorRole
actor_of (call_add t now) = none
actor_of (call_move id target actor evidence now) = some actor
actor_of (call_approve id actor evidence now) = some actor
actor_of (call_merge git id commit actor evidence now) = some actor

-- The role or the approval that a status needs.
abbrev pub Gate : Option ActorRole → EngineeringTaskRecord → TaskStatus → Type 0
Gate who t TaskStatus.passed = who ≡ some verifier
Gate who t TaskStatus.task_failed = who ≡ some verifier
Gate who t TaskStatus.merge_candidate = who ≡ some verifier
Gate who t TaskStatus.running = who ≡ some coordinator
Gate who t TaskStatus.released = who ≡ some human
Gate who t TaskStatus.merged = (who ≡ some coordinator) ⊎ (who ≡ some human)
Gate who t TaskStatus.ready = (t.human_approval_required ≡ false) ⊎ (t.human_approved ≡ true)
Gate who t _ = Unit

abbrev pub Authorised : Option ActorRole → EngineeringTaskRecord → TaskStatus → Type 0
Authorised who t target = (contains target (next_statuses t.status) ≡ true) × Gate who t target

-- What a call of somebody may change in a task.
abbrev pub Keeps : Option ActorRole → EngineeringTaskRecord → EngineeringTaskRecord → Type 0
Keeps who t u =
    (u.task_id ≡ t.task_id)
    × ((u.status ≡ t.status) ⊎ Authorised who t u.status)
    × ((u.human_approved ≡ t.human_approved) ⊎ (who ≡ some human))

role_of_guard : (actor role : ActorRole) → not (actor == role) ≡ false → some actor ≡ some role
role_of_guard actor role h = ap some (ground (arith, role_instance.same_iff actor role))

moved-Gate :
    (t : EngineeringTaskRecord) (target : TaskStatus) (actor : ActorRole)
    → (target == TaskStatus.merged) ≡ false
    → Passes (transition_checks t target actor)
    → Gate (some actor) t target
moved-Gate t TaskStatus.passed actor o p = role_of_guard actor verifier p.1.0
moved-Gate t TaskStatus.task_failed actor o p = role_of_guard actor verifier p.1.0
moved-Gate t TaskStatus.merge_candidate actor o p = role_of_guard actor verifier p.1.0
moved-Gate t TaskStatus.running actor o p = role_of_guard actor coordinator p.1.1.1.0
moved-Gate t TaskStatus.released actor o p = role_of_guard actor human p.1.1.0
moved-Gate t TaskStatus.merged actor o p = cc
moved-Gate t TaskStatus.ready actor o p = let approved = p.1.1.1.1.0 in ground arith
moved-Gate t TaskStatus.proposed actor o p = tt
moved-Gate t TaskStatus.triaged actor o p = tt
moved-Gate t TaskStatus.verification actor o p = tt
moved-Gate t TaskStatus.blocked actor o p = tt
moved-Gate t TaskStatus.measured actor o p = tt

trusted-Gate :
    (t : EngineeringTaskRecord) (actor : ActorRole)
    → contains actor (coordinator ∷ human ∷ []) ≡ true
    → Gate (some actor) t TaskStatus.merged
trusted-Gate t coordinator h = inl refl
trusted-Gate t human h = inr refl
trusted-Gate t worker h = cc
trusted-Gate t verifier h = cc

-- The outcome of a call: a new task, or one task changed within the caller's authority.
unfoldable pub Evolves : RegistryCall → Registry → Result EngineeringTaskRecord × Registry → Type 0
unfolding Rewrites
Evolves c d o =
    ((f : EngineeringTaskRecord → EngineeringTaskRecord) × ((id : String) × Rewrites f
          (λ t. Keeps (actor_of c) t (f t)) id d o))
    ⊎ ((t : EngineeringTaskRecord) × ((now : String) × (c ≡ call_add t now)
          × (lookup t.task_id d ≡ none)
          × (o ≡ (ok t, insert t.task_id t d))))

pub move-Evolves :
    (id : String) (target : TaskStatus) (actor : ActorRole) (evidence : List String) (now : String)
    (d : Registry)
    → Evolves (call_move id target actor evidence now) d (move_task id target actor evidence now d)
unfolding Evolves updated_task linked_task
move-Evolves id target actor evidence now d = inl (
  updated_task target evidence now,
  (
    id,
    Rewrites-map (updated_task target evidence now)
        (λ t. ((target == TaskStatus.merged) ≡ false) × Passes (transition_checks t target actor))
        (λ t. Keeps (some actor) t (updated_task target evidence now t)) id d
        (move_task id target actor evidence now d)
        (λ t p. (
          refl,
          inr (
            not-false (contains target (next_statuses t.status)) p.1.0,
            moved-Gate t target actor p.0 p.1,
          ),
          inl refl,
        ))
        (move_task-Rewrites id target actor evidence now d),
  ),
)

pub approve-Evolves :
    (id : String) (actor : ActorRole) (evidence : List String) (now : String) (d : Registry)
    → Evolves (call_approve id actor evidence now) d (record_human_approval id actor evidence now d)
unfolding Evolves linked_task
approve-Evolves id actor evidence now d = inl (
  approved_task evidence now,
  (
    id,
    Rewrites-map (approved_task evidence now)
        (λ t. ((actor == human) ≡ true) × Passes (approval_checks t))
        (λ t. Keeps (some actor) t (approved_task evidence now t)) id d
        (record_human_approval id actor evidence now d)
        (λ t p. (refl, inl refl, inr (ap some (((role_instance.same_iff actor human).0 p.0)))))
        (record_human_approval-Rewrites id actor evidence now d),
  ),
)

pub merge-Evolves :
    (git : Git) (id commit : String) (actor : ActorRole) (evidence : List String) (now : String)
    (d : Registry)
    → Evolves
        (call_merge git id commit actor evidence now)
        d
        (record_verified_merge git id commit actor evidence now d)
unfolding Evolves Merges updated_task linked_task
merge-Evolves git id commit actor evidence now d =
    let (found, h) = record_verified_merge-Merges git id commit actor evidence now d in
    inl (
      updated_task TaskStatus.merged found now,
      (
        id,
        Rewrites-map (updated_task TaskStatus.merged found now)
            (λ t.
              (contains actor (coordinator ∷ human ∷ []) ≡ true)
              × Passes (transition_checks t TaskStatus.merged actor))
            (λ t. Keeps (some actor) t (updated_task TaskStatus.merged found now t)) id d
            (record_verified_merge git id commit actor evidence now d)
            (λ t p. (
              refl,
              inr (
                not-false (contains TaskStatus.merged (next_statuses t.status)) p.1.0,
                trusted-Gate t actor p.0,
              ),
              inl refl,
            ))
            h,
      ),
    )
