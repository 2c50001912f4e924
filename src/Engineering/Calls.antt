-- ===== src/Engineering/Calls.antt =====
-- Each method of `TaskRegistry` (src/humanflow/engineering/registry.py): it raises and changes nothing,
-- or writes one entry under the conditions of its guards.
use humanflow.Shared.Text.{codes, is_blank}
use humanflow.Shared.Result.{Error, value_error, permission_error, checked, err, Passes, Result}
use humanflow.Engineering.Registry.{
  distinct, merge_contained, merge_commit, is_object_id, Git, record_verified_merge, find_task,
  transition_unlocked, store, transition_checks, approval_checks, approved_task, updated_task,
  Registry, record_human_approval, move_task,
}
use humanflow.Engineering.Tasks.{
  coordinator, role_instance, status_instance, is_empty_command, human, merged, ActorRole,
  TaskStatus, EngineeringTaskRecord,
}
use humanflow.Engineering.Steps.{
  checked-store-Rewrites, transition_unlocked-Rewrites, refused-Rewrites, Rewrites,
}
use humanflow.Shared.{
  String, ◌≡◌, refl, inl, inr, Bool, true, false, not, ◌||◌, List, [], ◌∷◌, ◌++◌, ◌==◌,
  nat_instance, string_instance, contains, int_instance, any,
}
use Prim.Native.String.{◌++◌ as str_append}
use humanflow.Shared.Action.{Action, ◌>>=◌, ◌>>◌, lift, raise_when, guarded, lifted}

pub Rewrites-map :
    (f : EngineeringTaskRecord → EngineeringTaskRecord)
    (Given Wanted : EngineeringTaskRecord → Type 0) (id : String) (d : Registry)
    (o : Result EngineeringTaskRecord × Registry)
    → ((t : EngineeringTaskRecord) → Given t → Wanted t)
    → Rewrites f Given id d o
    → Rewrites f Wanted id d o
unfolding Rewrites
Rewrites-map f Given Wanted id d (r, d') g (inl (t, e, a, returned, written, p)) =
    inl (t, e, g t a, returned, written, p)
Rewrites-map f Given Wanted id d (r, d') g (inr h) = inr h

pub move_task-Rewrites :
    (id : String) (target : TaskStatus) (actor : ActorRole) (evidence : List String) (now : String)
    (d : Registry)
    → Rewrites
        (updated_task target evidence now)
        (λ t. ((target == merged) ≡ false) × Passes (transition_checks t target actor))
        id
        d
        (move_task id target actor evidence now d)
unfolding move_task
move_task-Rewrites id target actor evidence now d =
    let Allowed : EngineeringTaskRecord → Type 0 =
      λ t. ((target == merged) ≡ false) × Passes (transition_checks t target actor) in
    let f : EngineeringTaskRecord → EngineeringTaskRecord = updated_task target evidence now in
    guarded (Rewrites f Allowed id d) d (refused-Rewrites f Allowed id d) (target == merged)
      (permission_error "merged requires record_verified_merge")
      (transition_unlocked id target actor evidence now)
      (λ open_target.
        Rewrites-map f (λ t. Passes (transition_checks t target actor)) Allowed id d
          (transition_unlocked id target actor evidence now d) (λ t p. (open_target, p))
          (transition_unlocked-Rewrites id target actor evidence now d))

pub not-false : (b : Bool) → not b ≡ false → b ≡ true
not-false true h = refl
not-false false h = cc

pub record_human_approval-Rewrites :
    (id : String) (actor : ActorRole) (evidence : List String) (now : String) (d : Registry)
    → Rewrites
        (approved_task evidence now)
        (λ t. ((actor == human) ≡ true) × Passes (approval_checks t))
        id
        d
        (record_human_approval id actor evidence now d)
unfolding record_human_approval
record_human_approval-Rewrites id actor evidence now d =
    let Allowed : EngineeringTaskRecord → Type 0 =
      λ t. ((actor == human) ≡ true) × Passes (approval_checks t) in
    let f : EngineeringTaskRecord → EngineeringTaskRecord = approved_task evidence now in
    let change : Action Registry EngineeringTaskRecord =
      find_task id >>= λ t. lift (checked (approval_checks t) (f t)) >>= λ u. store id u in
    guarded (Rewrites f Allowed id d) d (refused-Rewrites f Allowed id d) (not (actor == human))
      (permission_error "human approval requires human authority")
      (raise_when (is_empty_command evidence || any is_blank evidence)
          (value_error "human approval requires non-empty evidence")
        >> change)
      (λ by_human.
        guarded (Rewrites f Allowed id d) d (refused-Rewrites f Allowed id d)
          (is_empty_command evidence || any is_blank evidence)
          (value_error "human approval requires non-empty evidence") change
          (λ _.
            Rewrites-map f (λ t. Passes (approval_checks t)) Allowed id d (change d)
              (λ t p. (not-false (actor == human) by_human, p))
              (checked-store-Rewrites f (λ t. approval_checks t) id d)))

-- A merge writes the two commits into the evidence.
unfoldable pub Merges :
    ActorRole → String → String → Registry → Result EngineeringTaskRecord × Registry → Type 0
unfolding Rewrites
Merges actor now id d o =
    (evidence : List String) × Rewrites (updated_task merged evidence now)
      (λ t.
        (contains actor (coordinator ∷ human ∷ []) ≡ true)
        × Passes (transition_checks t merged actor))
      id d o

refused-Merges :
    (actor : ActorRole) (now id : String) (d : Registry) (x : Error)
    → Merges actor now id d (err x, d)
unfolding Merges
refused-Merges actor now id d x = (
  [],
  refused-Rewrites (updated_task merged [] now)
      (λ t.
        (contains actor (coordinator ∷ human ∷ []) ≡ true)
        × Passes (transition_checks t merged actor))
      id d x,
)

merged-Merges :
    (actor : ActorRole) (now id : String) (d : Registry) (evidence : List String)
    → contains actor (coordinator ∷ human ∷ []) ≡ true
    → Merges actor now id d (transition_unlocked id merged actor evidence now d)
unfolding Merges
merged-Merges actor now id d evidence trusted = (
  evidence,
  Rewrites-map (updated_task merged evidence now) (λ t. Passes (transition_checks t merged actor))
      (λ t.
        (contains actor (coordinator ∷ human ∷ []) ≡ true)
        × Passes (transition_checks t merged actor))
      id d (transition_unlocked id merged actor evidence now d) (λ t p. (trusted, p))
      (transition_unlocked-Rewrites id merged actor evidence now d),
)

merge_contained-Merges :
    (git : Git) (id : String) (actor : ActorRole) (evidence : List String)
    (now candidate latest : String) (d : Registry)
    → contains actor (coordinator ∷ human ∷ []) ≡ true
    → Merges actor now id d (merge_contained git id actor evidence now candidate latest d)
unfolding merge_contained
merge_contained-Merges git id actor evidence now candidate latest d trusted =
    let found : List String =
      distinct (
        evidence
        ++ (str_append "git-candidate:" candidate ∷ str_append "git-merge:" latest ∷ [])) in
    guarded (Merges actor now id d) d (refused-Merges actor now id d)
      (not (git.is_ancestor candidate latest))
      (permission_error "candidate commit is not contained in latest main")
      (transition_unlocked id merged actor found now)
      (λ _. merged-Merges actor now id d found trusted)

merge_commit-Merges :
    (git : Git) (id commit : String) (actor : ActorRole) (evidence : List String) (now : String)
    (d : Registry)
    → contains actor (coordinator ∷ human ∷ []) ≡ true
    → Merges actor now id d (merge_commit git id commit actor evidence now d)
unfolding merge_commit
merge_commit-Merges git id commit actor evidence now d trusted =
    let merge : String → String → Action Registry EngineeringTaskRecord =
      merge_contained git id actor evidence now in
    lifted (Merges actor now id d) d (refused-Merges actor now id d)
      (git.rev_parse (str_append commit "^{commit}"))
      (λ candidate. lift (git.rev_parse "HEAD^{commit}") >>= merge candidate)
      (λ candidate _.
        lifted (Merges actor now id d) d (refused-Merges actor now id d)
          (git.rev_parse "HEAD^{commit}") (merge candidate)
          (λ latest _. merge_contained-Merges git id actor evidence now candidate latest d trusted))

pub record_verified_merge-Merges :
    (git : Git) (id commit : String) (actor : ActorRole) (evidence : List String) (now : String)
    (d : Registry)
    → Merges actor now id d (record_verified_merge git id commit actor evidence now d)
unfolding record_verified_merge
record_verified_merge-Merges git id commit actor evidence now d =
    let merge : Action Registry EngineeringTaskRecord =
      merge_commit git id commit actor evidence now in
    let named : Action Registry EngineeringTaskRecord =
      raise_when (not (is_object_id (codes commit)))
        (permission_error "candidate commit must be a full hexadecimal object ID")
      >> merge in
    guarded (Merges actor now id d) d (refused-Merges actor now id d)
      (not (contains actor (coordinator ∷ human ∷ [])))
      (permission_error "merged requires coordinator or human authority")
      (raise_when (is_empty_command evidence) (permission_error "merged requires verifier evidence")
        >> named)
      (λ trusted.
        guarded (Merges actor now id d) d (refused-Merges actor now id d)
          (is_empty_command evidence) (permission_error "merged requires verifier evidence") named
          (λ _.
            guarded (Merges actor now id d) d (refused-Merges actor now id d)
              (not (is_object_id (codes commit)))
              (permission_error "candidate commit must be a full hexadecimal object ID") merge
              (λ _.
                merge_commit-Merges git id commit actor evidence now d
                  (not-false (contains actor (coordinator ∷ human ∷ [])) trusted))))
