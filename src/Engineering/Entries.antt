-- ===== src/Engineering/Entries.antt =====
-- Through which calls of src/humanflow/engineering/registry.py a task comes into guarded statuses.
use humanflow.Engineering.Governance.{Evolves-IsRegistry, run_call_raise, run_call-Keeps}
use humanflow.Shared.Dict.{lookup}
use humanflow.Engineering.Invariant.{run_call-Evolves, IsMade, IsRegistry}
use humanflow.Shared.Result.{ok}
use humanflow.Engineering.Authority.{Authorised, actor_of}
use humanflow.Engineering.Tasks.{
  next_statuses, human, status_instance, EngineeringTaskRecord, TaskStatus, verified_statuses,
  verifier, ActorRole,
}
use humanflow.Engineering.Registry.{run_call, Registry, RegistryCall, after_registry_calls}
use humanflow.Shared.Result.{Result-cases}
use humanflow.Shared.{
  both, String, ◌≡◌, refl, ap, ◌∙◌, ◌⊎◌, inl, inr, true, false, Option, some, List, [], ◌∷◌, arith,
  Bool-cases, nat_instance, string_instance, contains, int_instance, All,
}

-- The call is made in a role, returns, and brings the task from outside a set of statuses into it.
pub record Enters (role : ActorRole) (inside : List TaskStatus) (j : String) (c : RegistryCall)
    (d : Registry) : Type 0 where
  pub called : actor_of c ≡ some role
  pub answer : EngineeringTaskRecord
  pub returned : (run_call c d).0 ≡ ok answer
  pub old : EngineeringTaskRecord
  pub known : lookup j d ≡ some old
  pub outside : contains old.status inside ≡ false
  pub new : EngineeringTaskRecord
  pub filed : lookup j (run_call c d).1 ≡ some new
  pub entered : contains new.status inside ≡ true

-- One of the calls, made on the registry that the calls before it leave, brings the task into the set.
abbrev pub EnteredBy : ActorRole → List TaskStatus → String → List RegistryCall → Registry → Type 0
EnteredBy role inside j [] d = ⊥
EnteredBy role inside j (c ∷ cs) d =
    Enters role inside j c d ⊎ EnteredBy role inside j cs (run_call c d).1

-- A role guards the way into a set of statuses.
abbrev pub Guards : ActorRole → List TaskStatus → Type 0
Guards role inside =
    (who : Option ActorRole) (t : EngineeringTaskRecord) (target : TaskStatus)
    → Authorised who t target
    → contains t.status inside ≡ false
    → contains target inside ≡ true
    → who ≡ some role

merged_source :
    (s : TaskStatus)
    → contains TaskStatus.merged (next_statuses s) ≡ true
    → contains s verified_statuses ≡ true
merged_source TaskStatus.merge_candidate h = refl
merged_source _ h = cc

released_source :
    (s : TaskStatus)
    → contains TaskStatus.released (next_statuses s) ≡ true
    → contains s verified_statuses ≡ true
released_source TaskStatus.merged h = refl
released_source _ h = cc

measured_source :
    (s : TaskStatus)
    → contains TaskStatus.measured (next_statuses s) ≡ true
    → s ≡ TaskStatus.released
measured_source TaskStatus.released h = refl
measured_source _ h = cc

verifier-Guards : Guards verifier verified_statuses
verifier-Guards who t TaskStatus.passed a o i = a.1
verifier-Guards who t TaskStatus.merge_candidate a o i = a.1
verifier-Guards who t TaskStatus.merged a o i = let p = merged_source t.status a.0 in cc
verifier-Guards who t TaskStatus.released a o i = let p = released_source t.status a.0 in cc
verifier-Guards who t TaskStatus.measured a o i =
    let p = ap (λ s. contains s verified_statuses) (measured_source t.status a.0) in cc
verifier-Guards who t _ a o i = cc

abbrev pub shipped_statuses : List TaskStatus
shipped_statuses = TaskStatus.released ∷ TaskStatus.measured ∷ []

human-Guards : Guards human shipped_statuses
human-Guards who t TaskStatus.released a o i = a.1
human-Guards who t TaskStatus.measured a o i =
    let p = ap (λ s. contains s shipped_statuses) (measured_source t.status a.0) in cc
human-Guards who t _ a o i = cc

-- A call that changes whether a task is in the set returned.
call_returned :
    (c : RegistryCall) (d : Registry) (j : String) (t v : EngineeringTaskRecord)
    (inside : List TaskStatus)
    → IsRegistry d
    → lookup j d ≡ some t
    → contains t.status inside ≡ false
    → lookup j (run_call c d).1 ≡ some v
    → contains v.status inside ≡ true
    → (r : EngineeringTaskRecord) × ((run_call c d).0 ≡ ok r)
call_returned c d j t v inside h e o f i = elim (Result-cases (run_call c d).0) [
  | inl returned ↦ returned
  | inr (x, raised) ↦
      let kept : lookup j (run_call c d).1 ≡ lookup j d =
        ap (lookup j) (run_call_raise c d x h raised) in
      let q : t ≡ v = cc in
      both (ap (λ (u : EngineeringTaskRecord). contains u.status inside) q ∙ i) o
]

guarded_calls :
    (role : ActorRole) (inside : List TaskStatus)
    → Guards role inside
    → (cs : List RegistryCall) (d : Registry) (j : String) (t u : EngineeringTaskRecord)
    → All IsMade cs
    → IsRegistry d
    → lookup j d ≡ some t
    → contains t.status inside ≡ false
    → lookup j (after_registry_calls cs d) ≡ some u
    → contains u.status inside ≡ true
    → EnteredBy role inside j cs d
unfolding after_registry_calls
guarded_calls role inside g [] d j t u m h e o f i =
    let q : t ≡ u = ground arith in
    let p = ap (λ (v : EngineeringTaskRecord). contains v.status inside) q in cc
guarded_calls role inside g (c ∷ cs) d j t u m h e o f i =
    let (v, known, kept) = run_call-Keeps c d j t h e in
    elim (Bool-cases (contains v.status inside)) [
      | inr still ↦ inr (
          guarded_calls role inside g cs (run_call c d).1 j v u m.1
            (Evolves-IsRegistry c d (run_call c d) m.0 h (run_call-Evolves c d h)) known still f i)
      | inl entered ↦
          let (r, returned) = call_returned c d j t v inside h e o known entered in
          inl (record {
            called = elim kept.1 [
              | inl same ↦ let p = ap (λ s. contains s inside) same in cc
              | inr a ↦ g (actor_of c) t v.status a o entered
            ];
            answer = r;
            returned = returned;
            old = t;
            known = e;
            outside = o;
            new = v;
            filed = known;
            entered = entered;
          })
    ]

-- From a registry whose tasks are filed once and pass their checks, a task that was not verified and is
-- in a verified status after some calls, passed, merge candidate, merged, released or measured, came
-- from outside these statuses into them through one of the calls, made by a verifier, which returned.
-- The tasks that calls add have passed their checks.
pub verified-EnteredBy :
    (cs : List RegistryCall) (d : Registry) (j : String) (t u : EngineeringTaskRecord)
    → All IsMade cs
    → IsRegistry d
    → lookup j d ≡ some t
    → contains t.status verified_statuses ≡ false
    → lookup j (after_registry_calls cs d) ≡ some u
    → contains u.status verified_statuses ≡ true
    → EnteredBy verifier verified_statuses j cs d
verified-EnteredBy = guarded_calls verifier verified_statuses verifier-Guards

-- From a registry whose tasks are filed once and pass their checks, a task that was neither released nor
-- measured and is one of them after some calls came from outside these statuses into them through one
-- of the calls, made by a human, which returned. The tasks that calls add have passed their checks.
pub shipped-EnteredBy :
    (cs : List RegistryCall) (d : Registry) (j : String) (t u : EngineeringTaskRecord)
    → All IsMade cs
    → IsRegistry d
    → lookup j d ≡ some t
    → contains t.status shipped_statuses ≡ false
    → lookup j (after_registry_calls cs d) ≡ some u
    → contains u.status shipped_statuses ≡ true
    → EnteredBy human shipped_statuses j cs d
shipped-EnteredBy = guarded_calls human shipped_statuses human-Guards
