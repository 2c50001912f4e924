-- ===== src/Engineering/Invariant.antt =====
-- The invariant of the registry of src/humanflow/engineering/registry.py, and what every call leaves of
-- it and of the tasks.
use humanflow.Engineering.Steps.{store-Stored, Stored-Rewrites, refused-Rewrites}
use humanflow.Engineering.Authority.{merge-Evolves, approve-Evolves, move-Evolves, Keeps, Evolves}
use humanflow.Shared.Result.{value_error, err, ok, Passes}
use humanflow.Engineering.Tasks.{task_checks, EngineeringTaskRecord}
use humanflow.Engineering.Registry.{
  call_merge, call_approve, call_move, store, linked_task, call_add, run_call, RegistryCall, add,
  has_fingerprint, duplicate_of, Registry, find_duplicate,
}
use humanflow.Shared.Dict.{lookup-insert, insert, lookup}
use humanflow.Shared.{
  String, ◌≡◌, refl, sym, ◌∙◌, inl, inr, false, none, some, [], ◌∷◌, arith, eq_iff, Bool-cases,
  Option-cases, ◌==◌, nat_instance, string_instance, int_instance,
}
use mathlib.Core.Path.{subst}

-- Every task is filed once, under its own identifier, and passes its checks.
abbrev pub IsRegistry : Registry → Type 0
IsRegistry [] = Unit
IsRegistry ((k, t) ∷ d) =
    (t.task_id ≡ k) × Passes (task_checks t) × (lookup k d ≡ none) × IsRegistry d

pub lookup-IsRegistry :
    (k : String) (t : EngineeringTaskRecord) (d : Registry)
    → IsRegistry d
    → lookup k d ≡ some t
    → (t.task_id ≡ k) × Passes (task_checks t)
unfolding lookup
lookup-IsRegistry k t [] h e = cc
lookup-IsRegistry k t ((j, u) ∷ d) h e = elim (Bool-cases (j == k)) [
  | inl same ↦
      let q : u ≡ t = ground arith in
      let i : j ≡ k = (string_instance.same_iff j k).0 same in
      subst (λ v. (v.task_id ≡ k) × Passes (task_checks v)) q (h.0 ∙ i, h.1)
  | inr other ↦ lookup-IsRegistry k t d h.3 (rw other at e)
]

absent :
    (k j : String) (t : EngineeringTaskRecord) (d : Registry)
    → (j == k) ≡ false
    → lookup j d ≡ none
    → lookup j (insert k t d) ≡ none
absent k j t d o e = ground (arith, lookup-insert k j t d, eq_iff k j, eq_iff j k)

found_head :
    (j : String) (u t : EngineeringTaskRecord) (d : Registry)
    → u.task_id ≡ j
    → u ≡ t
    → lookup t.task_id ((j, u) ∷ d) ≡ some t
unfolding lookup
found_head j u t d e q =
    subst (λ v. lookup v.task_id ((j, u) ∷ d) ≡ some v) q
      (rw ((string_instance.same_iff j u.task_id).1 (sym e)) refl)

found_tail :
    (j : String) (u t : EngineeringTaskRecord) (d : Registry)
    → lookup j d ≡ none
    → lookup t.task_id d ≡ some t
    → lookup t.task_id ((j, u) ∷ d) ≡ some t
unfolding lookup
found_tail j u t d e q = elim (Bool-cases (j == t.task_id)) [
  | inl same ↦ let i : j ≡ t.task_id = (string_instance.same_iff j t.task_id).0 same in cc
  | inr other ↦ rw other q
]

pub insert-IsRegistry :
    (k : String) (t : EngineeringTaskRecord) (d : Registry)
    → t.task_id ≡ k
    → Passes (task_checks t)
    → IsRegistry d
    → IsRegistry (insert k t d)
unfolding insert lookup
insert-IsRegistry k t [] e p h = (e, p, refl, tt)
insert-IsRegistry k t ((j, u) ∷ d) e p h = elim (Bool-cases (j == k)) [
  | inl same ↦ rw same (e ∙ sym ((string_instance.same_iff j k).0 same), p, h.2, h.3)
  | inr other ↦ rw other (h.0, h.1, absent k j t d other h.2, insert-IsRegistry k t d e p h.3)
]

find_duplicate-lookup :
    (print : String) (t : EngineeringTaskRecord) (d : Registry)
    → IsRegistry d
    → find_duplicate print d ≡ some t
    → lookup t.task_id d ≡ some t
unfolding find_duplicate lookup
find_duplicate-lookup print t [] h e = cc
find_duplicate-lookup print t ((j, u) ∷ d) h e = elim (Bool-cases (has_fingerprint print u)) [
  | inl found ↦ found_head j u t d h.0 (ground arith)
  | inr other ↦ found_tail j u t d h.2 (find_duplicate-lookup print t d h.3 (rw other at e))
]

duplicate_of-lookup :
    (task t : EngineeringTaskRecord) (d : Registry)
    → IsRegistry d
    → duplicate_of task d ≡ some t
    → lookup t.task_id d ≡ some t
unfolding duplicate_of
duplicate_of-lookup task t d h e = elim (Option-cases task.problem_fingerprint) [
  | inl missing ↦ absurd (ground arith)
  | inr (print, given) ↦ find_duplicate-lookup print t d h (ground arith)
]

-- A call that adds a task is given one that has passed its own checks.
abbrev pub IsMade : RegistryCall → Type 0
IsMade (call_add t now) = Passes (task_checks t)
IsMade (call_move id target actor evidence now) = Unit
IsMade (call_approve id actor evidence now) = Unit
IsMade (call_merge git id commit actor evidence now) = Unit

add_new :
    (task : EngineeringTaskRecord) (now : String) (d : Registry)
    → lookup task.task_id d ≡ none
    → duplicate_of task d ≡ none
    → add task now d ≡ (ok task, insert task.task_id task d)
unfolding add
add_new task now d e f = ground arith

add_known :
    (task t : EngineeringTaskRecord) (now : String) (d : Registry)
    → lookup task.task_id d ≡ some t
    → add task now d ≡ (err (value_error "duplicate task_id"), d)
unfolding add
add_known task t now d e = ground arith

add_linked :
    (task t : EngineeringTaskRecord) (now : String) (d : Registry)
    → lookup task.task_id d ≡ none
    → duplicate_of task d ≡ some t
    → add task now d ≡ store t.task_id (linked_task task.evidence_refs now t) d
unfolding add
add_linked task t now d e f = ground arith

add-Evolves :
    (task : EngineeringTaskRecord) (now : String) (d : Registry)
    → IsRegistry d
    → Evolves (call_add task now) d (add task now d)
unfolding Evolves linked_task
add-Evolves task now d h =
    let f : EngineeringTaskRecord → EngineeringTaskRecord = linked_task task.evidence_refs now in
    elim (Option-cases (lookup task.task_id d)) [
      | inr (t, known) ↦
          subst (Evolves (call_add task now) d) (sym (add_known task t now d known)) (
            inl (
              f,
              (
                task.task_id,
                refused-Rewrites f (λ t. Keeps none t (f t)) task.task_id d
                    (value_error "duplicate task_id"),
              ),
            ))
      | inl fresh ↦ elim (Option-cases (duplicate_of task d)) [
        | inl single ↦ inr (task, (now, refl, fresh, add_new task now d fresh single))
        | inr (t, twin) ↦
            subst (Evolves (call_add task now) d) (sym (add_linked task t now d fresh twin)) (
              inl (
                f,
                (
                  t.task_id,
                  Stored-Rewrites f (λ u. Keeps none u (f u)) t.task_id t d
                      (store t.task_id (f t) d) (duplicate_of-lookup task t d h twin)
                      (refl, inl refl, inl refl) (store-Stored t.task_id (f t) d),
                ),
              ))
      ]
    ]

pub run_call-Evolves : (c : RegistryCall) (d : Registry) → IsRegistry d → Evolves c d (run_call c d)
unfolding run_call
run_call-Evolves (call_add t now) d h = add-Evolves t now d h
run_call-Evolves (call_move id target actor evidence now) d h =
    move-Evolves id target actor evidence now d
run_call-Evolves (call_approve id actor evidence now) d h = approve-Evolves id actor evidence now d
run_call-Evolves (call_merge git id commit actor evidence now) d h =
    merge-Evolves git id commit actor evidence now d
