-- ===== src/Controller/Staleness.antt =====
-- Late results in src/humanflow/controller/state_machine.py: tokens and the invalidations since their
-- issue.
use humanflow.Shared.Result.{Passes-of_ok, ok}
use humanflow.Controller.Outcome.{
  accept_result_value, IsSound, accept_result_state, moved, emit_cases,
}
use humanflow.Shared.{
  ap, pos, eq_iff, ℕ, suc, ◌+◌, String, ◌≡◌, refl, ◌∙◌, inl, inr, List, [], ◌∷◌, arith, ◌==◌,
  nat_instance, string_instance, int_instance,
}
use humanflow.Controller.Machine.{
  stale_details, transition_details, emit, is_current, after_call, append_event, Machine, Tick,
  Call, after_calls, issue_operation, accept_result,
}
use humanflow.Conversation.{token_checks, make_token, OperationToken}
use humanflow.Telemetry.Event.{
  stale_result_rejected, operation_invalidated, state_transitioned, EventType,
}
use humanflow.Telemetry.Payload.{Fields}

-- How often operations are invalidated in a list of calls, returned or raised.
unfoldable pub invalidation_calls : List Call → ℕ
invalidation_calls [] = 0
invalidation_calls (Call.call_invalidate r c k ∷ cs) = suc (invalidation_calls cs)
invalidation_calls (Call.call_transition t r c p k ∷ cs) = invalidation_calls cs
invalidation_calls (Call.call_issue kind k ∷ cs) = invalidation_calls cs
invalidation_calls (Call.call_accept token c k ∷ cs) = invalidation_calls cs
invalidation_calls (Call.call_record e r c p k ∷ cs) = invalidation_calls cs

abbrev Keeps : Machine → ℕ → Machine → Type 0
Keeps m n m' =
    (m'.operation_epoch ≡ m.operation_epoch + n) × (m'.conversation_id ≡ m.conversation_id)

emit-Keeps :
    (t : EventType) (c r : String) (p : Fields) (k : Tick) (m : Machine)
    → Keeps m 0 (emit t c r p k m).1
unfolding append_event
emit-Keeps t c r p k m = elim (emit_cases t c r p k m) [
  | inl e ↦ rw e (omega arith, refl)
  | inr (x, e) ↦ rw e (omega arith, refl)
]

after_call-Keeps : (c : Call) (m : Machine) → Keeps m (invalidation_calls (c ∷ [])) (after_call c m)
unfolding after_call invalidation_calls
after_call-Keeps (Call.call_transition t r c p k) m = ground (
  arith,
  emit-Keeps state_transitioned c r
      (transition_details m.state t (m.revision + 1) m.operation_epoch p) k (moved t m),
)
after_call-Keeps (Call.call_issue kind k) m = (omega arith, refl)
after_call-Keeps (Call.call_invalidate r c k) m =
    let (e, i) = emit-Keeps operation_invalidated c r _ k _ in (omega arith, i)
after_call-Keeps (Call.call_accept token c k) m =
    rw (accept_result_state token c k m, after_call)
      (ground (
        arith,
        emit-Keeps stale_result_rejected c "operation_epoch_mismatch" (stale_details token m) k m,
      ))
after_call-Keeps (Call.call_record e r c p k) m = ground (arith, emit-Keeps e c r p k m)

invalidation_calls-cons :
    (c : Call) (cs : List Call)
    → invalidation_calls (c ∷ cs) ≡ invalidation_calls (c ∷ []) + invalidation_calls cs
unfolding invalidation_calls
invalidation_calls-cons (Call.call_transition t r c p k) cs = omega arith
invalidation_calls-cons _ cs = omega arith

after_calls-Keeps :
    (cs : List Call) (m : Machine) → Keeps m (invalidation_calls cs) (after_calls cs m)
unfolding after_calls
after_calls-Keeps [] m = unfold invalidation_calls in (omega arith, refl)
after_calls-Keeps (c ∷ cs) m =
    let (e, i) = after_call-Keeps c m in
    let (e', i') = after_calls-Keeps cs (after_call c m) in
    (omega (arith, invalidation_calls-cons c cs), i' ∙ i)

abbrev pub issued : String → Tick → Machine → OperationToken
issued kind k m = record {
  conversation_id = m.conversation_id;
  epoch = pos m.operation_epoch;
  operation_id = k.fresh_id;
  kind = kind;
}

issued_token :
    (kind : String) (k : Tick) (m : Machine) (token : OperationToken)
    → (issue_operation kind k m).0 ≡ ok token
    → issued kind k m ≡ token
unfolding issue_operation make_token
issued_token kind k m token h =
    (Passes-of_ok (token_checks (issued kind k m)) (issued kind k m) token h).1

issued-is_current :
    (kind : String) (k : Tick) (cs : List Call) (m : Machine) (token : OperationToken)
    → (issue_operation kind k m).0 ≡ ok token
    → is_current token (after_calls cs m) ≡ (invalidation_calls cs == 0)
unfolding is_current
issued-is_current kind k cs m token h =
    let t = issued_token kind k m token h in
    let (e, i) = after_calls-Keeps cs m in
    rw (← t) (ground (arith, eq_iff m.conversation_id (after_calls cs m).conversation_id))

-- A token that was issued is accepted, after any further calls, exactly if none of them invalidated
-- the operations; calls that raise count too.
pub accept_result_fresh :
    (kind c : String) (k k' : Tick) (cs : List Call) (m : Machine) (token : OperationToken)
    → (issue_operation kind k m).0 ≡ ok token
    → IsSound c k' (after_calls cs m)
    → (accept_result token c k' (after_calls cs m)).0 ≡ ok (invalidation_calls cs == 0)
accept_result_fresh kind c k k' cs m token h s =
    accept_result_value token c k' (after_calls cs m) s
    ∙ ap ok (issued-is_current kind k cs m token h)
