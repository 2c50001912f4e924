-- ===== src/Tools/Acceptance.antt =====
-- Which replies src/humanflow/tools/executor.py accepts, whatever other tasks do to the conversation.
use humanflow.Telemetry.Event.{stale_result_rejected}
use humanflow.Tools.Awaits.{validate_fresh, claimed, validate_twice}
use humanflow.Shared.Result.{tool_protocol_error, err, Result, ok}
use humanflow.Tools.Returns.{Permits-map, Permits}
use humanflow.Controller.Machine.{
  Machine, stale_details, Tick, after_calls, is_current, accept_result,
}
use humanflow.Tools.Models.{ToolProviderResponse}
use humanflow.Tools.Executor.{await_reply, claim_result, judge}
use humanflow.Conversation.{OperationToken}
use humanflow.Tools.Calls.{validate_response, malformed, response, ProviderReply, Executor, Request}
use humanflow.Shared.Action.{◌>>=◌, ◌>>◌, bind_ok, bind_err, pure, lift, raise_when}
use mathlib.Core.Path.{subst}
use humanflow.Controller.Outcome.{emit_cases}
use humanflow.Shared.{
  not, Bool, String, sym, ◌∙◌, ap, ℕ, ◌≡◌, refl, inl, inr, true, false, Bool-cases, nat_instance,
  string_instance, contains, int_instance,
}

-- An accepted reply: it came from the provider, its identifier is new, and the operation that asked for
-- it is still current after what the other tasks did during the wait.
pub record Accepted (q : Request) (n : ℕ) (token : OperationToken) (s : Executor)
    (r : ToolProviderResponse) (s' : Executor) : Type 0 where
  pub provided : (q.attempts n).reply ≡ ok (response r)
  pub fresh : contains r.response_id s.seen_response_ids ≡ false
  pub current : is_current token (after_calls (q.attempts n).meanwhile s.machine) ≡ true
  pub waited : s' ≡ record s { machine = after_calls (q.attempts n).meanwhile s.machine }

stale_only :
    (token : OperationToken) (c : String) (k : Tick) (m : Machine)
    → is_current token m ≡ false
    → Permits (λ good m'. good ≡ false) (accept_result token c k m)
unfolding accept_result
stale_only token c k m stale =
    elim (emit_cases stale_result_rejected c "operation_epoch_mismatch" (stale_details token m) k
      m) [ inl e ↦ rw (stale, e, Permits) refl | inr (x, e) ↦ rw (stale, e, Permits) tt ]

-- The rest of `claim_result` after `accept_result` refused.
refusal :
    (P : ToolProviderResponse → Executor → Type 0) (r : ToolProviderResponse) (s : Executor)
    (o : Result Bool × Machine)
    → Permits (λ good m'. good ≡ false) o
    → Permits P (
        (lift o.0 >>= λ good. raise_when (not good) (tool_protocol_error "stale_result") >> pure r)
          (record s { machine = o.1 }))
refusal P r s (ok true, m) h = cc
refusal P r s (ok false, m) h = tt
refusal P r s (err x, m) h = tt

module _ (q : Request) (token : OperationToken) where
  claimed_stale :
      (P : ToolProviderResponse → Executor → Type 0) (r : ToolProviderResponse) (s : Executor)
      → is_current token s.machine ≡ false
      → Permits P (claim_result q token r s)
  unfolding claim_result
  claimed_stale P r s stale =
      let k : Tick = q.clock s.machine.sequence in
      refusal P r s (accept_result token q.correlation_id k s.machine)
        (stale_only token q.correlation_id k s.machine stale)

  claimed_only :
      (r : ToolProviderResponse) (s : Executor)
      → Permits
          (λ r' s'. (r' ≡ r) × (is_current token s.machine ≡ true) × (s' ≡ s))
          (claim_result q token r s)
  claimed_only r s = elim (Bool-cases (is_current token s.machine)) [
    | inl current ↦ rw (claimed q token r s current) (refl, current, refl)
    | inr stale ↦
        claimed_stale (λ r' s'. (r' ≡ r) × (is_current token s.machine ≡ true) × (s' ≡ s)) r s stale
  ]

  -- A reply that is a response, new, and of an operation that is current.
  abbrev Admissible : ProviderReply → Executor → ToolProviderResponse → Executor → Type 0
  Admissible reply s r s' =
      (reply ≡ response r)
      × (contains r.response_id s.seen_response_ids ≡ false)
      × (is_current token s.machine ≡ true)
      × (s' ≡ s)

  judged_only :
      (reply : ProviderReply) (s : Executor) → Permits (Admissible reply s) (judge q token reply s)
  unfolding judge validate_response
  judged_only malformed s = tt
  judged_only (response r) s = elim (Bool-cases (contains r.response_id s.seen_response_ids)) [
    | inl twice ↦
        subst (Permits (Admissible (response r) s))
          (sym (
            bind_err (validate_response (response r)) (claim_result q token) s s
              (tool_protocol_error "duplicate_response") (validate_twice r s twice)))
          tt
    | inr fresh ↦
        subst (Permits (Admissible (response r) s))
          (sym (
            bind_ok (validate_response (response r)) (claim_result q token) s s r
              (validate_fresh r s fresh)))
          (Permits-map (λ r' s'. (r' ≡ r) × (is_current token s.machine ≡ true) × (s' ≡ s))
            (Admissible (response r) s) (claim_result q token r s)
            (λ r' s' (same, current, kept). (
              ap response (sym same),
              ap (λ x. contains x.response_id s.seen_response_ids) same ∙ fresh,
              current,
              kept,
            ))
            (claimed_only r s))
  ]

  awaited_only :
      (n : ℕ) (s : Executor) (reply : Result ProviderReply)
      → (q.attempts n).reply ≡ reply
      → Permits (Accepted q n token s) (
          (lift reply >>= judge q token)
            (record s { machine = after_calls (q.attempts n).meanwhile s.machine }))
  awaited_only n s (err x) same = tt
  awaited_only n s (ok reply) same =
      let waited : Executor = record s {
        machine = after_calls (q.attempts n).meanwhile s.machine;
      } in
      Permits-map (Admissible reply waited) (Accepted q n token s) (judge q token reply waited)
        (λ r s' (given, fresh, current, kept). record {
          provided = same ∙ ap ok given;
          fresh = fresh;
          current = current;
          waited = kept;
        })
        (judged_only reply waited)

-- Whatever the other tasks do during the wait, a reply is accepted only if the provider gave it, its
-- identifier was not accepted before and its operation is still current; nothing else has changed.
pub await_reply-Accepted :
    (q : Request) (n : ℕ) (token : OperationToken) (s : Executor) (r : ToolProviderResponse)
    (s' : Executor)
    → await_reply q n token s ≡ (ok r, s')
    → Accepted q n token s r s'
unfolding await_reply
await_reply-Accepted q n token s r s' h =
    subst (Permits (Accepted q n token s)) h (awaited_only q token n s (q.attempts n).reply refl)
