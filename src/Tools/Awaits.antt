-- ===== src/Tools/Awaits.antt =====
-- How the await of a reply in src/humanflow/tools/executor.py ends.
use humanflow.Tools.Executor.{claim_result, judge, await_reply}
use humanflow.Tools.Calls.{
  on_machine, ProviderReply, response, malformed, validate_response, Executor, Request,
  failure_reason,
}
use humanflow.Shared.Result.{Result-cases, err, Error, tool_protocol_error, Result, ok}
use humanflow.Conversation.{OperationToken}
use humanflow.Telemetry.Payload.{Fields}
use humanflow.Tools.Steps.{IsSoundRequest}
use humanflow.Tools.Models.{ToolProviderResponse}
use humanflow.Controller.Machine.{is_current, after_calls, Tick, Machine, accept_result}
use humanflow.Shared.Text.{is_blank}
use humanflow.Shared.Action.{◌>>=◌, ◌>>◌, bind_ok, bind_err, pure, lift, raise_when}
use Prim.Native.Nat.{ℕ}
use mathlib.Core.Path.{subst}
use humanflow.Shared.{
  String, ◌≡◌, refl, sym, ap, ◌∙◌, ◌⊎◌, inl, inr, true, false, not, some, [], arith, Bool-cases,
  nat_instance, string_instance, contains, int_instance,
}

-- No other task calls the state machine, and the fallback gives a mapping.
pub record IsUndisturbed (q : Request) : Type 0 where
  pub quiet : (n : ℕ) → (q.attempts n).meanwhile ≡ []
  pub quiet_fallback : q.fallback.meanwhile ≡ []
  pub fallback_value : Fields
  pub fallback_given : q.fallback.value ≡ ok (some fallback_value)

known_reasons :
    (is_blank (failure_reason (tool_protocol_error "invalid_response")) ≡ false)
    × (is_blank (failure_reason (tool_protocol_error "duplicate_response")) ≡ false)
unfolding is_blank failure_reason
known_reasons = (refl, refl)

accept_current :
    (token : OperationToken) (c : String) (k : Tick) (m : Machine)
    → is_current token m ≡ true
    → accept_result token c k m ≡ (ok true, m)
unfolding accept_result
accept_current token c k m h = ground arith

pub validate_malformed :
    (s : Executor)
    → validate_response malformed s ≡ (err (tool_protocol_error "invalid_response"), s)
unfolding validate_response
validate_malformed s = refl

pub validate_twice :
    (r : ToolProviderResponse) (s : Executor)
    → contains r.response_id s.seen_response_ids ≡ true
    → validate_response (response r) s ≡ (err (tool_protocol_error "duplicate_response"), s)
unfolding validate_response
validate_twice r s h = ground arith

pub validate_fresh :
    (r : ToolProviderResponse) (s : Executor)
    → contains r.response_id s.seen_response_ids ≡ false
    → validate_response (response r) s ≡ (ok r, s)
unfolding validate_response
validate_fresh r s h = ground arith

pub claimed :
    (q : Request) (token : OperationToken) (r : ToolProviderResponse) (s : Executor)
    → is_current token s.machine ≡ true
    → claim_result q token r s ≡ (ok r, s)
unfolding claim_result
claimed q token r s current =
    bind_ok (on_machine (λ m. accept_result token q.correlation_id (q.clock m.sequence) m))
      (λ good. raise_when (not good) (tool_protocol_error "stale_result") >> pure r) s s true
      (ap (λ o. (o.0, record s { machine = o.1 }))
        (accept_current token q.correlation_id (q.clock s.machine.sequence) s.machine current))

-- How an undisturbed await ends: with a reply or with an error that has a reason, in the same state.
abbrev pub Awaited : Executor → Result ToolProviderResponse × Executor → Type 0
Awaited s o =
    ((r : ToolProviderResponse) × (o ≡ (ok r, s)))
    ⊎ ((x : Error) × (is_blank (failure_reason x) ≡ false) × (o ≡ (err x, s)))

module _ (q : Request) (sound : IsSoundRequest q) (calm : IsUndisturbed q) (start : Executor)
    (known : is_blank start.machine.conversation_id ≡ false) where
  judged :
      (n : ℕ) (token : OperationToken) (reply : ProviderReply) (s : Executor)
      → is_current token s.machine ≡ true
      → Awaited s (judge q token reply s)
  unfolding judge
  judged n token malformed s current = inr (
    tool_protocol_error "invalid_response",
    known_reasons.0,
    bind_err (validate_response malformed) (claim_result q token) s s
        (tool_protocol_error "invalid_response") (validate_malformed s),
  )
  judged n token (response r) s current =
      elim (Bool-cases (contains r.response_id s.seen_response_ids)) [
        | inl twice ↦ inr (
          tool_protocol_error "duplicate_response",
          known_reasons.1,
          bind_err (validate_response (response r)) (claim_result q token) s s
              (tool_protocol_error "duplicate_response") (validate_twice r s twice),
        )
        | inr fresh ↦ inl (
          r,
          bind_ok (validate_response (response r)) (claim_result q token) s s r
                (validate_fresh r s fresh)
              ∙ claimed q token r s current,
        )
      ]

  waits :
      (n : ℕ) (token : OperationToken) (s : Executor) (m : Machine)
      → m ≡ s.machine
      → is_current token s.machine ≡ true
      → Awaited s ((lift (q.attempts n).reply >>= judge q token) (record s { machine = m }))
  waits n token s m same current =
      subst
        (λ x. Awaited s ((lift (q.attempts n).reply >>= judge q token) (record s { machine = x })))
        (sym same)
        (elim (Result-cases (q.attempts n).reply) [
          | inr (x, e) ↦ inr (
            x,
            sound.reasoned n x e,
            bind_err (lift (q.attempts n).reply) (judge q token) s s x (ap (λ r. (r, s)) e),
          )
          | inl (reply, e) ↦
              subst (Awaited s)
                (sym (
                  bind_ok (lift (q.attempts n).reply) (judge q token) s s reply
                    (ap (λ r. (r, s)) e)))
                (judged n token reply s current)
        ])

  pub await_reply-Awaited :
      (n : ℕ) (token : OperationToken) (s : Executor)
      → is_current token s.machine ≡ true
      → Awaited s (await_reply q n token s)
  unfolding await_reply after_calls
  await_reply-Awaited n token s current =
      waits n token s (after_calls (q.attempts n).meanwhile s.machine)
        (ap (λ cs. after_calls cs s.machine) (calm.quiet n)) current
