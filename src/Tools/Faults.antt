-- ===== src/Tools/Faults.antt =====
-- Injected faults of src/humanflow/tools/providers.py before the executor's test of a reply.
use humanflow.Tools.Awaits.{validate_twice, validate_malformed}
use humanflow.Shared.Text.{is_blank}
use humanflow.Shared.Dict.{Dict}
use humanflow.Tools.Bookings.{call_tool, Booking, spoil, call_with_faults, ToolCall}
use humanflow.Shared.Result.{
  value_error, tool_provider_error, Error, tool_protocol_error, ok, err, Result,
}
use humanflow.Tools.Calls.{malformed, response, validate_response, ProviderReply, Executor}
use humanflow.Tools.Models.{make_response, ToolProviderResponse, FaultPlan}
use humanflow.Shared.Action.{◌>>=◌, lift, raise_when}
use humanflow.Tools.Returns.{Permits, bind-Permits, Permits-any}
use mathlib.Core.Path.{refl, subst}
use humanflow.Shared.Result.{checked_cases}
use humanflow.Shared.{
  arith, inr, ap, ◌∙◌, [], sym, ◌∷◌, inl, Bool-cases, ◌⊎◌, String, ◌≡◌, true, false, ◌||◌,
  if◌then◌else◌, nat_instance, string_instance, contains, int_instance,
}

-- The reason for which a spoiled reply is refused.
abbrev pub refusal_reason : FaultPlan → String
refusal_reason p = if p.invalid_response then "invalid_response" else "duplicate_response"

abbrev Refused : FaultPlan → Executor → ProviderReply → Type 0
Refused p s reply = validate_response reply s ≡ (err (tool_protocol_error (refusal_reason p)), s)

spoil_invalid :
    (p : FaultPlan) (id : String) (r : ToolProviderResponse)
    → p.invalid_response ≡ true
    → spoil p id r ≡ ok malformed
unfolding spoil
spoil_invalid p id r h = rw h refl

spoil_ok :
    (p : FaultPlan) (id : String) (r x : ToolProviderResponse)
    → p.invalid_response ≡ false
    → p.duplicate_response ≡ true
    → make_response (record r { response_id = id }) ≡ ok x
    → spoil p id r ≡ ok (response x)
unfolding spoil
spoil_ok p id r x h k e = rw (e, h, k) refl

spoil_err :
    (p : FaultPlan) (id : String) (r : ToolProviderResponse) (x : Error)
    → p.invalid_response ≡ false
    → p.duplicate_response ≡ true
    → make_response (record r { response_id = id }) ≡ err x
    → spoil p id r ≡ err x
unfolding spoil
spoil_err p id r x h k e = rw (e, h, k) refl

made_cases :
    (r : ToolProviderResponse)
    → (make_response r ≡ ok r) ⊎ ((x : Error) × (make_response r ≡ err x))
unfolding make_response
made_cases r =
    checked_cases ((is_blank r.response_id, value_error "response_id must not be empty") ∷ []) r

module _ (p : FaultPlan) (id : String) (s : Executor)
    (spoiled : (p.invalid_response || p.duplicate_response) ≡ true)
    (seen : contains id s.seen_response_ids ≡ true) where
  abbrev Good : Result ProviderReply × Dict Booking → Type 0
  Good o = Permits (λ reply d. Refused p s reply) o

  spoil-Refused : (r : ToolProviderResponse) (d : Dict Booking) → Good (spoil p id r, d)
  spoil-Refused r d = elim (Bool-cases p.invalid_response) [
    | inl invalid ↦
        subst (λ o. Good (o, d)) (sym (spoil_invalid p id r invalid))
          (validate_malformed s
            ∙ ap
                (λ c. (
                  err (
                      tool_protocol_error (if c then "invalid_response" else "duplicate_response")),
                  s,
                ))
                (sym invalid))
    | inr valid ↦
        let twice : p.duplicate_response ≡ true = ground arith in
        let copy : ToolProviderResponse = record r { response_id = id } in
        elim (made_cases copy) [
          | inl made ↦
              subst (λ o. Good (o, d)) (sym (spoil_ok p id r copy valid twice made))
                (validate_twice copy s seen
                  ∙ ap
                      (λ c. (
                        err (
                            tool_protocol_error
                              (if c then "invalid_response" else "duplicate_response")),
                        s,
                      ))
                      (sym valid))
          | inr (x, failed) ↦
              subst (λ o. Good (o, d)) (sym (spoil_err p id r x valid twice failed)) tt
        ]
  ]

  call_with_faults-Refused : (c : ToolCall) (d : Dict Booking) → Good (call_with_faults p id c d)
  unfolding call_with_faults
  call_with_faults-Refused c d =
      bind-Permits (λ u d'. Unit {0}) (λ reply d'. Refused p s reply)
        (raise_when p.fail (tool_provider_error "injected_failure"))
        (λ u. call_tool c >>= λ r. lift (spoil p id r)) d
        (Permits-any (raise_when p.fail (tool_provider_error "injected_failure") d))
        (λ u d1 h.
          bind-Permits (λ r d'. Unit {0}) (λ reply d'. Refused p s reply) (call_tool c)
            (λ r. lift (spoil p id r)) d1 (Permits-any (call_tool c d1))
            (λ r d2 h2. spoil-Refused r d2))

-- A reply under a fault plan that spoils replies is refused by the executor, for the reason of the plan,
-- where the plan's identifier was accepted before; nothing of the executor changes.
pub call_with_faults-validate_response :
    (p : FaultPlan) (id : String) (c : ToolCall) (d d' : Dict Booking) (reply : ProviderReply)
    (s : Executor)
    → (p.invalid_response || p.duplicate_response) ≡ true
    → contains id s.seen_response_ids ≡ true
    → call_with_faults p id c d ≡ (ok reply, d')
    → validate_response reply s ≡ (err (tool_protocol_error (refusal_reason p)), s)
call_with_faults-validate_response p id c d d' reply s spoiled seen h =
    subst (Permits (λ reply d. Refused p s reply)) h
      (call_with_faults-Refused p id s spoiled seen c d)
