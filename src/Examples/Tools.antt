-- ===== src/Examples/Tools.antt =====
-- Concrete executions of tools and bookings.
use humanflow.Shared.Float.{dyadic}
use humanflow.Tools.Faults.{call_with_faults-validate_response, refusal_reason}
use humanflow.Tools.Rebooking.{call_tool-call_tool, IsBooking, after_tools}
use humanflow.Shared.Dict.{lookup}
use humanflow.Tools.Places.{place}
use humanflow.Tools.Bookings.{
  spoil, tool_value, call_with_faults, booking_fields, call_tool, ToolCall, Booking, argument,
}
use humanflow.Tools.Acceptance.{await_reply-Accepted, Accepted}
use humanflow.Tools.Outcome.{execute-Completed}
use humanflow.Tools.Steps.{IsSoundRequest}
use humanflow.Tools.Executor.{claim_result, judge, await_reply, execute}
use humanflow.Telemetry.Payload.{str, field, end}
use humanflow.Tools.Awaits.{IsUndisturbed}
use humanflow.Tools.Models.{make_response, FaultPlan, ToolProviderResponse}
use humanflow.Tools.Calls.{
  ProviderReply, validate_response, failure_reason, response, Request, Attempt, Executor,
}
use humanflow.Tools.Finish.{Completed}
use humanflow.Controller.Machine.{after_calls, is_current, accept_result, Tick}
use humanflow.Shared.Text.{rstrip, lstrip, strip, is_blank}
use humanflow.Shared.Result.{checked, tool_protocol_error, Error, ok, err, timeout_error}
use humanflow.Tools.Returns.{Returns}
use humanflow.Conversation.{OperationToken, thinking, state_instance}
use Prim.Native.Nat.{ℕ}
use mathlib.Core.Path.{subst}
use humanflow.Shared.{
  true, ◌∷◌, String, ◌≡◌, refl, inl, inr, false, some, [], arith, if◌then◌else◌, Bool-cases, ◌==◌,
  nat_instance, string_instance, pos, int_instance,
}

abbrev tick : Tick
tick = record { monotonic_ns = pos 5; utc = pos 7; fresh_id = "id-1" }

abbrev reply_1 : ToolProviderResponse
reply_1 = record { response_id = "r-1"; value = field "slot" (str "9:00") end }

-- The first attempt times out, the second answers.
abbrev attempt : ℕ → Attempt
attempt n = record {
  operation = tick;
  meanwhile = [];
  reply = if n == 1 then err (timeout_error "") else ok (response reply_1);
  started_ns = pos 10;
  ended_ns = pos 20;
}

abbrev request : Request
request = record {
  name = "book_appointment";
  correlation_id = "turn-1";
  started_ns = pos 10;
  max_attempts = 2;
  clock = λ n. tick;
  elapsed_ms = λ a b. 0;
  attempts = attempt;
  fallback = record { meanwhile = []; value = ok (some end); ended_ns = pos 30 };
}

abbrev idle_executor : Executor
idle_executor = record {
  machine = record {
    conversation_id = "call-1";
    state = thinking;
    revision = 3;
    sequence = 3;
    operation_epoch = 0;
    events = [];
  };
  seen_response_ids = [];
}

attempt_reasoned :
    (n : ℕ) (x : Error) → (attempt n).reply ≡ err x → is_blank (failure_reason x) ≡ false
unfolding is_blank failure_reason
attempt_reasoned n x h = elim (Bool-cases (n == 1)) [
  | inl first ↦
      let e : timeout_error "" ≡ x = ground arith in
      subst (λ y. is_blank (failure_reason y) ≡ false) e refl
  | inr later ↦ ground arith
]

request-IsSoundRequest : IsSoundRequest request
unfolding is_blank
request-IsSoundRequest = record {
  named = refl;
  correlated = refl;
  timed = λ n. omega arith;
  identified = λ n. refl;
  reasoned = attempt_reasoned;
  forward = λ n. refl;
  forward_fallback = refl;
}

abbrev request-IsUndisturbed : IsUndisturbed request
request-IsUndisturbed = record {
  quiet = λ n. refl;
  quiet_fallback = refl;
  fallback_value = end;
  fallback_given = refl;
}

conversation_known : is_blank idle_executor.machine.conversation_id ≡ false
unfolding is_blank
conversation_known = refl

execute-Completed_example :
    Returns (Completed request idle_executor) (execute request idle_executor)
execute-Completed_example =
    execute-Completed request request-IsSoundRequest request-IsUndisturbed idle_executor
      conversation_known (omega arith) refl

abbrev token : OperationToken
token = record {
  conversation_id = "call-1";
  epoch = pos 0;
  operation_id = "id-1";
  kind = "tool:book_appointment";
}

second_reply : await_reply request 2 token idle_executor ≡ (ok reply_1, idle_executor)
unfolding await_reply judge validate_response claim_result accept_result is_current after_calls
second_reply = refl

await_reply-Accepted_example : Accepted request 2 token idle_executor reply_1 idle_executor
await_reply-Accepted_example =
    await_reply-Accepted request 2 token idle_executor reply_1 idle_executor second_reply

abbrev booking_call : String → String → ToolCall
booking_call slot fresh = record {
  name = "book_appointment";
  arguments = ("idempotency_key", "k-1") ∷ ("slot", slot) ∷ [];
  fresh_id = fresh;
  response_id = fresh;
}

abbrev cancelling : ToolCall
cancelling = record {
  name = "cancel_appointment";
  arguments = ("booking_id", "b-1") ∷ [];
  fresh_id = "x";
  response_id = "x";
}

booking_call-IsBooking :
    IsBooking (booking_call "9:00" "b-1") × IsBooking (booking_call "11:30" "b-2")
unfolding argument lookup strip lstrip rstrip is_blank
booking_call-IsBooking = ((refl, refl, refl), (refl, refl, refl))

same_key :
    argument "idempotency_key" (booking_call "11:30" "b-2")
    ≡ argument "idempotency_key" (booking_call "9:00" "b-1")
unfolding argument lookup
same_key = refl

-- A cancelled appointment is given again under its key, with its first slot.
call_tool-call_tool_example :
    (b b' : Booking) × (place (some b') ≡ place (some b))
    × ((call_tool (booking_call "9:00" "b-1") []).0
        ≡ ok (record { response_id = "b-1"; value = booking_fields b }))
    × (call_tool
          (booking_call "11:30" "b-2")
          (after_tools (cancelling ∷ []) (call_tool (booking_call "9:00" "b-1") []).1)
        ≡ (
          ok (record { response_id = "b-2"; value = booking_fields b' }),
          after_tools (cancelling ∷ []) (call_tool (booking_call "9:00" "b-1") []).1,
        ))
call_tool-call_tool_example =
    call_tool-call_tool (booking_call "9:00" "b-1") (booking_call "11:30" "b-2") (cancelling ∷ [])
      [] booking_call-IsBooking.0 booking_call-IsBooking.1 same_key

-- A plan that gives every reply the same identifier.
abbrev duplicating : FaultPlan
duplicating = record {
  latency_ms = dyadic 0 0;
  fail = false;
  timeout = false;
  invalid_response = false;
  duplicate_response = true;
}

abbrev seen_executor : Executor
seen_executor = record idle_executor { seen_response_ids = "dup-1" ∷ [] }

abbrev callback : ToolCall
callback = record {
  name = "create_callback";
  arguments = [];
  fresh_id = "cb-1";
  response_id = "r-9";
}

abbrev callback_reply : ProviderReply
callback_reply = response (record {
  response_id = "dup-1";
  value = field "callback_id" (str "cb-1") (field "status" (str "requested") end);
})

callback_duplicated : call_with_faults duplicating "dup-1" callback [] ≡ (ok callback_reply, [])
unfolding call_with_faults call_tool tool_value spoil make_response is_blank checked
callback_duplicated = refl

call_with_faults-validate_response_example :
    validate_response callback_reply seen_executor
    ≡ (err (tool_protocol_error (refusal_reason duplicating)), seen_executor)
call_with_faults-validate_response_example =
    call_with_faults-validate_response duplicating "dup-1" callback [] [] callback_reply
      seen_executor refl refl callback_duplicated
