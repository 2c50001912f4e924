-- ===== src/Examples/Controller.antt =====
-- Concrete calls of the state machine and payloads.
use humanflow.Conversation.{ConversationState, make_token, OperationToken}
use humanflow.Telemetry.Event.{create, state_transitioned, TelemetryEvent}
use humanflow.Shared.{
  ◌≡◌, refl, List, [], ◌∷◌, arith, ◌==◌, nat_instance, string_instance, pos, int_instance,
}
use humanflow.Shared.Text.{is_blank}
use humanflow.Shared.Result.{checked, value_error, ok, err}
use humanflow.Controller.Machine.{
  accept_result, append_event, transition_details, after_calls, emit, after_call, transition,
  issue_operation, new_machine, Tick, Machine, Call,
}
use humanflow.Controller.Outcome.{
  moved, sequenced, sent, IsSound, Transitions, transition-Transitions,
}
use humanflow.Controller.Reports.{transition-Reports, transition_blank_correlation, Reports}
use humanflow.Controller.Log.{after_calls-IsOrdered, IsOrdered}
use humanflow.Controller.Replay.{after_calls-IsTruthful, IsTruthful}
use humanflow.Controller.Staleness.{invalidation_calls, accept_result_fresh}
use humanflow.Controller.Graph.{Reaches-all, Reaches, is_allowed}
use humanflow.Telemetry.Redaction.{sanitize_fields-IsCleanFields, IsCleanFields}
use humanflow.Telemetry.Payload.{
  is_sensitive, sanitize_value, str, mapping, Fields, end, field, sanitize_fields,
}

abbrev tick : Tick
tick = record { monotonic_ns = pos 5; utc = pos 7; fresh_id = "id-1" }

abbrev start : Machine
start = record {
  conversation_id = "call-1";
  state = ConversationState.idle;
  revision = 0;
  sequence = 0;
  operation_epoch = 0;
  events = [];
}

abbrev login : Fields
login = field "user" (str "anna") (field "auth" (mapping (field "Api-Key" (str "k") end)) end)

login_redacted :
    sanitize_fields login
    ≡ field "user"
        (str "anna")
        (field "auth" (mapping (field "Api-Key" (str "[REDACTED]") end)) end)
unfolding sanitize_value is_sensitive
login_redacted = refl

sanitize_fields-IsCleanFields_example : IsCleanFields (sanitize_fields login)
sanitize_fields-IsCleanFields_example = sanitize_fields-IsCleanFields login

Reaches-all_example : Reaches ConversationState.tool_wait ConversationState.handoff
Reaches-all_example = Reaches-all ConversationState.tool_wait ConversationState.handoff

start-IsSound : (m : Machine) → m.conversation_id ≡ "call-1" → IsSound "turn-1" tick m
unfolding is_blank
start-IsSound m e = record { named = rw e; correlated = refl; timed = omega arith }

transition-Transitions_example :
    Transitions ConversationState.listening "opened" "turn-1" login tick start
      (transition ConversationState.listening "opened" "turn-1" login tick start)
transition-Transitions_example =
    transition-Transitions ConversationState.listening "opened" "turn-1" login tick start
      (start-IsSound start refl)

abbrev opened : TelemetryEvent
opened =
    sent state_transitioned "turn-1" "opened"
      (transition_details ConversationState.idle ConversationState.listening 1 0 login) tick
      (moved ConversationState.listening start)

transition-Reports_example :
    Reports ConversationState.idle ConversationState.listening 1 0 opened.payload
unfolding transition emit create checked is_blank is_allowed append_event
transition-Reports_example =
    transition-Reports ConversationState.listening "opened" "turn-1" login tick start
      (append_event opened (sequenced (moved ConversationState.listening start))) opened
      (start-IsSound start refl) refl

transition_blank_correlation_example :
    transition ConversationState.listening "opened" " " login tick start ≡ (
      err (value_error "correlation_id must not be empty"),
      sequenced (moved ConversationState.listening start),
    )
unfolding is_blank is_allowed
transition_blank_correlation_example =
    transition_blank_correlation ConversationState.listening "opened" " " login tick start refl refl
      refl refl

abbrev calls : List Call
calls =
    Call.call_transition ConversationState.listening "opened" "turn-1" end tick
    ∷ Call.call_invalidate "barge_in" "turn-1" tick
    ∷ Call.call_transition ConversationState.speaking "no_edge" "turn-1" end tick
    ∷ []

after_calls-IsOrdered_example : IsOrdered (after_calls calls start)
unfolding new_machine is_blank
after_calls-IsOrdered_example = after_calls-IsOrdered "call-1" calls start refl

after_calls-IsTruthful_example : IsTruthful (after_calls calls start)
unfolding new_machine is_blank after_call emit create checked append_event is_allowed
after_calls-IsTruthful_example =
    after_calls-IsTruthful "call-1" calls start refl
      (start-IsSound _ refl, ((start-IsSound _ refl, refl), (start-IsSound _ refl, tt)))

calls_invalidate : invalidation_calls calls ≡ 1
unfolding invalidation_calls
calls_invalidate = refl

abbrev token : OperationToken
token = record { conversation_id = "call-1"; epoch = pos 0; operation_id = "id-1"; kind = "tool" }

accept_result_fresh_example :
    (accept_result token "turn-1" tick (after_calls calls start)).0
    ≡ ok (invalidation_calls calls == 0)
unfolding issue_operation make_token checked is_blank after_calls after_call emit create
    append_event is_allowed
accept_result_fresh_example =
    accept_result_fresh "tool" "turn-1" tick tick calls start token refl (start-IsSound _ refl)
