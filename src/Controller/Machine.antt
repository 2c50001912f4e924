-- ===== src/Controller/Machine.antt =====
-- `ConversationStateMachine` of src/humanflow/controller/state_machine.py over an in-memory sink
-- (src/humanflow/telemetry/sinks.py). What a call reads from outside (the clocks, a fresh
-- identifier) is its `Tick`.
use humanflow.Shared.{
  ℕ, ◌+◌, String, Bool, true, false, not, ◌&&◌, ◌||◌, List, [], ◌∷◌, ◌++◌, if◌then◌else◌, ◌==◌,
  nat_instance, string_instance, ℤ, pos, int_instance,
}
use humanflow.Shared.Text.{is_blank}
use humanflow.Shared.Result.{Result, ok, err, value_error, invalid_transition}
use humanflow.Shared.Action.{Action, ◌>>=◌, ◌>>◌, raise_when, modify, gets, lift, pure}
use humanflow.Conversation.{
  ConversationState, idle, OperationToken, make_token, state_value, state_instance,
}
use humanflow.Telemetry.Payload.{Fields, end, field, put, str, int}
use humanflow.Telemetry.Event.{
  EventType, state_transitioned, operation_invalidated, stale_result_rejected, TelemetryEvent,
  create,
}
use humanflow.Controller.Graph.{is_allowed}

pub record Tick : Type 0 where
  pub monotonic_ns : ℤ
  pub utc : ℤ
  pub fresh_id : String

pub record Machine : Type 0 where
  pub conversation_id : String
  pub state : ConversationState
  pub revision : ℕ
  pub sequence : ℕ
  pub operation_epoch : ℕ
  pub events : List TelemetryEvent

-- `__init__`
unfoldable pub new_machine : String → Result Machine
new_machine conversation_id =
    if is_blank conversation_id
    then err (value_error "conversation_id must not be empty")
    else ok (record {
      conversation_id = conversation_id;
      state = idle;
      revision = 0;
      sequence = 0;
      operation_epoch = 0;
      events = [];
    })

-- `InMemoryTelemetrySink.emit`
unfoldable pub append_event : TelemetryEvent → Machine → Machine
append_event e m = record m { events = m.events ++ (e ∷ []) }

abbrev pub envelope : EventType → String → String → Fields → Tick → Machine → TelemetryEvent
envelope event_type correlation_id reason_code payload tick m = record {
  event_type = event_type;
  conversation_id = m.conversation_id;
  correlation_id = correlation_id;
  sequence = m.sequence;
  utc = tick.utc;
  monotonic_ns = tick.monotonic_ns;
  state = m.state;
  reason_code = reason_code;
  payload = payload;
  event_id = tick.fresh_id;
}

-- `_emit`: the sequence number is taken before the event is checked.
unfoldable pub emit : EventType → String → String → Fields → Tick → Action Machine TelemetryEvent
unfolding append_event
emit event_type correlation_id reason_code payload tick = do
  modify (λ m. record m { sequence = m.sequence + 1 })
  event ← lift (create (← gets (envelope event_type correlation_id reason_code payload tick)))
  modify (append_event event)
  pure event

-- `details.update(...)` of `transition`
unfoldable pub transition_details : ConversationState → ConversationState → ℕ → ℕ → Fields → Fields
transition_details source target revision epoch payload = put "operation_epoch" (int (pos epoch)) (
    put "revision" (int (pos revision)) (
      put "to_state" (str (state_value target))
        (put "from_state" (str (state_value source)) payload)))

unfoldable pub transition :
    ConversationState → String → String → Fields → Tick → Action Machine TelemetryEvent
transition target reason_code correlation_id payload tick = do
  source ← gets (λ m. m.state)
  raise_when (target == source || not (is_allowed source target)) invalid_transition
  raise_when (is_blank reason_code) (value_error "reason_code must not be empty")
  modify (λ m. record m { state = target; revision = m.revision + 1 })
  details ← gets (λ m. transition_details source target m.revision m.operation_epoch payload)
  emit state_transitioned correlation_id reason_code details tick

-- The fresh identifier is the tick's; the machine is not written.
unfoldable pub issue_operation : String → Tick → Action Machine OperationToken
issue_operation kind tick = do
  m ← gets (λ m. m)
  lift (
      make_token (record {
        conversation_id = m.conversation_id;
        epoch = pos m.operation_epoch;
        operation_id = tick.fresh_id;
        kind = kind;
      }))

unfoldable pub invalidate_operations : String → String → Tick → Action Machine TelemetryEvent
invalidate_operations reason_code correlation_id tick = do
  previous ← gets (λ m. m.operation_epoch)
  modify (λ m. record m { operation_epoch = m.operation_epoch + 1 })
  emit operation_invalidated correlation_id reason_code
      (field "previous_epoch" (int (pos previous))
        (field "new_epoch" (int (pos (previous + 1))) end))
      tick

-- The test of `accept_result`.
unfoldable pub is_current : OperationToken → Machine → Bool
is_current token m =
    token.conversation_id == m.conversation_id && token.epoch == pos m.operation_epoch

abbrev pub stale_details : OperationToken → Machine → Fields
stale_details token m = field "operation_id" (str token.operation_id) (
    field "operation_kind" (str token.kind) (
      field "token_epoch" (int token.epoch)
        (field "current_epoch" (int (pos m.operation_epoch)) end)))

unfoldable pub accept_result : OperationToken → String → Tick → Action Machine Bool
accept_result token correlation_id tick m =
    if is_current token m
    then (ok true, m)
    else (emit stale_result_rejected correlation_id "operation_epoch_mismatch"
            (stale_details token m) tick
          >> pure false)
        m

-- `record`
unfoldable pub record_event :
    EventType → String → String → Fields → Tick → Action Machine TelemetryEvent
record_event event_type correlation_id reason_code payload tick = do
  raise_when (is_blank reason_code) (value_error "reason_code must not be empty")
  emit event_type correlation_id reason_code payload tick

-- A call of one of the methods that a client makes, and what it leaves, returned or raised.
pub data Call : Type 0 where
  call_transition : ConversationState → String → String → Fields → Tick → Call
  call_issue : String → Tick → Call
  call_invalidate : String → String → Tick → Call
  call_accept : OperationToken → String → Tick → Call
  call_record : EventType → String → String → Fields → Tick → Call

unfoldable pub after_call : Call → Machine → Machine
unfolding transition issue_operation invalidate_operations accept_result record_event
after_call (call_transition t r c p k) m = (transition t r c p k m).1
after_call (call_issue kind k) m = (issue_operation kind k m).1
after_call (call_invalidate r c k) m = (invalidate_operations r c k m).1
after_call (call_accept token c k) m = (accept_result token c k m).1
after_call (call_record e r c p k) m = (record_event e c r p k m).1

unfoldable pub after_calls : List Call → Machine → Machine
after_calls [] m = m
after_calls (c ∷ cs) m = after_calls cs (after_call c m)
