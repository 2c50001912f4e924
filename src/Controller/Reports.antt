-- ===== src/Controller/Reports.antt =====
-- What the events of src/humanflow/controller/state_machine.py say of a transition, and what is left
-- behind when the envelope of the event is refused.
use humanflow.Controller.Graph.{is_allowed}
use humanflow.Shared.Text.{is_blank}
use humanflow.Telemetry.Redaction.{get-put, get-sanitize_fields}
use humanflow.Shared.Result.{value_error, err, checked, ok}
use humanflow.Controller.Outcome.{
  self_edge, moved, sequenced, Transitions, transition-Transitions, IsSound,
}
use humanflow.Telemetry.Event.{create, TelemetryEvent}
use humanflow.Shared.{
  true, false, ℕ, ◌+◌, String, ◌≡◌, some, nat_instance, string_instance, pos, int_instance,
}
use mathlib.Core.Path.{subst}
use humanflow.Controller.Machine.{emit, transition, Machine, Tick, transition_details}
use humanflow.Telemetry.Payload.{
  int, sanitize_fields, sanitize_value, str, is_sensitive, sanitize, get, Fields,
}
use humanflow.Conversation.{state_value, ConversationState}

-- The payload entries that `transition` writes.
pub record Reports (source target : ConversationState) (revision epoch : ℕ) (payload : Fields)
    : Type 0 where
  pub from_state : get "from_state" payload ≡ some (str (state_value source))
  pub to_state : get "to_state" payload ≡ some (str (state_value target))
  pub revision_lem : get "revision" payload ≡ some (int (pos revision))
  pub epoch_lem : get "operation_epoch" payload ≡ some (int (pos epoch))

details-Reports :
    (s t : ConversationState) (r e : ℕ) (p : Fields)
    → Reports s t r e (sanitize_fields (transition_details s t r e p))
unfolding transition_details sanitize is_sensitive sanitize_value
details-Reports s t r e p = record {
  from_state = simp (get-sanitize_fields, get-put);
  to_state = simp (get-sanitize_fields, get-put);
  revision_lem = simp (get-sanitize_fields, get-put);
  epoch_lem = simp (get-sanitize_fields, get-put);
}

-- The event of a successful transition names the states before and after, the new revision and the
-- epoch, whatever payload the caller gave: the caller cannot overwrite these entries, and the
-- redaction does not reach them.
pub transition-Reports :
    (target : ConversationState) (r c : String) (p : Fields) (k : Tick) (m m' : Machine)
    (e : TelemetryEvent)
    → IsSound c k m
    → transition target r c p k m ≡ (ok e, m')
    → Reports m.state target (m.revision + 1) m.operation_epoch e.payload
transition-Reports target r c p k m m' e s h =
    let t : Transitions target r c p k m (ok e, m') =
      subst (Transitions target r c p k m) h (transition-Transitions target r c p k m s) in
    rw t.2.0 (details-Reports m.state target (m.revision + 1) m.operation_epoch p)

-- A transition along an allowed edge with a reason but a blank correlation id raises after it has
-- moved: the state and the revision are the new ones, a sequence number is spent, and no event tells.
pub transition_blank_correlation :
    (target : ConversationState) (r c : String) (p : Fields) (k : Tick) (m : Machine)
    → is_blank m.conversation_id ≡ false
    → is_allowed m.state target ≡ true
    → is_blank r ≡ false
    → is_blank c ≡ true
    → transition target r c p k m
      ≡ (err (value_error "correlation_id must not be empty"), sequenced (moved target m))
unfolding transition emit create checked
transition_blank_correlation target r c p k m named e full blank =
    rw (e, self_edge m.state target e, full, named, blank)
