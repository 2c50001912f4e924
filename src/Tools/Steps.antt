-- ===== src/Tools/Steps.antt =====
-- The steps of src/humanflow/tools/executor.py with sound metadata: where each leaves the conversation.
use humanflow.Tools.Executor.{report, move}
use humanflow.Tools.Calls.{on_machine, failure_reason, Executor, Request}
use humanflow.Tools.Returns.{Returns}
use humanflow.Controller.Graph.{is_allowed}
use humanflow.Telemetry.Event.{TelemetryEvent, EventType}
use humanflow.Controller.Machine.{transition, Machine, Tick, append_event, record_event}
use humanflow.Shared.Result.{ok, err, Error}
use humanflow.Controller.Outcome.{
  transition_sound, moved, emit_sound, sequenced, sent, transitioned, IsSound,
}
use humanflow.Telemetry.Payload.{Fields}
use humanflow.Shared.Text.{is_blank}
use humanflow.Conversation.{ConversationState}
use humanflow.Shared.{
  ℕ, ◌+◌, String, ◌≡◌, refl, sym, ap, ◌∙◌, true, false, nat_instance, string_instance, pos, ◌≤ℤ◌,
  leb_ℤ, int_instance,
}
use mathlib.Core.Path.{subst}
use humanflow.Shared.Action.{bind_ok, pure}

-- The metadata that the event envelope and the results check.
pub record IsSoundRequest (q : Request) : Type 0 where
  pub named : is_blank q.name ≡ false
  pub correlated : is_blank q.correlation_id ≡ false
  pub timed : (n : ℕ) → pos 0 ≤ℤ (q.clock n).monotonic_ns
  pub identified : (n : ℕ) → is_blank (q.attempts n).operation.fresh_id ≡ false
  pub reasoned :
      (n : ℕ) (x : Error) → (q.attempts n).reply ≡ err x → is_blank (failure_reason x) ≡ false
  pub forward : (n : ℕ) → leb_ℤ q.started_ns (q.attempts n).ended_ns ≡ true
  pub forward_fallback : leb_ℤ q.started_ns q.fallback.ended_ns ≡ true

-- The conversation is in a state, a number of invalidations after the start.
pub record At (start : Executor) (state : ConversationState) (n : ℕ) (s : Executor) : Type 0 where
  pub stands : s.machine.state ≡ state
  pub epoch : s.machine.operation_epoch ≡ start.machine.operation_epoch + n
  pub conversation : s.machine.conversation_id ≡ start.machine.conversation_id
  pub seen : s.seen_response_ids ≡ start.seen_response_ids

record_sound :
    (kind : EventType) (c r : String) (p : Fields) (k : Tick) (m : Machine)
    → IsSound c k m
    → is_blank r ≡ false
    → record_event kind c r p k m
      ≡ (ok (sent kind c r p k m), append_event (sent kind c r p k m) (sequenced m))
unfolding record_event
record_sound kind c r p k m s full = rw (full, emit_sound kind c r p k m s full) refl

module _ (q : Request) (sound : IsSoundRequest q) (start : Executor)
    (known : is_blank start.machine.conversation_id ≡ false) where
  pub metadata :
      (s : Executor)
      → s.machine.conversation_id ≡ start.machine.conversation_id
      → IsSound q.correlation_id (q.clock s.machine.sequence) s.machine
  metadata s h = record {
    named = ap is_blank h ∙ known;
    correlated = sound.correlated;
    timed = sound.timed s.machine.sequence;
  }

  pub report-At :
      (kind : EventType) (reason : String) (p : Fields) (st : ConversationState) (n : ℕ)
      (s : Executor)
      → is_blank reason ≡ false
      → At start st n s
      → Returns (λ u s'. At start st n s') (report q kind reason p s)
  unfolding report append_event
  report-At kind reason p st n s full h =
      let k : Tick = q.clock s.machine.sequence in
      subst (Returns (λ u s'. At start st n s'))
        (sym (
          bind_ok
            (on_machine (λ m. record_event kind q.correlation_id reason p (q.clock m.sequence) m))
            (λ e. pure tt) s
            (record s {
              machine =
                  append_event (sent kind q.correlation_id reason p k s.machine)
                    (sequenced s.machine);
            })
            (sent kind q.correlation_id reason p k s.machine)
            (ap (λ o. (o.0, record s { machine = o.1 }))
              (record_sound kind q.correlation_id reason p k s.machine (metadata s h.conversation)
                full))))
        (record {
          stands = h.stands;
          epoch = h.epoch;
          conversation = h.conversation;
          seen = h.seen;
        })

  pub move-At :
      (target : ConversationState) (reason : String) (p : Fields) (st : ConversationState) (n : ℕ)
      (s : Executor)
      → is_allowed st target ≡ true
      → is_blank reason ≡ false
      → At start st n s
      → Returns (λ u s'. At start target n s') (move q target reason p s)
  unfolding move append_event
  move-At target reason p st n s edge full h =
      let k : Tick = q.clock s.machine.sequence in
      let e : TelemetryEvent = transitioned target reason q.correlation_id p k s.machine in
      subst (Returns (λ u s'. At start target n s'))
        (sym (
          bind_ok
            (on_machine (λ m. transition target reason q.correlation_id p (q.clock m.sequence) m))
            (λ x. pure tt) s
            (record s { machine = append_event e (sequenced (moved target s.machine)) }) e
            (ap (λ o. (o.0, record s { machine = o.1 }))
              (transition_sound target reason q.correlation_id p k s.machine
                (metadata s h.conversation) (ap (λ x. is_allowed x target) h.stands ∙ edge) full))))
        (record { stands = refl; epoch = h.epoch; conversation = h.conversation; seen = h.seen })
