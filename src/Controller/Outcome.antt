-- ===== src/Controller/Outcome.antt =====
-- How the methods of `ConversationStateMachine` end, on every branch.
use humanflow.Controller.Graph.{is_allowed_irrefl, is_allowed, Edge}
use humanflow.Shared.{
  if◌then◌else◌, ◌||◌, ◌+◌, String, ◌≡◌, refl, ◌⊎◌, inl, inr, Bool, true, false, arith, Bool-cases,
  ◌==◌, nat_instance, string_instance, pos, ◌≤ℤ◌, int_instance,
}
use mathlib.Core.Bool.{false≢true}
use humanflow.Shared.Text.{is_blank}
use humanflow.Shared.Result.{
  value_error, invalid_transition, Result, checked_ok, checked_cases, ok, err, Error,
}
use humanflow.Conversation.{OperationToken, ConversationState, state_instance}
use humanflow.Telemetry.Payload.{Fields, sanitize_fields}
use humanflow.Telemetry.Event.{
  stale_result_rejected, state_transitioned, event_checks, EventType, TelemetryEvent, create,
}
use humanflow.Controller.Machine.{
  stale_details, is_current, accept_result, transition_details, transition, envelope, Tick, Machine,
  append_event, emit,
}

-- The event that `_emit` is to send, with its payload sanitised.
abbrev pub sent : EventType → String → String → Fields → Tick → Machine → TelemetryEvent
sent event_type correlation_id reason_code payload tick m = record {
  event_type = event_type;
  conversation_id = m.conversation_id;
  correlation_id = correlation_id;
  sequence = m.sequence + 1;
  utc = tick.utc;
  monotonic_ns = tick.monotonic_ns;
  state = m.state;
  reason_code = reason_code;
  payload = sanitize_fields payload;
  event_id = tick.fresh_id;
}

abbrev pub sequenced : Machine → Machine
sequenced m = record m { sequence = m.sequence + 1 }

-- What the envelope's checks ask of a call.
pub record IsSound (correlation_id : String) (tick : Tick) (m : Machine) : Type 0 where
  pub named : is_blank m.conversation_id ≡ false
  pub correlated : is_blank correlation_id ≡ false
  pub timed : pos 0 ≤ℤ tick.monotonic_ns

module _ (event_type : EventType) (c r : String) (p : Fields) (k : Tick) (m : Machine) where
  pub emit_sound :
      IsSound c k m
      → is_blank r ≡ false
      → emit event_type c r p k m
        ≡ (ok (sent event_type c r p k m), append_event (sent event_type c r p k m) (sequenced m))
  unfolding emit create append_event
  emit_sound s h = rw (
      checked_ok (event_checks (envelope event_type c r p k (sequenced m)))
        (sent event_type c r p k m)
        (s.named, (s.correlated, (ground arith, (ground (arith, s.timed), (h, tt))))))

  -- An event that the envelope refuses takes a sequence number all the same.
  pub emit_cases :
      (emit event_type c r p k m
        ≡ (ok (sent event_type c r p k m), append_event (sent event_type c r p k m) (sequenced m)))
      ⊎ ((x : Error) × (emit event_type c r p k m ≡ (err x, sequenced m)))
  unfolding emit create append_event
  emit_cases =
      elim (checked_cases (event_checks (envelope event_type c r p k (sequenced m)))
        (sent event_type c r p k m)) [ inl e ↦ inl (rw e) | inr (x, e) ↦ inr (x, rw e) ]

abbrev pub moved : ConversationState → Machine → Machine
moved target m = record m { state = target; revision = m.revision + 1 }

-- What a call of `transition` with sound metadata has done, by how it ended: it took an allowed edge
-- and sent one event, or it raised and left the machine alone.
abbrev pub Transitions :
    ConversationState
    → String
    → String
    → Fields
    → Tick
    → Machine
    → Result TelemetryEvent × Machine
    → Type 0
Transitions target r c p k m (ok e, m') =
    Edge m.state target
    × (is_blank r ≡ false)
    × (let details = transition_details m.state target (m.revision + 1) m.operation_epoch p in
        let e' = sent state_transitioned c r details k (moved target m) in
        (e ≡ e') × (m' ≡ append_event e' (sequenced (moved target m))))
Transitions target r c p k m (err x, m') =
    (m' ≡ m)
    × (((x ≡ invalid_transition) × (is_allowed m.state target ≡ false))
        ⊎ ((x ≡ value_error "reason_code must not be empty") × (is_blank r ≡ true)))

pub self_edge : (s t : ConversationState) → is_allowed s t ≡ true → (t == s) ≡ false
self_edge s t e = elim (Bool-cases (t == s)) [
  | inl same ↦ absurd (false≢true (cc (is_allowed_irrefl s, (state_instance.same_iff t s).0 same)))
  | inr other ↦ other
]

or_true : (b : Bool) → (b || true) ≡ true
or_true true = refl
or_true false = refl

-- The event and the machine of a successful transition.
abbrev pub transitioned :
    ConversationState → String → String → Fields → Tick → Machine → TelemetryEvent
transitioned target r c p k m =
    sent state_transitioned c r
      (transition_details m.state target (m.revision + 1) m.operation_epoch p) k (moved target m)

pub transition_sound :
    (target : ConversationState) (r c : String) (p : Fields) (k : Tick) (m : Machine)
    → IsSound c k m
    → is_allowed m.state target ≡ true
    → is_blank r ≡ false
    → transition target r c p k m ≡ (
      ok (transitioned target r c p k m),
      append_event (transitioned target r c p k m) (sequenced (moved target m)),
    )
unfolding transition
transition_sound target r c p k m s e full =
    rw
      (
        e,
        self_edge m.state target e,
        full,
        emit_sound state_transitioned c r
            (transition_details m.state target (m.revision + 1) m.operation_epoch p) k
            (moved target m)
            (record { named = s.named; correlated = s.correlated; timed = s.timed }) full,
      )
      refl

-- With sound metadata `transition` either takes an allowed edge, counts a revision and sends exactly
-- one event, or raises (for an edge that is not in the table, or a blank reason) and changes nothing.
pub transition-Transitions :
    (target : ConversationState) (r c : String) (p : Fields) (k : Tick) (m : Machine)
    → IsSound c k m
    → Transitions target r c p k m (transition target r c p k m)
unfolding transition
transition-Transitions target r c p k m s = elim (Bool-cases (is_allowed m.state target)) [
  | inl e ↦ elim (Bool-cases (is_blank r)) [
    | inl blank ↦ rw (e, self_edge m.state target e, blank) (refl, inr (refl, blank))
    | inr full ↦ rw (transition_sound target r c p k m s e full) (e, full, (refl, refl))
  ]
  | inr no_edge ↦ rw (no_edge, or_true (target == m.state)) (refl, inl (refl, no_edge))
]

-- `accept_result` leaves the machine alone for a current token, and reports any other.
pub accept_result_state :
    (token : OperationToken) (c : String) (k : Tick) (m : Machine)
    → (accept_result token c k m).1 ≡ (
        if is_current token m
        then m
        else (emit stale_result_rejected c "operation_epoch_mismatch"
            (stale_details token m)
            k
            m).1)
unfolding accept_result
accept_result_state token c k m =
    elim (emit_cases stale_result_rejected c "operation_epoch_mismatch" (stale_details token m) k
      m) [ inl e ↦ rw e (ground arith) | inr (x, e) ↦ rw e (ground arith) ]

pub mismatch : is_blank "operation_epoch_mismatch" ≡ false
unfolding is_blank
mismatch = refl

pub accept_result_value :
    (token : OperationToken) (c : String) (k : Tick) (m : Machine)
    → IsSound c k m
    → (accept_result token c k m).0 ≡ ok (is_current token m)
unfolding accept_result
accept_result_value token c k m s = ground (
  arith,
  emit_sound stale_result_rejected c "operation_epoch_mismatch" (stale_details token m) k m s
      mismatch,
)
