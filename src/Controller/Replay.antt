-- ===== src/Controller/Replay.antt =====
-- The event stream of src/humanflow/controller/state_machine.py, replayed, where every call has sound
-- metadata.
use humanflow.Shared.Result.{err, ok, Result}
use humanflow.Shared.Text.{is_blank}
use humanflow.Telemetry.Payload.{end, int, field, Fields}
use humanflow.Controller.Graph.{Edge}
use humanflow.Shared.{
  inr, inl, Bool-cases, pos, ℕ, ◌+◌, String, ◌≡◌, refl, Bool, true, false, List, [], ◌∷◌, ◌++◌,
  arith, if◌then◌else◌, nat_instance, string_instance, int_instance, length, length-append,
}
use humanflow.Telemetry.Event.{
  stale_result_rejected, EventType, TelemetryEvent, state_transitioned, operation_invalidated,
}
use humanflow.Controller.Machine.{
  new_machine, transition_details, is_current, after_calls, emit, transition, after_call, Call,
  append_event, Machine, Tick,
}
use humanflow.Conversation.{idle, ConversationState}
use humanflow.Controller.Outcome.{
  mismatch, transition-Transitions, moved, accept_result_state, emit_sound, Transitions, IsSound,
  sequenced, sent,
}

abbrev pub is_transition : EventType → Bool
is_transition state_transitioned = true
is_transition _ = false

abbrev pub is_invalidation : EventType → Bool
is_invalidation operation_invalidated = true
is_invalidation _ = false

pub transitions : List TelemetryEvent → ℕ
transitions [] = 0
transitions (e ∷ es) = (if is_transition e.event_type then 1 else 0) + transitions es

pub invalidations : List TelemetryEvent → ℕ
invalidations [] = 0
invalidations (e ∷ es) = (if is_invalidation e.event_type then 1 else 0) + invalidations es

-- A transition event follows an edge of the table; any other event reports the state as it is.
abbrev pub Moves : Bool → ConversationState → ConversationState → Type 0
Moves true s t = Edge s t
Moves false s t = s ≡ t

-- Reading the events from `s` on leads to `t`.
abbrev pub Replays : ConversationState → List TelemetryEvent → ConversationState → Type 0
Replays s [] t = s ≡ t
Replays s (e ∷ es) t = Moves (is_transition e.event_type) s e.state × Replays e.state es t

-- The events number themselves from `n + 1` on without a gap.
abbrev pub Numbered : ℕ → List TelemetryEvent → Type 0
Numbered n [] = Unit
Numbered n (e ∷ es) = (e.sequence ≡ n + 1) × Numbered (n + 1) es

pub record IsTruthful (m : Machine) : Type 0 where
  pub counted : m.sequence ≡ length m.events
  pub numbered : Numbered 0 m.events
  pub replayed : Replays idle m.events m.state
  pub revised : m.revision ≡ transitions m.events
  pub invalidated : m.operation_epoch ≡ invalidations m.events

Replays-snoc :
    (s : ConversationState) (es : List TelemetryEvent) (t : ConversationState) (e : TelemetryEvent)
    → Replays s es t
    → Moves (is_transition e.event_type) t e.state
    → Replays s (es ++ (e ∷ [])) e.state
Replays-snoc s [] t e h m = (rw h m, refl)
Replays-snoc s (x ∷ es) t e h m = (h.0, Replays-snoc x.state es t e h.1 m)

Numbered-snoc :
    (n : ℕ) (es : List TelemetryEvent) (e : TelemetryEvent)
    → Numbered n es
    → e.sequence ≡ n + length es + 1
    → Numbered n (es ++ (e ∷ []))
Numbered-snoc n [] e h m = (omega arith, tt)
Numbered-snoc n (x ∷ es) e h m = (h.0, Numbered-snoc (n + 1) es e h.1 (omega arith))

transitions-snoc :
    (es : List TelemetryEvent) (e : TelemetryEvent)
    → transitions (es ++ (e ∷ [])) ≡ transitions es + (if is_transition e.event_type then 1 else 0)
unfolding transitions
transitions-snoc [] e = omega arith
transitions-snoc (x ∷ es) e = omega (arith, transitions-snoc es e)

invalidations-snoc :
    (es : List TelemetryEvent) (e : TelemetryEvent)
    → invalidations (es ++ (e ∷ []))
      ≡ invalidations es + (if is_invalidation e.event_type then 1 else 0)
unfolding invalidations
invalidations-snoc [] e = omega arith
invalidations-snoc (x ∷ es) e = omega (arith, invalidations-snoc es e)

-- One sent event keeps the stream truthful, if the writes before it are the ones it stands for.
sent-IsTruthful :
    (t : EventType) (c r : String) (p : Fields) (k : Tick) (m w : Machine)
    → IsTruthful m
    → w.events ≡ m.events
    → w.sequence ≡ m.sequence
    → Moves (is_transition t) m.state w.state
    → w.revision ≡ m.revision + (if is_transition t then 1 else 0)
    → w.operation_epoch ≡ m.operation_epoch + (if is_invalidation t then 1 else 0)
    → IsTruthful (append_event (sent t c r p k w) (sequenced w))
unfolding append_event
sent-IsTruthful t c r p k m w h ev sq mv rv ep = record {
  counted = rw ev (omega (arith, length-append {0} m.events (sent t c r p k w ∷ []), h.counted));
  numbered =
      rw ev (Numbered-snoc 0 m.events (sent t c r p k w) h.numbered (omega (arith, h.counted)));
  replayed = rw ev (Replays-snoc idle m.events m.state (sent t c r p k w) h.replayed mv);
  revised = rw ev (omega (arith, transitions-snoc m.events (sent t c r p k w), h.revised));
  invalidated =
      rw ev (omega (arith, invalidations-snoc m.events (sent t c r p k w), h.invalidated));
}

-- The metadata that a call needs for its envelope; `record` is for other events than the two that
-- the machine sends itself.
abbrev pub IsSoundCall : Call → Machine → Type 0
IsSoundCall (Call.call_transition t r c p k) m = IsSound c k m
IsSoundCall (Call.call_issue kind k) m = Unit
IsSoundCall (Call.call_invalidate r c k) m = IsSound c k m × (is_blank r ≡ false)
IsSoundCall (Call.call_accept token c k) m = IsSound c k m
IsSoundCall (Call.call_record e r c p k) m =
    IsSound c k m × (is_transition e ≡ false) × (is_invalidation e ≡ false)

after_transition-IsTruthful :
    (t : ConversationState) (r c : String) (p : Fields) (k : Tick) (m : Machine)
    → IsSound c k m
    → IsTruthful m
    → IsTruthful (transition t r c p k m).1
after_transition-IsTruthful t r c p k m s h =
    go (transition t r c p k m) (transition-Transitions t r c p k m s)
  where
    go : (o : Result TelemetryEvent × Machine) → Transitions t r c p k m o → IsTruthful o.1
    go (ok e, m') (edge, full, (same, left)) = rw left (
        sent-IsTruthful state_transitioned c r
          (transition_details m.state t (m.revision + 1) m.operation_epoch p) k m (moved t m) h refl
          refl edge refl (omega arith))
    go (err x, m') (left, why) = rw left h

same-IsSound :
    {c : String} {k : Tick} {m : Machine} (w : Machine)
    → IsSound c k m
    → w.conversation_id ≡ m.conversation_id
    → IsSound c k w
same-IsSound w s e = record { named = rw e s.named; correlated = s.correlated; timed = s.timed }

emit-IsTruthful :
    (t : EventType) (c r : String) (p : Fields) (k : Tick) (m : Machine)
    → IsSound c k m
    → is_blank r ≡ false
    → is_transition t ≡ false
    → is_invalidation t ≡ false
    → IsTruthful m
    → IsTruthful (emit t c r p k m).1
emit-IsTruthful t c r p k m s full nt ni h = rw (emit_sound t c r p k m s full) (
    sent-IsTruthful t c r p k m m h refl refl (rw nt refl) (rw nt (omega arith))
      (rw ni (omega arith)))

after_call-IsTruthful :
    (c : Call) (m : Machine) → IsSoundCall c m → IsTruthful m → IsTruthful (after_call c m)
unfolding after_call
after_call-IsTruthful (Call.call_transition t r c p k) m s h =
    after_transition-IsTruthful t r c p k m s h
after_call-IsTruthful (Call.call_issue kind k) m s h = h
after_call-IsTruthful (Call.call_invalidate r c k) m s h =
    let p =
      field "previous_epoch" (int (pos m.operation_epoch))
        (field "new_epoch" (int (pos (m.operation_epoch + 1))) end) in
    let w : Machine = record m { operation_epoch = m.operation_epoch + 1 } in
    rw (emit_sound operation_invalidated c r p k w (same-IsSound w s.0 refl) s.1, after_call)
      (sent-IsTruthful operation_invalidated c r p k m w h refl refl refl (omega arith) refl)
after_call-IsTruthful (Call.call_accept token c k) m s h =
    rw (accept_result_state token c k m, after_call)
      (elim (Bool-cases (is_current token m)) [
        | inl current ↦ rw current h
        | inr stale ↦
            rw stale (emit-IsTruthful stale_result_rejected c _ _ k m s mismatch refl refl h)
      ])
after_call-IsTruthful (Call.call_record e r c p k) m s h = elim (Bool-cases (is_blank r)) [
  | inl blank ↦ rw (blank, after_call) h
  | inr full ↦ rw (full, after_call) (emit-IsTruthful e c r p k m s.0 full s.1 s.2 h)
]

-- Every call of the list has sound metadata when it is made.
abbrev pub AllSound : List Call → Machine → Type 0
AllSound [] m = Unit
AllSound (c ∷ cs) m = IsSoundCall c m × AllSound cs (after_call c m)

after_calls_keep :
    (cs : List Call) (m : Machine) → IsTruthful m → AllSound cs m → IsTruthful (after_calls cs m)
unfolding after_calls
after_calls_keep [] m h s = h
after_calls_keep (c ∷ cs) m h s =
    after_calls_keep cs (after_call c m) (after_call-IsTruthful c m s.0 h) s.1

abbrev IsNew : Machine → Type 0
IsNew m =
    (m.state ≡ idle)
    × (m.revision ≡ 0)
    × (m.sequence ≡ 0)
    × (m.operation_epoch ≡ 0)
    × (m.events ≡ [])

new_machine-IsNew : (id : String) (m : Machine) → new_machine id ≡ ok m → IsNew m
unfolding new_machine
new_machine-IsNew id m e = ground arith

-- From a new machine, after any calls with sound metadata: the events are numbered from 1 without a
-- gap up to the counter, replaying them from IDLE along the table of transitions leads to the
-- machine's state, and the revision and the operation epoch count the transition events and the
-- invalidation events.
pub after_calls-IsTruthful :
    (id : String) (cs : List Call) (m : Machine)
    → new_machine id ≡ ok m
    → AllSound cs m
    → IsTruthful (after_calls cs m)
unfolding transitions invalidations
after_calls-IsTruthful id cs m e s =
    let (st, rv, sq, ep, ev) = new_machine-IsNew id m e in
    after_calls_keep cs m
      (record {
        counted = rw ev sq;
        numbered = rw ev tt;
        replayed = rw (ev, st);
        revised = rw ev rv;
        invalidated = rw ev ep;
      })
      s
