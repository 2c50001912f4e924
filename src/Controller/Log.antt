-- ===== src/Controller/Log.antt =====
-- The event stream of src/humanflow/controller/state_machine.py over every sequence of calls.
use humanflow.Shared.Result.{ok}
use humanflow.Controller.Outcome.{accept_result_state, moved, sent, emit_cases}
use humanflow.Telemetry.Payload.{Fields}
use humanflow.Shared.{
  ℕ, ◌+◌, ◌≤◌, ◌<◌, String, ◌≡◌, refl, inl, inr, List, [], ◌∷◌, ◌++◌, arith, nat_instance,
  string_instance, int_instance,
}
use humanflow.Telemetry.Event.{stale_result_rejected, TelemetryEvent, EventType, state_transitioned}
use humanflow.Controller.Machine.{
  new_machine, stale_details, after_calls, transition_details, emit, after_call, append_event,
  Machine, Tick, Call,
}

-- Sequence numbers grow from `lo` on and stay at or below `hi`.
abbrev pub Increasing : ℕ → List TelemetryEvent → ℕ → Type 0
Increasing lo [] hi = lo ≤ hi
Increasing lo (e ∷ es) hi = (lo < e.sequence) × Increasing e.sequence es hi

Increasing-snoc :
    (lo : ℕ) (es : List TelemetryEvent) (hi : ℕ) (e : TelemetryEvent)
    → Increasing lo es hi
    → e.sequence ≡ hi + 1
    → Increasing lo (es ++ (e ∷ [])) (hi + 1)
Increasing-snoc lo [] hi e h n = omega arith
Increasing-snoc lo (x ∷ es) hi e h n = (h.0, Increasing-snoc x.sequence es hi e h.1 n)

Increasing-later :
    (lo : ℕ) (es : List TelemetryEvent) (hi hi' : ℕ)
    → hi ≤ hi'
    → Increasing lo es hi
    → Increasing lo es hi'
Increasing-later lo [] hi hi' l h = omega arith
Increasing-later lo (x ∷ es) hi hi' l h = (h.0, Increasing-later x.sequence es hi hi' l h.1)

abbrev pub IsOrdered : Machine → Type 0
IsOrdered m = Increasing 0 m.events m.sequence

emit-IsOrdered :
    (t : EventType) (c r : String) (p : Fields) (k : Tick) (m : Machine)
    → IsOrdered m
    → IsOrdered (emit t c r p k m).1
unfolding append_event
emit-IsOrdered t c r p k m h = elim (emit_cases t c r p k m) [
  | inl e ↦ rw e (Increasing-snoc 0 m.events m.sequence (sent t c r p k m) h refl)
  | inr (x, e) ↦ rw e (Increasing-later 0 m.events m.sequence (m.sequence + 1) (omega arith) h)
]

after_call-IsOrdered : (c : Call) (m : Machine) → IsOrdered m → IsOrdered (after_call c m)
unfolding after_call
after_call-IsOrdered (Call.call_transition t r c p k) m h = ground (
  arith,
  emit-IsOrdered state_transitioned c r
      (transition_details m.state t (m.revision + 1) m.operation_epoch p) k (moved t m) h,
)
after_call-IsOrdered (Call.call_issue kind k) m h = h
after_call-IsOrdered (Call.call_invalidate r c k) m h = emit-IsOrdered _ c r _ k _ h
after_call-IsOrdered (Call.call_accept token c k) m h = rw (accept_result_state token c k m) (
    ground (
      arith,
      emit-IsOrdered stale_result_rejected c "operation_epoch_mismatch" (stale_details token m) k m
          h,
    ))
after_call-IsOrdered (Call.call_record e r c p k) m h = ground (arith, emit-IsOrdered e c r p k m h)

new_machine_empty :
    (id : String) (m : Machine) → new_machine id ≡ ok m → (m.events ≡ []) × (m.sequence ≡ 0)
unfolding new_machine
new_machine_empty id m e = ground arith

after_calls_keep : (cs : List Call) (m : Machine) → IsOrdered m → IsOrdered (after_calls cs m)
unfolding after_calls
after_calls_keep [] m h = h
after_calls_keep (c ∷ cs) m h = after_calls_keep cs (after_call c m) (after_call-IsOrdered c m h)

-- From a new machine, after any calls at all, also calls that raise, the events stand in strictly
-- growing order of sequence numbers, none above the counter.
pub after_calls-IsOrdered :
    (id : String) (cs : List Call) (m : Machine)
    → new_machine id ≡ ok m
    → IsOrdered (after_calls cs m)
after_calls-IsOrdered id cs m e =
    let (none_sent, zero_count) = new_machine_empty id m e in
    after_calls_keep cs m (rw none_sent (omega arith))
