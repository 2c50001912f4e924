-- ===== src/Tools/Attempts.antt =====
-- One attempt of src/humanflow/tools/executor.py with sound metadata, on every branch.
use humanflow.Tools.Executor.{
  start_recovery, announce, failure_fields, issue, report, attempt_fields, move, begin_attempt,
  invalidate, fail_attempt,
}
use humanflow.Tools.Calls.{failure_reason, Executor, Request}
use humanflow.Controller.Outcome.{emit_sound}
use humanflow.Telemetry.Payload.{str, int, end, field, Fields}
use humanflow.Telemetry.Event.{operation_invalidated, tool_started, recovery_started, tool_failed}
use humanflow.Controller.Staleness.{issued}
use humanflow.Tools.Returns.{do_when-Returns, bind-Returns, Returns}
use humanflow.Shared.Result.{checked_ok, ok, Error}
use humanflow.Tools.Steps.{metadata, move-At, report-At, At, IsSoundRequest}
use humanflow.Shared.Text.{visible_head, is_blank}
use humanflow.Controller.Graph.{is_allowed}
use humanflow.Controller.Machine.{
  append_event, invalidate_operations, Machine, is_current, Tick, issue_operation,
}
use humanflow.Shared.{
  ℕ, ◌+◌, String, ◌≡◌, refl, sym, ap, ◌∙◌, Bool, true, false, not, arith, eq_iff, ◌==◌,
  nat_instance, string_instance, pos, int_instance,
}
use Prim.Native.String.{◌++◌ as str_append}
use mathlib.Core.Path.{subst}
use text.Mathlib.TextLemmas.{cons-append}
use humanflow.Conversation.{
  state_instance, token_checks, ConversationState, OperationToken, make_token, thinking, tool_wait,
  recovering,
}
use humanflow.Shared.Action.{Action, ◌>>=◌, ◌>>◌, bind_ok, pure, do_when}

prefixed : (s : String) → is_blank (str_append "tool:" s) ≡ false
prefixed s = ap is_blank (cons-append "t" "ool:" s) ∙ visible_head "t" (str_append "ool:" s) refl

issue_sound :
    (kind : String) (k : Tick) (m : Machine)
    → is_blank m.conversation_id ≡ false
    → is_blank k.fresh_id ≡ false
    → is_blank kind ≡ false
    → issue_operation kind k m ≡ (ok (issued kind k m), m)
unfolding issue_operation make_token
issue_sound kind k m named fresh full =
    rw
      (checked_ok (token_checks (issued kind k m)) (issued kind k m)
        (named, (ground arith, (fresh, (full, tt)))))
      refl

-- The reasons of the executor are not blank.
pub reason_full :
    (is_blank "tool_call_started" ≡ false)
    × (is_blank "provider_call_started" ≡ false)
    × (is_blank "tool_attempt_failed" ≡ false)
    × (is_blank "provider_response_accepted" ≡ false)
    × (is_blank "tool_result_available" ≡ false)
    × (is_blank "retry_succeeded" ≡ false)
    × (is_blank "fallback_invalid_response" ≡ false)
    × (is_blank "safe_tool_fallback" ≡ false)
    × (is_blank "safe_fallback_returned" ≡ false)
    × (is_blank "bounded_tool_retry" ≡ false)
unfolding is_blank
reason_full = (refl, refl, refl, refl, refl, refl, refl, refl, refl, refl)

pub edges :
    (is_allowed thinking tool_wait ≡ true)
    × (is_allowed tool_wait recovering ≡ true)
    × (is_allowed recovering thinking ≡ true)
    × (is_allowed tool_wait thinking ≡ true)
unfolding is_allowed
edges = (refl, refl, refl, refl)

-- The token of an attempt is current and the conversation waits for the tool.
abbrev pub Begun : Executor → ℕ → OperationToken → Executor → Type 0
Begun start n token s = At start tool_wait n s × (is_current token s.machine ≡ true)

module _ (q : Request) (sound : IsSoundRequest q) (start : Executor)
    (known : is_blank start.machine.conversation_id ≡ false) where
  current_token :
      (kind : String) (k : Tick) (n : ℕ) (s s' : Executor)
      → At start tool_wait n s
      → At start tool_wait n s'
      → is_current (issued kind k s.machine) s'.machine ≡ true
  unfolding is_current
  current_token kind k n s s' h h' =
      let c : s.machine.conversation_id ≡ s'.machine.conversation_id =
        h.conversation ∙ sym h'.conversation in
      let e : s.machine.operation_epoch ≡ s'.machine.operation_epoch = h.epoch ∙ sym h'.epoch in
      ground (arith, eq_iff s.machine.conversation_id s'.machine.conversation_id)

  pub begin_attempt-Begun :
      (n k : ℕ) (s : Executor)
      → At start thinking k s
      → Returns (Begun start k) (begin_attempt q n s)
  unfolding begin_attempt
  begin_attempt-Begun n k s h =
      bind-Returns (λ u s'. At start tool_wait k s') (Begun start k)
        (do_when (s.machine.state == thinking)
          (move q tool_wait "tool_call_started" (attempt_fields q n end)))
        (λ u. issue q n >>= announce q n) s
        (do_when-Returns (λ u s'. At start tool_wait k s') (s.machine.state == thinking)
          (move q tool_wait "tool_call_started" (attempt_fields q n end)) s
          (λ _.
            move-At q sound start known tool_wait "tool_call_started" (attempt_fields q n end)
              thinking k s edges.0 reason_full.0 h)
          (λ other. let same = (state_instance.same_iff s.machine.state thinking).1 h.stands in cc))
        (λ u s1 h1.
          subst (Returns (Begun start k))
            (sym (
              bind_ok (issue q n) (announce q n) s1 s1
                (issued (str_append "tool:" q.name) (q.attempts n).operation s1.machine)
                (ap (λ o. (o.0, record s1 { machine = o.1 }))
                  (issue_sound (str_append "tool:" q.name) (q.attempts n).operation s1.machine
                    (ap is_blank h1.conversation ∙ known) (sound.identified n) (prefixed q.name)))))
            (bind-Returns (λ u s'. At start tool_wait k s') (Begun start k)
              (report q tool_started "provider_call_started" (attempt_fields q n end))
              (λ u. pure (issued (str_append "tool:" q.name) (q.attempts n).operation s1.machine))
              s1
              (report-At q sound start known tool_started "provider_call_started"
                (attempt_fields q n end) tool_wait k s1 reason_full.1 h1)
              (λ u s2 h2. (
                h2,
                current_token (str_append "tool:" q.name) (q.attempts n).operation k s1 s2 h1 h2,
              ))))

  pub invalidate-At :
      (st : ConversationState) (k : ℕ) (s : Executor)
      → At start st k s
      → Returns (λ e s'. At start st (k + 1) s') (invalidate q s)
  unfolding invalidate_operations append_event
  invalidate-At st k s h =
      let m : Machine = record s.machine { operation_epoch = s.machine.operation_epoch + 1 } in
      let p : Fields =
        field "previous_epoch" (int (pos s.machine.operation_epoch))
          (field "new_epoch" (int (pos (s.machine.operation_epoch + 1))) end) in
      let sure = metadata q sound start known s h.conversation in
      rw
        (emit_sound operation_invalidated q.correlation_id "tool_attempt_failed" p
          (q.clock s.machine.sequence) m
          (record { named = sure.named; correlated = sure.correlated; timed = sure.timed })
          reason_full.2)
        (record {
          stands = h.stands;
          epoch = omega (arith, h.epoch);
          conversation = h.conversation;
          seen = h.seen;
        })

  pub fail_attempt-At :
      (n k : ℕ) (begun : Bool) (x : Error) (s : Executor)
      → is_blank (failure_reason x) ≡ false
      → At start tool_wait k s
      → Returns (λ u s'. At start recovering (k + 1) s') (fail_attempt q n begun x s)
  unfolding fail_attempt
  fail_attempt-At n k begun x s full h =
      let Left : Unit {0} → Executor → Type 0 = λ u s'. At start recovering (k + 1) s' in
      let leave : Action Executor (Unit {0}) =
        move q recovering (failure_reason x) (attempt_fields q n end) in
      bind-Returns (λ u s'. At start tool_wait k s') Left
        (report q tool_failed (failure_reason x) (failure_fields q n x))
        (λ u. invalidate q >> (leave >> start_recovery q begun x)) s
        (report-At q sound start known tool_failed (failure_reason x) (failure_fields q n x)
          tool_wait k s full h)
        (λ u s1 h1.
          bind-Returns (λ e s'. At start tool_wait (k + 1) s') Left (invalidate q)
            (λ e. leave >> start_recovery q begun x) s1 (invalidate-At tool_wait k s1 h1)
            (λ e s2 h2.
              bind-Returns Left Left leave (λ u. start_recovery q begun x) s2
                (move-At q sound start known recovering (failure_reason x) (attempt_fields q n end)
                  tool_wait (k + 1) s2 edges.1 full h2)
                (λ u s3 h3.
                  do_when-Returns Left (not begun)
                    (report q recovery_started (failure_reason x)
                      (field "tool_name" (str q.name) end))
                    s3
                    (λ _.
                      report-At q sound start known recovery_started (failure_reason x)
                        (field "tool_name" (str q.name) end) recovering (k + 1) s3 full h3)
                    (λ _. h3))))
