-- ===== src/Tools/Finish.antt =====
-- The two ways an execution of src/humanflow/tools/executor.py ends with a result.
use humanflow.Telemetry.Event.{recovery_completed, tool_completed}
use humanflow.Shared.Result.{checked_ok, ok}
use humanflow.Tools.Returns.{do_when-Returns, bind-Returns, Returns}
use humanflow.Telemetry.Payload.{end, str, field, Fields}
use humanflow.Tools.Executor.{
  count_fields, finish_recovery, completion_fields, report, move, accept_fallback, take_fallback,
  remember, execution, recover_with_fallback, complete_attempt,
}
use humanflow.Controller.Machine.{after_calls, Machine}
use humanflow.Shared.Text.{is_blank}
use humanflow.Tools.Awaits.{IsUndisturbed}
use humanflow.Tools.Models.{
  execution_checks, ToolProviderResponse, make_execution, ToolExecutionResult,
}
use humanflow.Tools.Steps.{move-At, report-At, At, IsSoundRequest}
use humanflow.Tools.Calls.{has_failed, Executor, Request}
use humanflow.Shared.Action.{Action, ◌>>=◌, ◌>>◌, bind_ok, lift}
use humanflow.Conversation.{tool_wait, recovering, thinking, state_instance}
use humanflow.Tools.Attempts.{edges, reason_full}
use mathlib.Core.Path.{subst}
use humanflow.Shared.{
  ℕ, suc, ◌+◌, ◌≤◌, String, ◌≡◌, refl, sym, ap, ◌∙◌, Bool, true, false, Option, some, ◌∷◌, arith,
  if◌then◌else◌, nat_instance, string_instance, ℤ, -ℤ_parts, leb_ℤ, int_instance,
}

-- A completed execution from a start: the conversation thinks again, the attempts are within the limit,
-- each failed one has invalidated the operations once, and the fallback is used only after the last.
pub record Completed (q : Request) (start : Executor) (r : ToolExecutionResult) (s : Executor)
    : Type 0 where
  pub resumed : s.machine.state ≡ thinking
  pub limited : r.attempts ≤ q.max_attempts
  pub invalidated :
      s.machine.operation_epoch + (if r.used_fallback then 0 else 1)
      ≡ start.machine.operation_epoch + r.attempts
  pub exhausted : r.used_fallback ≡ true → r.attempts ≡ q.max_attempts

-- The value and the state at the end of an execution from a start.
abbrev pub Finished : Executor → ℕ → ℕ → Bool → ToolExecutionResult → Executor → Type 0
Finished start n k fallback_used r s =
    (s.machine.state ≡ thinking)
    × (s.machine.operation_epoch ≡ start.machine.operation_epoch + k)
    × (r.attempts ≡ n)
    × (r.used_fallback ≡ fallback_used)

module _ (q : Request) (sound : IsSoundRequest q) (calm : IsUndisturbed q) (start : Executor)
    (known : is_blank start.machine.conversation_id ≡ false) where
  make_execution_sound :
      (v : Fields) (n : ℕ) (recovered used : Bool) (reason : Option String) (ended_ns : ℤ)
      → 1 ≤ n
      → leb_ℤ q.started_ns ended_ns ≡ true
      → make_execution (execution q v n recovered used reason ended_ns)
        ≡ ok (execution q v n recovered used reason ended_ns)
  unfolding make_execution
  make_execution_sound v n recovered used reason ended_ns some_attempt forward =
      checked_ok (execution_checks (execution q v n recovered used reason ended_ns))
        (execution q v n recovered used reason ended_ns)
        (sound.named, (ground arith, (ground (arith, -ℤ_parts ended_ns q.started_ns), tt)))

  pub complete_attempt-Finished :
      (n k : ℕ) (reason : Option String) (r : ToolProviderResponse) (s : Executor)
      → 1 ≤ n
      → At start tool_wait k s
      → Returns (Finished start n k false) (complete_attempt q n reason r s)
  unfolding complete_attempt
  complete_attempt-Finished n k reason r s some_attempt h =
      let begin : Executor = remember q r start in
      let h0 : At begin tool_wait k (remember q r s) = record {
        stands = h.stands;
        epoch = h.epoch;
        conversation = h.conversation;
        seen = ap (λ ids. r.response_id ∷ ids) h.seen;
      } in
      let made : Action Executor ToolExecutionResult = lift (
        make_execution
          (execution q r.value n (has_failed reason) false reason (q.attempts n).ended_ns)) in
      bind-Returns (λ u s'. At begin tool_wait k s') (Finished start n k false)
        (report q tool_completed "provider_response_accepted" (completion_fields q n r))
        (λ u. move q thinking "tool_result_available" end >> (finish_recovery q n reason >> made))
        (remember q r s)
        (report-At q sound begin known tool_completed "provider_response_accepted"
          (completion_fields q n r) tool_wait k (remember q r s) reason_full.3 h0)
        (λ u s1 h1.
          bind-Returns (λ u s'. At begin thinking k s') (Finished start n k false)
            (move q thinking "tool_result_available" end) (λ u. finish_recovery q n reason >> made)
            s1
            (move-At q sound begin known thinking "tool_result_available" end tool_wait k s1 edges.3
              reason_full.4 h1)
            (λ u s2 h2.
              bind-Returns (λ u s'. At begin thinking k s') (Finished start n k false)
                (finish_recovery q n reason) (λ u. made) s2
                (do_when-Returns (λ u s'. At begin thinking k s') (has_failed reason)
                  (report q recovery_completed "retry_succeeded" (count_fields q n)) s2
                  (λ _.
                    report-At q sound begin known recovery_completed "retry_succeeded"
                      (count_fields q n) thinking k s2 reason_full.5 h2)
                  (λ _. h2))
                (λ u s3 h3.
                  subst (λ o. Returns (Finished start n k false) (o, s3))
                    (sym (
                      make_execution_sound r.value n (has_failed reason) false reason
                        (q.attempts n).ended_ns some_attempt (sound.forward n)))
                    (h3.stands, h3.epoch, refl, refl))))

  fallback-Finished :
      (n k : ℕ) (reason : String) (s : Executor)
      → 1 ≤ n
      → At start recovering k s
      → Returns (Finished start n k true) (accept_fallback q n reason calm.fallback_value s)
  fallback-Finished n k reason s some_attempt h =
      let made : Action Executor ToolExecutionResult = lift (
        make_execution
          (execution q calm.fallback_value n true true (some reason) q.fallback.ended_ns)) in
      bind-Returns (λ u s'. At start thinking k s') (Finished start n k true)
        (move q thinking "safe_tool_fallback" (field "tool_name" (str q.name) end))
        (λ u. report q recovery_completed "safe_fallback_returned" (count_fields q n) >> made) s
        (move-At q sound start known thinking "safe_tool_fallback"
          (field "tool_name" (str q.name) end) recovering k s edges.2 reason_full.7 h)
        (λ u s1 h1.
          bind-Returns (λ u s'. At start thinking k s') (Finished start n k true)
            (report q recovery_completed "safe_fallback_returned" (count_fields q n)) (λ u. made) s1
            (report-At q sound start known recovery_completed "safe_fallback_returned"
              (count_fields q n) thinking k s1 reason_full.8 h1)
            (λ u s2 h2.
              subst (λ o. Returns (Finished start n k true) (o, s2))
                (sym (
                  make_execution_sound calm.fallback_value n true true (some reason)
                    q.fallback.ended_ns some_attempt sound.forward_fallback))
                (h2.stands, h2.epoch, refl, refl)))

  given :
      (n k : ℕ) (reason : String) (s : Executor) (m : Machine)
      → m ≡ s.machine
      → 1 ≤ n
      → At start recovering k s
      → Returns
          (Finished start n k true)
          ((lift q.fallback.value >>= take_fallback q n reason) (record s { machine = m }))
  given n k reason s m same some_attempt h =
      subst
        (λ x.
          Returns (Finished start n k true)
            ((lift q.fallback.value >>= take_fallback q n reason) (record s { machine = x })))
        (sym same)
        (subst (Returns (Finished start n k true))
          (sym (
            bind_ok (lift q.fallback.value) (take_fallback q n reason) s s
              (some calm.fallback_value) (ap (λ r. (r, s)) calm.fallback_given)))
          (fallback-Finished n k reason s some_attempt h))

  pub recover_with_fallback-Finished :
      (n k : ℕ) (reason : String) (s : Executor)
      → 1 ≤ n
      → At start recovering k s
      → Returns (Finished start n k true) (recover_with_fallback q n reason s)
  unfolding recover_with_fallback after_calls
  recover_with_fallback-Finished n k reason s some_attempt h =
      given n k reason s (after_calls q.fallback.meanwhile s.machine)
        (ap (λ cs. after_calls cs s.machine) calm.quiet_fallback) some_attempt h

  pub finish_early :
      (n k : ℕ) (r : ToolExecutionResult) (s : Executor)
      → suc k ≡ n
      → n ≤ q.max_attempts
      → Finished start n k false r s
      → Completed q start r s
  finish_early n k r s e le (stands, epoch, count, used) = record {
    resumed = stands;
    limited = omega arith;
    invalidated = rw used (omega arith);
    exhausted = λ x. cc;
  }

  pub finish_late :
      (n k : ℕ) (r : ToolExecutionResult) (s : Executor)
      → k ≡ n
      → n ≡ q.max_attempts
      → Finished start n k true r s
      → Completed q start r s
  finish_late n k r s e le (stands, epoch, count, used) = record {
    resumed = stands;
    limited = omega arith;
    invalidated = rw used (omega arith);
    exhausted = λ x. count ∙ le;
  }
