-- ===== src/Tools/Executor.antt =====
-- `ResilientToolExecutor` of src/humanflow/tools/executor.py over the state machine of
-- src/humanflow/controller/state_machine.py, as functions of one request.
use humanflow.Shared.Text.{is_blank}
use humanflow.Controller.Machine.{
  accept_result, transition, record_event, invalidate_operations, issue_operation, after_calls,
}
use humanflow.Tools.Models.{ToolExecutionResult, ToolProviderResponse, make_execution}
use humanflow.Telemetry.Event.{
  recovery_completed, tool_completed, tool_failed, recovery_started, tool_started, TelemetryEvent,
  EventType,
}
use humanflow.Shared.Result.{
  runtime_error, value_error, tool_protocol_error, err, ok, assertion_error, Result, Error,
}
use humanflow.Telemetry.Payload.{str, float, int, end, field, Fields}
use humanflow.Tools.Calls.{
  has_failed, exception_type, on_machine, ProviderReply, Executor, failure_reason,
  validate_response, Request,
}
use humanflow.Shared.Action.{Action, ◌>>=◌, ◌>>◌, raise, raise_when, lift, pure, do_when}
use humanflow.Conversation.{
  recovering, tool_wait, failed, thinking, OperationToken, ConversationState, state_instance,
}
use Prim.Native.String.{◌++◌ as str_append}
use humanflow.Shared.{
  ℕ, zero, suc, ◌+◌, String, Bool, true, false, not, Option, none, some, ◌∷◌, if◌then◌else◌, ◌==◌,
  nat_instance, string_instance, ℤ, pos, ◌-ℤ◌, int_instance,
}

module _ (q : Request) where
  unfoldable pub move : ConversationState → String → Fields → Action Executor (Unit {0})
  move target reason payload =
      on_machine (λ m. transition target reason q.correlation_id payload (q.clock m.sequence) m)
      >> pure tt

  unfoldable pub report : EventType → String → Fields → Action Executor (Unit {0})
  report kind reason payload =
      on_machine (λ m. record_event kind q.correlation_id reason payload (q.clock m.sequence) m)
      >> pure tt

  abbrev pub attempt_fields : ℕ → Fields → Fields
  attempt_fields n rest = field "tool_name" (str q.name) (field "attempt" (int (pos n)) rest)

  abbrev pub issue : ℕ → Action Executor OperationToken
  issue n = on_machine (issue_operation (str_append "tool:" q.name) (q.attempts n).operation)

  abbrev pub announce : ℕ → OperationToken → Action Executor OperationToken
  announce n token =
      report tool_started "provider_call_started" (attempt_fields n end) >> pure token

  -- The part of an attempt before the provider is called.
  unfoldable pub begin_attempt : ℕ → Action Executor OperationToken
  unfolding move report
  begin_attempt n s =
      (do_when (s.machine.state == thinking)
            (move tool_wait "tool_call_started" (attempt_fields n end))
          >> (issue n >>= announce n))
        s

  -- The refusals of a response that is well formed and new: an operation that is not current.
  unfoldable pub claim_result :
      OperationToken → ToolProviderResponse → Action Executor ToolProviderResponse
  claim_result token r = do
    current ← on_machine (λ m. accept_result token q.correlation_id (q.clock m.sequence) m)
    raise_when (not current) (tool_protocol_error "stale_result")
    pure r

  unfoldable pub judge : OperationToken → ProviderReply → Action Executor ToolProviderResponse
  unfolding validate_response claim_result
  judge token reply = validate_response reply >>= claim_result token

  -- The body of `try`: the await, in which other tasks run, and the three refusals of a reply.
  unfoldable pub await_reply : ℕ → OperationToken → Action Executor ToolProviderResponse
  unfolding judge
  await_reply n token s =
      (lift (q.attempts n).reply >>= judge token)
        (record s { machine = after_calls (q.attempts n).meanwhile s.machine })

  abbrev pub failure_fields : ℕ → Error → Fields
  failure_fields n error = attempt_fields n (
      field "elapsed_ms" (float (q.elapsed_ms (q.attempts n).started_ns (q.attempts n).ended_ns))
        (field "exception_type" (str (exception_type error)) end))

  abbrev pub invalidate : Action Executor TelemetryEvent
  invalidate =
      on_machine
        (λ m. invalidate_operations "tool_attempt_failed" q.correlation_id (q.clock m.sequence) m)

  abbrev pub start_recovery : Bool → Error → Action Executor (Unit {0})
  start_recovery recovery_begun error =
      do_when (not recovery_begun)
        (report recovery_started (failure_reason error) (field "tool_name" (str q.name) end))

  -- The handler of a failed attempt, before it is decided how to go on.
  unfoldable pub fail_attempt : ℕ → Bool → Error → Action Executor (Unit {0})
  unfolding failure_reason exception_type move report
  fail_attempt n recovery_begun error =
      report tool_failed (failure_reason error) (failure_fields n error)
      >> (invalidate
          >> (move recovering (failure_reason error) (attempt_fields n end)
              >> start_recovery recovery_begun error))

  abbrev pub execution : Fields → ℕ → Bool → Bool → Option String → ℤ → ToolExecutionResult
  execution value n recovered used_fallback reason ended_ns = record {
    tool_name = q.name;
    value = value;
    attempts = n;
    recovered = recovered;
    used_fallback = used_fallback;
    failure_reason = reason;
    elapsed_ns = ended_ns -ℤ q.started_ns;
  }

  abbrev pub remember : ToolProviderResponse → Executor → Executor
  remember r s = record s { seen_response_ids = r.response_id ∷ s.seen_response_ids }

  abbrev pub completion_fields : ℕ → ToolProviderResponse → Fields
  completion_fields n r = attempt_fields n (
      field "response_id" (str r.response_id) (
        field "elapsed_ms" (float (q.elapsed_ms (q.attempts n).started_ns (q.attempts n).ended_ns))
          end))

  abbrev pub count_fields : ℕ → Fields
  count_fields n = field "tool_name" (str q.name) (field "attempts" (int (pos n)) end)

  abbrev pub finish_recovery : ℕ → Option String → Action Executor (Unit {0})
  finish_recovery n reason =
      do_when (has_failed reason) (report recovery_completed "retry_succeeded" (count_fields n))

  -- What follows an accepted response.
  unfoldable pub complete_attempt :
      ℕ → Option String → ToolProviderResponse → Action Executor ToolExecutionResult
  unfolding move report make_execution
  complete_attempt n reason r s =
      (report tool_completed "provider_response_accepted" (completion_fields n r)
          >> (move thinking "tool_result_available" end
              >> (finish_recovery n reason
                  >> lift (
                      make_execution (
                        execution r.value n (has_failed reason) false reason
                          (q.attempts n).ended_ns)))))
        (remember r s)

  abbrev pub accept_fallback : ℕ → String → Fields → Action Executor ToolExecutionResult
  accept_fallback n reason v =
      move thinking "safe_tool_fallback" (field "tool_name" (str q.name) end)
      >> (report recovery_completed "safe_fallback_returned" (count_fields n)
          >> lift (make_execution (execution v n true true (some reason) q.fallback.ended_ns)))

  abbrev pub take_fallback : ℕ → String → Option Fields → Action Executor ToolExecutionResult
  take_fallback n reason none =
      move failed "fallback_invalid_response" end
      >> raise (tool_protocol_error "fallback_invalid_response")
  take_fallback n reason (some v) = accept_fallback n reason v

  -- `_recover_with_fallback`
  unfoldable pub recover_with_fallback : ℕ → String → Action Executor ToolExecutionResult
  unfolding move report make_execution
  recover_with_fallback n reason s =
      (lift q.fallback.value >>= take_fallback n reason)
        (record s { machine = after_calls q.fallback.meanwhile s.machine })

  -- What follows a failed attempt: a retry while attempts are left, or the fallback.
  unfoldable pub go_on :
      ℕ
      → ℕ
      → String
      → (ℕ → String → Action Executor ToolExecutionResult)
      → Action Executor ToolExecutionResult
  unfolding recover_with_fallback move
  go_on zero n reason retry = recover_with_fallback n reason
  go_on (suc left) n reason retry =
      move thinking "bounded_tool_retry" (field "next_attempt" (int (pos (n + 1))) end)
      >> retry (n + 1) reason

  -- `except` and what follows the `try` statement.
  unfoldable pub settle_attempt :
      ℕ
      → ℕ
      → Option String
      → (ℕ → String → Action Executor ToolExecutionResult)
      → Result ToolProviderResponse
      → Action Executor ToolExecutionResult
  unfolding fail_attempt go_on complete_attempt
  settle_attempt left n reason retry (ok r) = complete_attempt n reason r
  settle_attempt left n reason retry (err error) =
      fail_attempt n (has_failed reason) error >> go_on left n (failure_reason error) retry

  -- The loop over attempts: the number of attempts left, the number of this one, and the last reason.
  unfoldable pub run_attempts : ℕ → ℕ → Option String → Action Executor ToolExecutionResult
  unfolding begin_attempt await_reply settle_attempt
  run_attempts zero n reason = raise (assertion_error "unreachable tool execution state")
  run_attempts (suc left) n reason = begin_attempt n >>= λ token s.
      let (outcome, after) = await_reply n token s in
      settle_attempt left n reason (λ m text. run_attempts left m (some text)) outcome after

  -- `execute`; the correlation id is the caller's, or a fresh one where that is missing or empty.
  unfoldable pub execute : Action Executor ToolExecutionResult
  unfolding run_attempts
  execute s =
      if is_blank q.name
      then (err (value_error "name must not be empty"), s)
      else if not (s.machine.state == thinking)
      then (err (runtime_error "tools may only start while THINKING"), s)
      else run_attempts q.max_attempts 1 none s
