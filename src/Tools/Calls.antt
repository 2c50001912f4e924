-- ===== src/Tools/Calls.antt =====
-- The inputs and checks of `ResilientToolExecutor` of src/humanflow/tools/executor.py. What happens
-- outside is the input of an attempt: the calls that other tasks make on the state machine while it
-- waits, the reply, and the readings of the clock. The tick of an event is that of its sequence number.
use humanflow.Telemetry.Payload.{Fields}
use humanflow.Tools.Models.{ToolProviderResponse}
use humanflow.Controller.Machine.{Call, Tick, Machine}
use humanflow.Shared.Result.{
  assertion_error, ok, runtime_error, err, Result, value_error, tool_protocol_error, timeout_error,
  Error,
}
use humanflow.Shared.Action.{Action, ◌>>=◌, ◌>>◌, raise, raise_when, gets, pure}
use humanflow.Conversation.{state_instance}
use humanflow.Shared.{
  ℕ, String, Bool, true, false, Option, none, some, List, [], ltb, if◌then◌else◌, nat_instance,
  string_instance, contains, ℤ, pos, leb_ℤ, int_instance,
}

-- What `provider.call` returns: a response, or an object of another type.
pub data ProviderReply : Type 0 where
  response : ToolProviderResponse → ProviderReply
  malformed : ProviderReply

-- One await of the provider; a timeout is a raised `timeout_error`.
pub record Attempt : Type 0 where
  pub operation : Tick
  pub meanwhile : List Call
  pub reply : Result ProviderReply
  pub started_ns : ℤ
  pub ended_ns : ℤ

-- The await of the fallback: `none` is a value that is no mapping.
pub record FallbackCall : Type 0 where
  pub meanwhile : List Call
  pub value : Result (Option Fields)
  pub ended_ns : ℤ

pub record Executor : Type 0 where
  pub machine : Machine
  pub seen_response_ids : List String

-- One call of `execute`: its arguments, and the settings of the executor.
pub record Request : Type 0 where
  pub name : String
  pub correlation_id : String
  pub started_ns : ℤ
  pub max_attempts : ℕ
  pub clock : ℕ → Tick
  pub elapsed_ms : ℤ → ℤ → ℕ
  pub attempts : ℕ → Attempt
  pub fallback : FallbackCall

-- The checks of `__init__`; `timeout_ms` is compared with zero in nanoseconds.
unfoldable pub make_executor : Machine → ℤ → ℕ → Result Executor
make_executor m timeout_ns max_attempts =
    if leb_ℤ timeout_ns (pos 0)
    then err (value_error "timeout_ms must be positive")
    else if ltb max_attempts 1
    then err (value_error "max_attempts must be positive")
    else ok (record { machine = m; seen_response_ids = [] })

-- A method of the state machine, called by the executor.
abbrev pub on_machine : {A : Type 0} → Action Machine A → Action Executor A
on_machine act s = let (r, m) = act s.machine in (r, record s { machine = m })

-- `_failure_reason`
unfoldable pub failure_reason : Error → String
failure_reason (timeout_error s) = "tool_timeout"
failure_reason (tool_protocol_error s) = s
failure_reason _ = "tool_provider_failure"

-- `type(error).__name__` for the exceptions of the model.
unfoldable pub exception_type : Error → String
exception_type (value_error s) = "ValueError"
exception_type Error.invalid_transition = "InvalidTransition"
exception_type Error.key_error = "KeyError"
exception_type (runtime_error s) = "RuntimeError"
exception_type (Error.permission_error s) = "PermissionError"
exception_type (timeout_error s) = "TimeoutError"
exception_type (tool_protocol_error s) = "ToolProtocolError"
exception_type (Error.tool_provider_error s) = "ToolProviderError"
exception_type (assertion_error s) = "AssertionError"
exception_type (Error.overflow_error s) = "OverflowError"

-- `_validate_response`
unfoldable pub validate_response : ProviderReply → Action Executor ToolProviderResponse
validate_response malformed = raise (tool_protocol_error "invalid_response")
validate_response (response r) = do
  seen ← gets (λ s. contains r.response_id s.seen_response_ids)
  raise_when seen (tool_protocol_error "duplicate_response")
  pure r

-- Recovery starts with the first failure, whose reason is kept.
abbrev pub has_failed : Option String → Bool
has_failed none = false
has_failed (some reason) = true
