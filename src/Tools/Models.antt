-- ===== src/Tools/Models.antt =====
-- src/humanflow/tools/models.py: replies of a provider and the results of an execution.
use humanflow.Shared.{
  ℕ, String, Bool, Option, List, [], ◌∷◌, ltb, nat_instance, string_instance, ℤ, pos, ltb_ℤ,
  int_instance,
}
use humanflow.Shared.Text.{is_blank}
use humanflow.Shared.Result.{Result, Error, value_error, checked}
use humanflow.Shared.Float.{Float, dyadic, ltb_float}
use humanflow.Telemetry.Payload.{Fields}

pub record ToolProviderResponse : Type 0 where
  pub response_id : String
  pub value : Fields

unfoldable pub make_response : ToolProviderResponse → Result ToolProviderResponse
make_response r =
    checked ((is_blank r.response_id, value_error "response_id must not be empty") ∷ []) r

pub record FaultPlan : Type 0 where
  pub latency_ms : Float
  pub fail : Bool
  pub timeout : Bool
  pub invalid_response : Bool
  pub duplicate_response : Bool

unfoldable pub make_fault_plan : FaultPlan → Result FaultPlan
make_fault_plan p =
    checked
      ((ltb_float p.latency_ms (dyadic 0 0), value_error "latency_ms must be non-negative") ∷ []) p

-- The elapsed time is kept in nanoseconds, from which the source divides by a million.
pub record ToolExecutionResult : Type 0 where
  pub tool_name : String
  pub value : Fields
  pub attempts : ℕ
  pub recovered : Bool
  pub used_fallback : Bool
  pub failure_reason : Option String
  pub elapsed_ns : ℤ

abbrev pub execution_checks : ToolExecutionResult → List (Bool × Error)
execution_checks r =
    (is_blank r.tool_name, value_error "tool_name must not be empty")
    ∷ (ltb r.attempts 1, value_error "attempts must be positive")
    ∷ (ltb_ℤ r.elapsed_ns (pos 0), value_error "elapsed_ms must be non-negative")
    ∷ []

unfoldable pub make_execution : ToolExecutionResult → Result ToolExecutionResult
make_execution r = checked (execution_checks r) r
