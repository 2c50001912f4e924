-- ===== src/Tools/Bookings.antt =====
-- `AppointmentToolProvider` and `FaultInjectingToolProvider` of src/humanflow/tools/providers.py. An
-- argument is the text that `str(...)` gives; the fresh identifiers of a call are inputs, and the
-- sleeps, which only delay a reply, are those of the executor's attempt.
use humanflow.Tools.Calls.{response, malformed, ProviderReply}
use humanflow.Shared.Text.{strip}
use humanflow.Shared.Result.{Result, ok, err, tool_provider_error}
use humanflow.Tools.Models.{ToolProviderResponse, FaultPlan, make_response}
use humanflow.Shared.Dict.{insert, lookup, Dict}
use humanflow.Telemetry.Payload.{nil, cons, list, bool, end, str, field, Fields}
use humanflow.Shared.Action.{Action, ◌>>=◌, ◌>>◌, raise, raise_when, lift, pure}
use humanflow.Shared.{
  true, false, String, ◌||◌, Option, none, some, [], ◌∷◌, if◌then◌else◌, ◌==◌, nat_instance,
  string_instance, int_instance,
}

pub record Booking : Type 0 where
  pub booking_id : String
  pub slot : String
  pub status : String

abbrev pub booking_fields : Booking → Fields
booking_fields b =
    field "booking_id" (str b.booking_id)
      (field "slot" (str b.slot) (field "status" (str b.status) end))

pub record ToolCall : Type 0 where
  pub name : String
  pub arguments : Dict String
  pub fresh_id : String
  pub response_id : String

-- `str(arguments.get(key, "")).strip()`
unfoldable pub argument : String → ToolCall → String
argument k c = elim (lookup k c.arguments) [ none ↦ "" | some v ↦ strip v ]

-- `_bookings.setdefault(key, b)`
unfoldable pub set_default : String → Booking → Action (Dict Booking) Booking
set_default k b d = elim (lookup k d) [ none ↦ (ok b, insert k b d) | some old ↦ (ok old, d) ]

unfoldable pub book_appointment : ToolCall → Action (Dict Booking) Fields
unfolding argument set_default
book_appointment c = do
  raise_when (argument "idempotency_key" c == "" || argument "slot" c == "")
      (tool_provider_error "missing_required_argument")
  b ←
      set_default (argument "idempotency_key" c)
        (record { booking_id = c.fresh_id; slot = argument "slot" c; status = "booked" })
  pure (booking_fields b)

abbrev pub cancelled : Booking → Booking
cancelled b = record b { status = "cancelled" }

-- The first booking with an identifier, cancelled in place.
unfoldable pub cancel_booking : String → Dict Booking → Option (Booking × Dict Booking)
cancel_booking id [] = none
cancel_booking id ((k, b) ∷ d) =
    let later = cancel_booking id d in
    if b.booking_id == id
    then some (cancelled b, (k, cancelled b) ∷ d)
    else elim later [ none ↦ none | some (found, rest) ↦ some (found, (k, b) ∷ rest) ]

unfoldable pub cancel_appointment : ToolCall → Action (Dict Booking) Fields
unfolding argument cancel_booking
cancel_appointment c d = elim (cancel_booking (argument "booking_id" c) d) [
  | none ↦ (err (tool_provider_error "booking_not_found"), d)
  | some (b, rest) ↦ (ok (booking_fields b), rest)
]

abbrev available_slots : Fields
available_slots =
    field "slots"
      (list (cons (str "2026-08-25T09:00:00+02:00") (cons (str "2026-08-25T11:30:00+02:00") nil)))
      end

abbrev unknown_customer : Fields
unknown_customer =
    field "customer_found" (bool false) (field "safe_to_create_callback" (bool true) end)

-- The value of a reply, by the name of the tool.
unfoldable pub tool_value : ToolCall → Action (Dict Booking) Fields
unfolding book_appointment cancel_appointment
tool_value c =
    if c.name == "get_available_appointments"
    then pure available_slots
    else if c.name == "book_appointment"
    then book_appointment c
    else if c.name == "cancel_appointment"
    then cancel_appointment c
    else if c.name == "lookup_customer"
    then pure unknown_customer
    else if c.name == "create_callback"
    then pure (field "callback_id" (str c.fresh_id) (field "status" (str "requested") end))
    else raise (tool_provider_error "unknown_tool")

-- `AppointmentToolProvider.call`
unfoldable pub call_tool : ToolCall → Action (Dict Booking) ToolProviderResponse
unfolding tool_value make_response
call_tool c = do
  v ← tool_value c
  lift (make_response (record { response_id = c.response_id; value = v }))

-- The reply that a fault plan makes of the provider's.
unfoldable pub spoil : FaultPlan → String → ToolProviderResponse → Result ProviderReply
unfolding make_response
spoil p duplicate_id r =
    if p.invalid_response
    then ok malformed
    else if p.duplicate_response
    then (elim (make_response (record r { response_id = duplicate_id })) [
      | ok x ↦ ok (response x)
      | err e ↦ err e
    ])
    else ok (response r)

-- `FaultInjectingToolProvider.call`
unfoldable pub call_with_faults :
    FaultPlan → String → ToolCall → Action (Dict Booking) ProviderReply
unfolding call_tool spoil
call_with_faults p duplicate_id c = do
  raise_when p.fail (tool_provider_error "injected_failure")
  r ← call_tool c
  lift (spoil p duplicate_id r)
