-- ===== src/Tools/Rebooking.antt =====
-- Bookings of src/humanflow/tools/providers.py under one idempotency key, whatever is called in between.
use humanflow.Tools.Places.{
  Keeps, set_default-Keeps, set_default_old, set_default_new, place, cancel_booking-place,
}
use humanflow.Telemetry.Payload.{Fields}
use humanflow.Shared.Text.{is_blank}
use humanflow.Shared.Dict.{lookup-insert_self, insert, lookup, Dict}
use humanflow.Tools.Bookings.{
  booking_fields, cancel_booking, set_default, argument, book_appointment, tool_value, ToolCall,
  cancel_appointment, Booking, call_tool,
}
use humanflow.Tools.Models.{make_response}
use humanflow.Shared.Result.{Error, tool_provider_error, ok, err, Result, checked}
use humanflow.Shared.Action.{Action, ◌>>=◌, bind_ok, bind_err, pure, lift}
use mathlib.Core.Path.{refl}
use humanflow.Shared.{
  String, ◌≡◌, sym, ap, ◌∙◌, ◌⊎◌, inl, inr, Bool, true, false, ◌||◌, none, some, List, [], ◌∷◌,
  arith, Bool-cases, Option-cases, ◌==◌, nat_instance, string_instance, int_instance,
}

-- The calls of a list, returned or raised.
unfoldable pub after_tools : List ToolCall → Dict Booking → Dict Booking
unfolding call_tool
after_tools [] d = d
after_tools (c ∷ cs) d = after_tools cs (call_tool c d).1

-- A booking lacks its key or its slot.
abbrev lacks : ToolCall → Bool
lacks c = argument "idempotency_key" c == "" || argument "slot" c == ""

abbrev new_booking : ToolCall → Booking
new_booking c = record { booking_id = c.fresh_id; slot = argument "slot" c; status = "booked" }

book_refused :
    (c : ToolCall) (d : Dict Booking)
    → lacks c ≡ true
    → book_appointment c d ≡ (err (tool_provider_error "missing_required_argument"), d)
unfolding book_appointment
book_refused c d h = rw h refl

book_full :
    (c : ToolCall) (d : Dict Booking)
    → lacks c ≡ false
    → book_appointment c d
      ≡ (set_default (argument "idempotency_key" c) (new_booking c) >>= λ b.
            pure (booking_fields b))
          d
unfolding book_appointment
book_full c d h = rw h refl

book_old :
    (c : ToolCall) (d : Dict Booking) (b : Booking)
    → lacks c ≡ false
    → lookup (argument "idempotency_key" c) d ≡ some b
    → book_appointment c d ≡ (ok (booking_fields b), d)
book_old c d b h known =
    book_full c d h
    ∙ bind_ok (set_default (argument "idempotency_key" c) (new_booking c))
        (λ x. pure (booking_fields x)) d d b
        (set_default_old (argument "idempotency_key" c) (new_booking c) b d known)

book_new :
    (c : ToolCall) (d : Dict Booking)
    → lacks c ≡ false
    → lookup (argument "idempotency_key" c) d ≡ none
    → book_appointment c d ≡ (
      ok (booking_fields (new_booking c)),
      insert (argument "idempotency_key" c) (new_booking c) d,
    )
book_new c d h missing =
    book_full c d h
    ∙ bind_ok (set_default (argument "idempotency_key" c) (new_booking c))
        (λ x. pure (booking_fields x)) d (insert (argument "idempotency_key" c) (new_booking c) d)
        (new_booking c) (set_default_new (argument "idempotency_key" c) (new_booking c) d missing)

book_appointment-Keeps : (c : ToolCall) (d : Dict Booking) → Keeps d (book_appointment c d).1
book_appointment-Keeps c d k at h = elim (Bool-cases (lacks c)) [
  | inl bad ↦ rw (book_refused c d bad) h
  | inr full ↦ elim (Option-cases (lookup (argument "idempotency_key" c) d)) [
    | inl missing ↦ rw (book_new c d full missing) (
        rw (set_default_new (argument "idempotency_key" c) (new_booking c) d missing) at
          (set_default-Keeps (argument "idempotency_key" c) (new_booking c) d k at h))
    | inr (b, known) ↦ rw (book_old c d b full known) h
  ]
]

cancel_missing :
    (c : ToolCall) (d : Dict Booking)
    → cancel_booking (argument "booking_id" c) d ≡ none
    → cancel_appointment c d ≡ (err (tool_provider_error "booking_not_found"), d)
unfolding cancel_appointment
cancel_missing c d h = rw (h, cancel_appointment) refl

cancel_known :
    (c : ToolCall) (d rest : Dict Booking) (b : Booking)
    → cancel_booking (argument "booking_id" c) d ≡ some (b, rest)
    → cancel_appointment c d ≡ (ok (booking_fields b), rest)
unfolding cancel_appointment
cancel_known c d rest b h = rw (h, cancel_appointment) refl

cancel_appointment-Keeps : (c : ToolCall) (d : Dict Booking) → Keeps d (cancel_appointment c d).1
cancel_appointment-Keeps c d k at h =
    elim (Option-cases (cancel_booking (argument "booking_id" c) d)) [
      | inl missing ↦ rw (cancel_missing c d missing) h
      | inr ((f, rest), found) ↦
          rw (cancel_known c d rest f found)
            (cancel_booking-place (argument "booking_id" c) k d f rest found ∙ h)
    ]

tool_value-Keeps : (c : ToolCall) (d : Dict Booking) → Keeps d (tool_value c d).1
unfolding tool_value
tool_value-Keeps c d k at h =
    ground (arith, book_appointment-Keeps c d k at, cancel_appointment-Keeps c d k at)

Outcome-cases :
    {A S : Type 0} (o : Result A × S)
    → ((a : A) × (s : S) × (o ≡ (ok a, s))) ⊎ ((x : Error) × (s : S) × (o ≡ (err x, s)))
Outcome-cases (ok a, s) = inl (a, s, refl)
Outcome-cases (err x, s) = inr (x, s, refl)

lift_keeps :
    {A B : Type 0} (m : Action (Dict Booking) A) (f : A → Result B) (d : Dict Booking)
    → ((m >>= λ a. lift (f a)) d).1 ≡ (m d).1
lift_keeps m f d = elim (Outcome-cases (m d)) [
  | inl (a, d', e) ↦ rw (bind_ok m (λ a. lift (f a)) d d' a e, e) refl
  | inr (x, d', e) ↦ rw (bind_err m (λ a. lift (f a)) d d' x e, e) refl
]

call_tool_state : (c : ToolCall) (d : Dict Booking) → (call_tool c d).1 ≡ (tool_value c d).1
unfolding call_tool
call_tool_state c d =
    lift_keeps (tool_value c)
      (λ v. make_response (record { response_id = c.response_id; value = v })) d

after_tools-Keeps : (cs : List ToolCall) (d : Dict Booking) → Keeps d (after_tools cs d)
unfolding after_tools
after_tools-Keeps [] d k at h = h
after_tools-Keeps (c ∷ cs) d k at h =
    after_tools-Keeps cs (call_tool c d).1 k at
      (rw (call_tool_state c d) (tool_value-Keeps c d k at h))

-- A booking call whose arguments are there, with a usable response identifier.
abbrev pub IsBooking : ToolCall → Type 0
IsBooking c = (c.name ≡ "book_appointment") × (lacks c ≡ false) × (is_blank c.response_id ≡ false)

reply_made :
    (c : ToolCall) (v : Fields)
    → is_blank c.response_id ≡ false
    → make_response (record { response_id = c.response_id; value = v })
      ≡ ok (record { response_id = c.response_id; value = v })
unfolding make_response checked
reply_made c v h = rw h refl

book_reply :
    (c : ToolCall) (v : Fields) (d d' : Dict Booking)
    → IsBooking c
    → book_appointment c d ≡ (ok v, d')
    → call_tool c d ≡ (ok (record { response_id = c.response_id; value = v }), d')
unfolding call_tool tool_value
book_reply c v d d' (name, full, visible) h =
    bind_ok (tool_value c)
      (λ v. lift (make_response (record { response_id = c.response_id; value = v }))) d d' v
      (rw name h)
    ∙ ap (λ r. (r, d')) (reply_made c v visible)

rebooked :
    (c : ToolCall) (b : Booking) (d : Dict Booking)
    → IsBooking c
    → lookup (argument "idempotency_key" c) d ≡ some b
    → call_tool c d ≡ (ok (record { response_id = c.response_id; value = booking_fields b }), d)
rebooked c b d sound known =
    book_reply c (booking_fields b) d d sound (book_old c d b sound.1 known)

-- A booking call leaves the key with the booking that it returns.
booked :
    (c : ToolCall) (d : Dict Booking)
    → IsBooking c
    → (b : Booking) × (lookup (argument "idempotency_key" c) (call_tool c d).1 ≡ some b)
      × ((call_tool c d).0 ≡ ok (record { response_id = c.response_id; value = booking_fields b }))
booked c d sound = elim (Option-cases (lookup (argument "idempotency_key" c) d)) [
  | inr (b, known) ↦ let e = rebooked c b d sound known in (b, rw e known, ap (λ o. o.0) e)
  | inl missing ↦
      let b : Booking = new_booking c in
      let key : String = argument "idempotency_key" c in
      let e =
        book_reply c (booking_fields b) d (insert key b d) sound (book_new c d sound.1 missing) in
      (b, rw e (lookup-insert_self key b d), ap (λ o. o.0) e)
]

kept :
    (k : String) (b : Booking) (cs : List ToolCall) (d : Dict Booking)
    → lookup k d ≡ some b
    → (b' : Booking) × (lookup k (after_tools cs d) ≡ some b') × (place (some b') ≡ place (some b))
kept k b cs d known =
    let stays = after_tools-Keeps cs d k (b.booking_id, b.slot) (ap place known) in
    elim (Option-cases (lookup k (after_tools cs d))) [
      | inl missing ↦ cc
      | inr (b', found) ↦ (b', found, sym (ap place found) ∙ stays)
    ]

-- After an appointment is booked, and whatever is called in between, another booking under the same key
-- gives a booking with the same identifier and slot, and changes no booking.
pub call_tool-call_tool :
    (c again : ToolCall) (cs : List ToolCall) (d : Dict Booking)
    → IsBooking c
    → IsBooking again
    → argument "idempotency_key" again ≡ argument "idempotency_key" c
    → (b b' : Booking) × (place (some b') ≡ place (some b))
      × ((call_tool c d).0 ≡ ok (record { response_id = c.response_id; value = booking_fields b }))
      × (call_tool again (after_tools cs (call_tool c d).1) ≡ (
        ok (record { response_id = again.response_id; value = booking_fields b' }),
        after_tools cs (call_tool c d).1,
      ))
call_tool-call_tool c again cs d first second same =
    let (b, known, reply) = booked c d first in
    let (b', found, stays) = kept (argument "idempotency_key" c) b cs (call_tool c d).1 known in
    (
      b,
      b',
      stays,
      reply,
      rebooked again b' (after_tools cs (call_tool c d).1) second (rw same found),
    )
