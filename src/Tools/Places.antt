-- ===== src/Tools/Places.antt =====
-- What the bookings of src/humanflow/tools/providers.py keep under a key.
use humanflow.Shared.Dict.{insert, lookup-insert, Dict, lookup}
use humanflow.Tools.Bookings.{cancelled, cancel_booking, Booking, set_default}
use humanflow.Shared.Result.{ok}
use mathlib.Core.Path.{refl, subst}
use humanflow.Shared.{
  String, ◌≡◌, inl, inr, true, false, Option, none, some, [], ◌∷◌, arith, eq_iff, Bool-cases,
  Option-cases, ◌==◌, nat_instance, string_instance, int_instance,
}

-- What never changes of a booking.
abbrev pub place : Option Booking → Option (String × String)
place none = none
place (some b) = some (b.booking_id, b.slot)

pub set_default_new :
    (k : String) (b : Booking) (d : Dict Booking)
    → lookup k d ≡ none
    → set_default k b d ≡ (ok b, insert k b d)
unfolding set_default
set_default_new k b d h = rw (h, set_default) refl

pub set_default_old :
    (k : String) (b old : Booking) (d : Dict Booking)
    → lookup k d ≡ some old
    → set_default k b d ≡ (ok old, d)
unfolding set_default
set_default_old k b old d h = rw (h, set_default) refl

-- A dictionary keeps the places of another one.
abbrev pub Keeps : Dict Booking → Dict Booking → Type 0
Keeps d d' =
    (k : String) (at : String × String)
    → place (lookup k d) ≡ some at
    → place (lookup k d') ≡ some at

pub set_default-Keeps :
    (j : String) (b : Booking) (d : Dict Booking) → Keeps d (set_default j b d).1
set_default-Keeps j b d k at h = elim (Option-cases (lookup j d)) [
  | inr (old, known) ↦ rw (set_default_old j b old d known) h
  | inl missing ↦
      rw (set_default_new j b d missing, lookup-insert j k b d) (ground (arith, eq_iff j k))
]

cancel_here :
    (target k j : String) (c : Booking) (d : Dict Booking)
    → place (lookup k ((j, cancelled c) ∷ d)) ≡ place (lookup k ((j, c) ∷ d))
unfolding lookup
cancel_here target k j c d = ground arith

cancel_found :
    (target j : String) (c : Booking) (d : Dict Booking)
    → (c.booking_id == target) ≡ true
    → cancel_booking target ((j, c) ∷ d) ≡ some (cancelled c, (j, cancelled c) ∷ d)
unfolding cancel_booking
cancel_found target j c d h = ground arith

cancel_next :
    (target j : String) (c found : Booking) (d rest : Dict Booking)
    → (c.booking_id == target) ≡ false
    → cancel_booking target d ≡ some (found, rest)
    → cancel_booking target ((j, c) ∷ d) ≡ some (found, (j, c) ∷ rest)
unfolding cancel_booking
cancel_next target j c found d rest other h = rw (other, h) refl

cancel_none :
    (target j : String) (c : Booking) (d : Dict Booking)
    → (c.booking_id == target) ≡ false
    → cancel_booking target d ≡ none
    → cancel_booking target ((j, c) ∷ d) ≡ none
unfolding cancel_booking
cancel_none target j c d other h = rw (other, h) refl

place-step :
    (k j : String) (c : Booking) (d d' : Dict Booking)
    → place (lookup k d') ≡ place (lookup k d)
    → place (lookup k ((j, c) ∷ d')) ≡ place (lookup k ((j, c) ∷ d))
unfolding lookup
place-step k j c d d' h = ground arith

pub cancel_booking-place :
    (target k : String) (d : Dict Booking) (found : Booking) (d' : Dict Booking)
    → cancel_booking target d ≡ some (found, d')
    → place (lookup k d') ≡ place (lookup k d)
cancel_booking-place target k [] found d' h = unfold cancel_booking in cc
cancel_booking-place target k ((j, c) ∷ d) found d' h =
    let Same : Dict Booking → Type 0 = λ x. place (lookup k x) ≡ place (lookup k ((j, c) ∷ d)) in
    elim (Bool-cases (c.booking_id == target)) [
      | inl same ↦
          let now = cancel_found target j c d same in
          let e : (j, cancelled c) ∷ d ≡ d' = cc in subst Same e (cancel_here target k j c d)
      | inr other ↦ elim (Option-cases (cancel_booking target d)) [
        | inl missing ↦ let now = cancel_none target j c d other missing in cc
        | inr ((f, rest), later) ↦
            let now = cancel_next target j c f d rest other later in
            let e : (j, c) ∷ rest ≡ d' = cc in
            subst Same e (place-step k j c d rest (cancel_booking-place target k d f rest later))
      ]
    ]
