-- ===== src/Temporal/Weekdays.antt =====
-- Mondays and coming weekdays in src/humanflow/runtime/temporal.py, on day numbers.
use humanflow.Shared.Result.{Result-cases, ok}
use humanflow.Temporal.Shifts.{sub_days-Taken, Taken, add_days-Added, Added, last_ordinal}
use humanflow.Temporal.Ordinals.{is_date-Bounds, IsDate}
use humanflow.Temporal.Placing.{days_ahead}
use humanflow.Temporal.Calendar.{add_days, sub_days, to_ordinal, Date, weekday}
use Prim.Native.Nat.{ℕ}
use mathlib.Core.Path.{refl, subst}
use humanflow.Shared.{
  ◌-◌, nat_eq, if◌then◌else◌, ◌+◌, ◌%◌, ◌≤◌, ◌<◌, ◌≡◌, inl, inr, arith, nat_instance,
  string_instance, int_instance,
}

pub weekday_lem : (d : Date) → weekday d ≡ (to_ordinal d + 6) % 7
unfolding weekday
weekday_lem d = refl

-- The Monday of the week of a date.
pub record IsMonday (reference monday : Date) : Type 0 where
  pub valid : IsDate monday
  pub first : (to_ordinal monday + 6) % 7 ≡ 0
  pub week : to_ordinal reference ≡ to_ordinal monday + weekday reference

pub ordinal_from : (d : Date) → IsDate d → 1 ≤ to_ordinal d
unfolding to_ordinal
ordinal_from d valid = omega (arith, (is_date-Bounds d.year d.month d.day valid).day_from)

pub sub_days-IsMonday :
    (reference : Date)
    → IsDate reference
    → (monday : Date) × (sub_days (weekday reference) reference ≡ ok monday)
      × IsMonday reference monday
sub_days-IsMonday reference valid = elim (Result-cases (sub_days (weekday reference) reference)) [
  | inl (e, given) ↦
      let (v, back) =
        subst (Taken reference (weekday reference)) given
          (sub_days-Taken (weekday reference) reference valid) in
      (e, given, record { valid = v; first = omega (arith, weekday_lem reference); week = back })
  | inr (x, under) ↦
      let bad =
        subst (Taken reference (weekday reference)) under
          (sub_days-Taken (weekday reference) reference valid) in
      absurd (omega (arith, weekday_lem reference, ordinal_from reference valid))
]

-- Days added to a date that stays before the end of the calendar.
pub added :
    (n : ℕ) (d : Date)
    → IsDate d
    → to_ordinal d + n ≤ last_ordinal
    → (e : Date) × (add_days n d ≡ ok e) × IsDate e × (to_ordinal e ≡ to_ordinal d + n)
added n d valid room = elim (Result-cases (add_days n d)) [
  | inl (e, given) ↦
      let (v, later) = subst (Added d n) given (add_days-Added n d valid) in (e, given, v, later)
  | inr (x, over) ↦
      let bad = subst (Added d n) over (add_days-Added n d valid) in absurd (omega arith)
]

days_ahead_lem :
    (target : ℕ) (reference : Date)
    → days_ahead target reference ≡ (
        if nat_eq ((target + 7 - weekday reference) % 7) 0
        then 7
        else (target + 7 - weekday reference) % 7)
unfolding days_ahead
days_ahead_lem target reference = refl

ahead_arith :
    (t o : ℕ)
    → t < 7
    → let w = (o + 6) % 7 in
      let a = (if nat_eq ((t + 7 - w) % 7) 0 then 7 else (t + 7 - w) % 7) in
      (1 ≤ a) × (a ≤ 7) × ((o + a + 6) % 7 ≡ t)
ahead_arith t o h = ground arith

pub days_ahead_range :
    (target : ℕ) (reference : Date)
    → target < 7
    → (1 ≤ days_ahead target reference)
      × (days_ahead target reference ≤ 7)
      × ((to_ordinal reference + days_ahead target reference + 6) % 7 ≡ target)
days_ahead_range target reference h =
    rw (days_ahead_lem target reference, weekday_lem reference)
      (ahead_arith target (to_ordinal reference) h)
