-- ===== src/Temporal/Placement.antt =====
-- The whole chain of tests on a weekday in src/humanflow/runtime/temporal.py.
use humanflow.Temporal.Coming.{place_next-Placement, place_this_week-Placement}
use humanflow.Temporal.Lies.{
  occurrence_after_next, next_occurrence, weeks_later, within_a_week, place_in_weeks-Placement,
  in_next_week, in_week_after_next, Placement, from_monday, HasRoom,
}
use humanflow.Temporal.Weekdays.{sub_days-IsMonday, IsMonday}
use humanflow.Temporal.Ordinals.{IsDate}
use humanflow.Temporal.Calendar.{add_days, Date}
use humanflow.Temporal.Scan.{WeeksMatch, WeekdayMatch}
use humanflow.Temporal.Placing.{
  place_next, Placed, place_this_week, place_in_weeks, placed, nearest_week_count, place_weekday,
}
use humanflow.Shared.Result.{Result, ◌>>=◌}
use mathlib.Core.Path.{refl, subst}
use humanflow.Shared.{
  ◌+◌, ◌<◌, ◌≡◌, sym, inl, inr, Bool, true, false, none, some, arith, if◌then◌else◌, Bool-cases,
  Option-cases, nat_instance, string_instance, int_instance,
}

module _ (w : WeekdayMatch) (reference monday : Date) (known : w.target < 7)
    (first : IsMonday reference monday) where
  -- The chain of tests after the Monday.
  abbrev chosen : Result Placed
  chosen =
      if w.week_after_next
      then add_days (14 + w.target) monday >>= placed "WEEK_AFTER_NEXT_CALENDAR_WEEK" 99
      else if w.next_week
      then add_days (7 + w.target) monday >>= placed "NEXT_ISO_CALENDAR_WEEK" 99
      else (elim (nearest_week_count w) [
        | some m ↦ place_in_weeks w.target m monday
        | none ↦
            if w.this_week
            then place_this_week w.target reference monday
            else place_next w.target w.after_next reference
      ])

  chosen_two :
      w.week_after_next ≡ true
      → chosen ≡ (add_days (14 + w.target) monday >>= placed "WEEK_AFTER_NEXT_CALENDAR_WEEK" 99)
  chosen_two h = rw h refl

  chosen_one :
      w.week_after_next ≡ false
      → w.next_week ≡ true
      → chosen ≡ (add_days (7 + w.target) monday >>= placed "NEXT_ISO_CALENDAR_WEEK" 99)
  chosen_one h k = rw (h, k) refl

  chosen_weeks :
      (m : WeeksMatch)
      → w.week_after_next ≡ false
      → w.next_week ≡ false
      → nearest_week_count w ≡ some m
      → chosen ≡ place_in_weeks w.target m monday
  chosen_weeks m h k e = rw (e, h, k) refl

  chosen_day :
      w.week_after_next ≡ false
      → w.next_week ≡ false
      → nearest_week_count w ≡ none
      → chosen ≡ (
          if w.this_week
          then place_this_week w.target reference monday
          else place_next w.target w.after_next reference)
  chosen_day h k e = rw (e, h, k) refl

  abbrev Good : Result Placed → Type 0
  Good o = Placement w reference o

  if_Good :
      (c : Bool) (o p : Result Placed)
      → (c ≡ true → Good o)
      → (c ≡ false → Good p)
      → Good (if c then o else p)
  if_Good true o p f g = f refl
  if_Good false o p f g = g refl

  chosen_day-Placement :
      IsDate reference
      → HasRoom w reference
      → w.week_after_next ≡ false
      → w.next_week ≡ false
      → nearest_week_count w ≡ none
      → Good (
          if w.this_week
          then place_this_week w.target reference monday
          else place_next w.target w.after_next reference)
  chosen_day-Placement today room not_two not_one no_weeks =
      if_Good w.this_week (place_this_week w.target reference monday)
        (place_next w.target w.after_next reference)
        (λ this.
          place_this_week-Placement w reference monday known first today room.three_weeks
            (λ d. within_a_week not_two not_one no_weeks this))
        (λ other.
          place_next-Placement w reference monday known first today room.three_weeks
            (λ d. next_occurrence not_two not_one no_weeks other)
            (λ d. occurrence_after_next not_two not_one no_weeks other))

  chosen-Placement : IsDate reference → HasRoom w reference → Good chosen
  chosen-Placement today room = elim (Bool-cases w.week_after_next) [
    | inl two ↦ subst Good (sym (chosen_two two)) (
        from_monday w reference monday known first 2 "WEEK_AFTER_NEXT_CALENDAR_WEEK" 99
          (omega (arith, room.three_weeks, first.week)) (λ d e. in_week_after_next two e))
    | inr not_two ↦ elim (Bool-cases w.next_week) [
      | inl one ↦ subst Good (sym (chosen_one not_two one)) (
          from_monday w reference monday known first 1 "NEXT_ISO_CALENDAR_WEEK" 99
            (omega (arith, room.three_weeks, first.week)) (λ d e. in_next_week not_two one e))
      | inr not_one ↦ elim (Option-cases (nearest_week_count w)) [
        | inr (m, some_weeks) ↦ subst Good (sym (chosen_weeks m not_two not_one some_weeks)) (
            place_in_weeks-Placement w reference monday known first m
              (omega (arith, room.counted m some_weeks, first.week))
              (λ d e. weeks_later m not_two not_one some_weeks e))
        | inl no_weeks ↦
            subst Good (sym (chosen_day not_two not_one no_weeks))
              (chosen_day-Placement today room not_two not_one no_weeks)
      ]
    ]
  ]

-- For a weekday that the room of the calendar allows, the chain of tests gives a date on that weekday:
-- in the week after next, in the next week, or the counted weeks later; or else today or within the next
-- six days for "this"; or else the next occurrence after today, or the one after it.
pub place_weekday-Placement :
    (w : WeekdayMatch) (reference : Date)
    → w.target < 7
    → IsDate reference
    → HasRoom w reference
    → Placement w reference (place_weekday w reference)
unfolding place_weekday
place_weekday-Placement w reference known today room =
    let (monday, given, first) = sub_days-IsMonday reference today in
    rw given (chosen-Placement w reference monday known first today room)
