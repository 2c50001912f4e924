-- ===== src/Temporal/Coming.antt =====
-- Weekdays of this week and the next ones in src/humanflow/runtime/temporal.py.
use humanflow.Temporal.Order.{before-to_ordinal}
use humanflow.Temporal.Lies.{from_today, Placement, Lies}
use humanflow.Temporal.Shifts.{last_ordinal}
use humanflow.Temporal.Placing.{placed, days_ahead, place_next, place_this_week}
use humanflow.Temporal.Ordinals.{IsDate}
use humanflow.Temporal.Weekdays.{weekday_lem, days_ahead_range, added, IsMonday}
use humanflow.Temporal.Calendar.{before, add_days, to_ordinal, Date}
use humanflow.Temporal.Scan.{WeekdayMatch}
use humanflow.Shared.Result.{ok, ◌>>=◌}
use mathlib.Core.Path.{refl}
use humanflow.Shared.{
  ◌+◌, ◌%◌, ◌≤◌, ◌<◌, ◌≡◌, ap, ◌∙◌, inl, inr, true, false, arith, if◌then◌else◌, Bool-cases,
  nat_instance, string_instance, int_instance,
}

module _ (w : WeekdayMatch) (reference monday : Date) (known : w.target < 7)
    (first : IsMonday reference monday) where
  this_week_early :
      (d : Date)
      → add_days w.target monday ≡ ok d
      → before d reference ≡ false
      → place_this_week w.target reference monday ≡ ok (d, "THIS_ISO_WEEKDAY", 97)
  unfolding place_this_week
  this_week_early d given later =
      ap
        (λ o. o >>= λ d.
          if before d reference
          then add_days 7 d >>= placed "THIS_WEEKDAY_ROLL_FORWARD_IF_PAST" 97
          else ok (d, "THIS_ISO_WEEKDAY", 97))
        given
      ∙ rw later refl

  this_week_rolled :
      (d e : Date)
      → add_days w.target monday ≡ ok d
      → before d reference ≡ true
      → add_days 7 d ≡ ok e
      → place_this_week w.target reference monday ≡ ok (e, "THIS_WEEKDAY_ROLL_FORWARD_IF_PAST", 97)
  unfolding place_this_week
  this_week_rolled d e given past again =
      ap
        (λ o. o >>= λ d.
          if before d reference
          then add_days 7 d >>= placed "THIS_WEEKDAY_ROLL_FORWARD_IF_PAST" 97
          else ok (d, "THIS_ISO_WEEKDAY", 97))
        given
      ∙ rw (past, again) refl

  pub place_this_week-Placement :
      IsDate reference
      → to_ordinal reference + 21 ≤ last_ordinal
      → ((d : Date)
          → to_ordinal reference ≤ to_ordinal d
          → to_ordinal d < to_ordinal reference + 7
          → Lies w reference d)
      → Placement w reference (place_this_week w.target reference monday)
  place_this_week-Placement today room lies =
      let (d, given, valid, day) = added w.target monday first.valid (omega (arith, first.week)) in
      elim (before-to_ordinal d reference valid today) [
        | inr (later, le) ↦
            from_today w reference monday known first d "THIS_ISO_WEEKDAY" 97
              (place_this_week w.target reference monday) (this_week_early d given later) valid
              (omega (arith, first.first)) (lies d le (omega (arith, first.week)))
        | inl (past, lt) ↦
            let (e, again, valid_e, day_e) = added 7 d valid (omega (arith, first.week)) in
            from_today w reference monday known first e "THIS_WEEKDAY_ROLL_FORWARD_IF_PAST" 97
              (place_this_week w.target reference monday) (this_week_rolled d e given past again)
              valid_e (omega (arith, first.first))
              (lies e (omega (arith, first.week, weekday_lem reference)) (omega arith))
      ]

  next_near :
      (d : Date)
      → add_days (days_ahead w.target reference) reference ≡ ok d
      → w.after_next ≡ false
      → place_next w.target w.after_next reference
        ≡ ok (d, "NEXT_WEEKDAY_OCCURRENCE_STRICTLY_AFTER_TODAY", 96)
  unfolding place_next
  next_near d given near = rw (given, near) refl

  next_far :
      (d e : Date)
      → add_days (days_ahead w.target reference) reference ≡ ok d
      → w.after_next ≡ true
      → add_days 7 d ≡ ok e
      → place_next w.target w.after_next reference
        ≡ ok (e, "WEEK_AFTER_NEXT_WEEKDAY_OCCURRENCE", 97)
  unfolding place_next
  next_far d e given far again = rw (given, far, again) refl

  pub place_next-Placement :
      IsDate reference
      → to_ordinal reference + 21 ≤ last_ordinal
      → ((d : Date)
          → w.after_next ≡ false
          → to_ordinal reference < to_ordinal d
          → to_ordinal d ≤ to_ordinal reference + 7
          → Lies w reference d)
      → ((d : Date)
          → w.after_next ≡ true
          → to_ordinal reference + 7 < to_ordinal d
          → to_ordinal d ≤ to_ordinal reference + 14
          → Lies w reference d)
      → Placement w reference (place_next w.target w.after_next reference)
  place_next-Placement today room near far =
      let (some_day, week_at_most, day_is) = days_ahead_range w.target reference known in
      let (d, given, valid, day) =
        added (days_ahead w.target reference) reference today (omega arith) in
      let on : (to_ordinal d + 6) % 7 ≡ w.target = rw day day_is in
      elim (Bool-cases w.after_next) [
        | inr near_one ↦
            from_today w reference monday known first d
              "NEXT_WEEKDAY_OCCURRENCE_STRICTLY_AFTER_TODAY" 96
              (place_next w.target w.after_next reference) (next_near d given near_one) valid on
              (near d near_one (omega arith) (omega arith))
        | inl far_one ↦
            let (e, again, valid_e, day_e) = added 7 d valid (omega arith) in
            from_today w reference monday known first e "WEEK_AFTER_NEXT_WEEKDAY_OCCURRENCE" 97
              (place_next w.target w.after_next reference) (next_far d e given far_one again)
              valid_e (omega arith) (far e far_one (omega arith) (omega arith))
      ]
