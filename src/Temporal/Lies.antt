-- ===== src/Temporal/Lies.antt =====
-- Where src/humanflow/runtime/temporal.py puts a weekday, for every form of the expression.
use humanflow.Temporal.Ordinals.{IsDate}
use humanflow.Temporal.Shifts.{last_ordinal}
use humanflow.Temporal.Placing.{placed, Placed, nearest_week_count, place_in_weeks}
use humanflow.Temporal.Weekdays.{added, weekday_lem, IsMonday}
use humanflow.Temporal.Calendar.{weekday, to_ordinal, add_days, Date}
use humanflow.Temporal.Scan.{WeeksMatch, WeekdayMatch}
use humanflow.Shared.Result.{ok, Result, ◌>>=◌}
use Prim.Native.String.{◌++◌ as str_append}
use Prim.Native.Nat.{ℕ}
use humanflow.Shared.{
  ◌+◌, ◌*◌, ◌/◌, ◌%◌, ◌≤◌, ◌<◌, String, ◌≡◌, ap, ◌∙◌, true, false, none, some, arith, if◌then◌else◌,
  ◌==◌, nat_instance, string_instance, int_instance,
}

-- The number of the calendar week, from Monday to Sunday.
abbrev pub week : Date → ℕ
week d = (to_ordinal d + 6) / 7

-- Where a weekday lies, by what stands around it.
pub data Lies (w : WeekdayMatch) (reference d : Date) : Type 0 where
  in_week_after_next : w.week_after_next ≡ true → week d ≡ week reference + 2 → Lies w reference d
  in_next_week :
      w.week_after_next ≡ false
      → w.next_week ≡ true
      → week d ≡ week reference + 1
      → Lies w reference d
  weeks_later :
      (m : WeeksMatch)
      → w.week_after_next ≡ false
      → w.next_week ≡ false
      → nearest_week_count w ≡ some m
      → week d ≡ week reference + m.count
      → Lies w reference d
  within_a_week :
      w.week_after_next ≡ false
      → w.next_week ≡ false
      → nearest_week_count w ≡ none
      → w.this_week ≡ true
      → to_ordinal reference ≤ to_ordinal d
      → to_ordinal d < to_ordinal reference + 7
      → Lies w reference d
  next_occurrence :
      w.week_after_next ≡ false
      → w.next_week ≡ false
      → nearest_week_count w ≡ none
      → w.this_week ≡ false
      → w.after_next ≡ false
      → to_ordinal reference < to_ordinal d
      → to_ordinal d ≤ to_ordinal reference + 7
      → Lies w reference d
  occurrence_after_next :
      w.week_after_next ≡ false
      → w.next_week ≡ false
      → nearest_week_count w ≡ none
      → w.this_week ≡ false
      → w.after_next ≡ true
      → to_ordinal reference + 7 < to_ordinal d
      → to_ordinal d ≤ to_ordinal reference + 14
      → Lies w reference d

-- An answer with a valid date on the weekday, where the expression puts it.
pub record Placement (w : WeekdayMatch) (reference : Date) (o : Result Placed) : Type 0 where
  pub found : Date
  pub rule : String
  pub confidence : ℕ
  pub returned : o ≡ ok (found, rule, confidence)
  pub valid : IsDate found
  pub on_weekday : weekday found ≡ w.target
  pub lies : Lies w reference found

-- The expression does not reach past the last day of the calendar.
pub record HasRoom (w : WeekdayMatch) (reference : Date) : Type 0 where
  pub three_weeks : to_ordinal reference + 21 ≤ last_ordinal
  pub counted :
      (m : WeeksMatch)
      → nearest_week_count w ≡ some m
      → to_ordinal reference + (7 * m.count + 7) ≤ last_ordinal

placed_ok :
    (n : ℕ) (d e : Date) (rule : String) (confidence : ℕ)
    → add_days n d ≡ ok e
    → (add_days n d >>= placed rule confidence) ≡ ok (e, rule, confidence)
placed_ok n d e rule confidence h = ap (λ o. o >>= placed rule confidence) h

module _ (w : WeekdayMatch) (reference monday : Date) (known : w.target < 7)
    (first : IsMonday reference monday) where
  pub from_monday :
      (n : ℕ) (rule : String) (confidence : ℕ)
      → to_ordinal monday + (7 * n + w.target) ≤ last_ordinal
      → ((d : Date) → week d ≡ week reference + n → Lies w reference d)
      → Placement w reference (add_days (7 * n + w.target) monday >>= placed rule confidence)
  from_monday n rule confidence room lies =
      let (d, given, valid, day) = added (7 * n + w.target) monday first.valid room in
      record {
        found = d;
        rule = rule;
        confidence = confidence;
        returned = placed_ok (7 * n + w.target) monday d rule confidence given;
        valid = valid;
        on_weekday = weekday_lem d ∙ omega (arith, first.first);
        lies = lies d (omega (arith, first.first, first.week, weekday_lem reference));
      }

  pub from_today :
      (d : Date) (rule : String) (confidence : ℕ) (o : Result Placed)
      → o ≡ ok (d, rule, confidence)
      → IsDate d
      → (to_ordinal d + 6) % 7 ≡ w.target
      → Lies w reference d
      → Placement w reference o
  from_today d rule confidence o e valid day lies = record {
    found = d;
    rule = rule;
    confidence = confidence;
    returned = e;
    valid = valid;
    on_weekday = weekday_lem d ∙ day;
    lies = lies;
  }

  pub place_in_weeks-Placement :
      (m : WeeksMatch)
      → to_ordinal monday + (7 * m.count + w.target) ≤ last_ordinal
      → ((d : Date) → week d ≡ week reference + m.count → Lies w reference d)
      → Placement w reference (place_in_weeks w.target m monday)
  unfolding place_in_weeks
  place_in_weeks-Placement m room lies =
      from_monday m.count
        (str_append
          (if m.count == 1
            then "ONE_WEEK_OFFSET_FROM_CURRENT_WEEKDAY:"
            else "NAMED_WEEK_COUNT_FULL_WEEKS_FROM_CURRENT_WEEKDAY:")
          m.raw_count)
        99 room lies
