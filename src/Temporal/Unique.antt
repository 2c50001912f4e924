-- ===== src/Temporal/Unique.antt =====
-- The words of a weekday in src/humanflow/runtime/temporal.py as a description of its date.
use humanflow.Temporal.Placement.{place_weekday-Placement}
use humanflow.Shared.Result.{ok}
use humanflow.Temporal.Weekdays.{ordinal_from, weekday_lem}
use humanflow.Temporal.Placing.{place_weekday, nearest_week_count}
use humanflow.Temporal.Lies.{
  HasRoom, occurrence_after_next, next_occurrence, within_a_week, weeks_later, in_next_week,
  in_week_after_next, Lies,
}
use humanflow.Temporal.Order.{before-to_ordinal}
use humanflow.Temporal.Ordinals.{IsDate}
use humanflow.Temporal.Scan.{WeekdayMatch}
use humanflow.Temporal.Calendar.{weekday, to_ordinal, Date, before}
use Prim.Native.Nat.{ℕ}
use humanflow.Shared.{
  ap, ◌∙◌, String, ◌+◌, ◌-◌, ◌*◌, ◌≤◌, ◌<◌, ◌≡◌, inl, inr, false, none, some, arith, ltb,
  if◌then◌else◌, nat_instance, string_instance, int_instance,
}

ordered_alike : (a b : ℕ) → ltb a b ≡ false → ltb b a ≡ false → a ≡ b
ordered_alike a b h k = ground arith

same_fields : (a b : Date) → before a b ≡ false → before b a ≡ false → a ≡ b
unfolding before
same_fields a b h k =
    let y : a.year ≡ b.year = ground arith in
    let m : a.month ≡ b.month = ground arith in
    let d : a.day ≡ b.day = ground arith in λ i. record { year = y i; month = m i; day = d i }

-- Two dates with the same day number are the same.
pub same_day : (a b : Date) → IsDate a → IsDate b → to_ordinal a ≡ to_ordinal b → a ≡ b
same_day a b va vb h = elim (before-to_ordinal a b va vb) [
  | inl (early, lt) ↦ absurd (omega arith)
  | inr (not_early, le) ↦ elim (before-to_ordinal b a vb va) [
    | inl (late, lt) ↦ absurd (omega arith)
    | inr (not_late, ge) ↦ same_fields a b not_early not_late
  ]
]

-- The first of the seven days among which the words put the weekday.
unfoldable window_start : WeekdayMatch → Date → ℕ
window_start w reference =
    let monday = to_ordinal reference - weekday reference in
    if w.week_after_next
    then monday + 14
    else if w.next_week
    then monday + 7
    else (elim (nearest_week_count w) [
      | some m ↦ monday + 7 * m.count
      | none ↦
          if w.this_week
          then to_ordinal reference
          else if w.after_next
          then to_ordinal reference + 8
          else to_ordinal reference + 1
    ])

-- A day number within the window.
abbrev Within : ℕ → Date → Type 0
Within start d = (start ≤ to_ordinal d) × (to_ordinal d < start + 7)

Lies-Within :
    (w : WeekdayMatch) (reference d : Date)
    → IsDate reference
    → Lies w reference d
    → Within (window_start w reference) d
unfolding window_start
Lies-Within w reference d today (in_week_after_next two far) =
    rw two (omega (arith, weekday_lem reference, ordinal_from reference today))
Lies-Within w reference d today (in_next_week two one far) =
    rw (two, one) (omega (arith, weekday_lem reference, ordinal_from reference today))
Lies-Within w reference d today (weeks_later m two one some_weeks far) =
    rw (some_weeks, two, one) (omega (arith, weekday_lem reference, ordinal_from reference today))
Lies-Within w reference d today (within_a_week two one no_weeks this from to) =
    rw (no_weeks, two, one, this) (from, to)
Lies-Within w reference d today (next_occurrence two one no_weeks this after from to) =
    rw (no_weeks, two, one, this, after) (omega arith)
Lies-Within w reference d today (occurrence_after_next two one no_weeks this after from to) =
    rw (no_weeks, two, one, this, after) (omega arith)

Within-same :
    (start t : ℕ) (a b : Date)
    → Within start a
    → Within start b
    → weekday a ≡ t
    → weekday b ≡ t
    → to_ordinal a ≡ to_ordinal b
Within-same start t a b wa wb ha hb = omega (arith, weekday_lem a, weekday_lem b)

-- The description of where a weekday lies is complete: a date on the weekday that lies where the words
-- put it is the one that the chain of tests gives, where the calendar has room.
pub place_weekday_complete :
    (w : WeekdayMatch) (reference d : Date)
    → w.target < 7
    → IsDate reference
    → HasRoom w reference
    → IsDate d
    → weekday d ≡ w.target
    → Lies w reference d
    → (rule : String) × (confidence : ℕ) × (place_weekday w reference ≡ ok (d, rule, confidence))
place_weekday_complete w reference d known today room valid on lies =
    let p = place_weekday-Placement w reference known today room in
    let same : p.found ≡ d = same_day p.found d p.valid valid (
      Within-same (window_start w reference) w.target p.found d
        (Lies-Within w reference p.found today p.lies) (Lies-Within w reference d today lies)
        p.on_weekday on) in
    (p.rule, p.confidence, p.returned ∙ ap (λ x. ok (x, p.rule, p.confidence)) same)
