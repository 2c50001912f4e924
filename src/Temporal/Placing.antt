-- ===== src/Temporal/Placing.antt =====
-- The dates that `GermanTemporalResolver` of src/humanflow/runtime/temporal.py chooses for the matches of
-- its patterns; a confidence is in hundredths.
use humanflow.Temporal.Scan.{Utterance, DateMatch, WeeksMatch, WeekdayMatch}
use humanflow.Temporal.Calendar.{before, make_date, add_days, sub_days, Date, weekday}
use humanflow.Shared.Result.{ok, err, Result, ◌>>=◌}
use Prim.Native.Nat.{ℕ}
use Prim.Native.String.{◌++◌ as str_append}
use humanflow.Shared.{
  zero, suc, ◌+◌, ◌-◌, ◌*◌, ◌%◌, String, Bool, Option, none, some, List, [], ◌∷◌, ◌++◌, ltb,
  if◌then◌else◌, ◌==◌, nat_instance, string_instance, int_instance,
}

-- The first match that starts last.
unfoldable pub latest : List DateMatch → Option DateMatch
latest [] = none
latest (m ∷ ms) =
    let rest = latest ms in
    elim rest [ none ↦ some m | some n ↦ if ltb m.start n.start then some n else some m ]

-- `_next_valid_annual_date`: the years that are left to try, and the first of them.
unfoldable pub next_valid : ℕ → ℕ → ℕ → ℕ → Date → Option Date
unfolding make_date before
next_valid zero y m d reference = none
next_valid (suc left) y m d reference =
    let rest = next_valid left (y + 1) m d reference in
    elim (make_date y m d) [
      | err e ↦ rest
      | ok candidate ↦ if before candidate reference then rest else some candidate
    ]

unfoldable pub next_valid_annual_date : ℕ → ℕ → Date → Option Date
unfolding next_valid
next_valid_annual_date m d reference = next_valid 9 reference.year m d reference

-- A year of two digits is one of this century.
abbrev pub full_year : ℕ → ℕ
full_year y = if ltb y 100 then y + 2000 else y

-- A date with its text, its rule and its confidence.
abbrev pub Found : Type 0
Found = Date × String × String × ℕ

-- `_resolve_explicit`
unfoldable pub resolve_explicit : Utterance → Date → Option Found
unfolding latest make_date next_valid_annual_date
resolve_explicit u reference = elim (latest (u.numeric_dates ++ u.named_dates)) [
  | none ↦ none
  | some m ↦ elim m.year [
    | some y ↦ elim (make_date (full_year y) m.month m.day) [
      | err e ↦ none
      | ok d ↦ some (d, m.text, "EXPLICIT_CALENDAR_DATE_WITH_YEAR", 100)
    ]
    | none ↦ elim (next_valid_annual_date m.month m.day reference) [
      | none ↦ none
      | some d ↦ some (d, m.text, "EXPLICIT_CALENDAR_DATE_ROLL_FORWARD_YEAR_IF_PAST", 100)
    ]
  ]
]

-- The distance of a count of weeks from the weekday.
abbrev pub distance : ℕ → WeeksMatch → ℕ
distance position m = (m.start - position) + (position - m.start)

unfoldable pub nearest : ℕ → List WeeksMatch → Option WeeksMatch
nearest position [] = none
nearest position (m ∷ ms) =
    let rest = nearest position ms in
    elim rest [
      | none ↦ some m
      | some n ↦ if ltb (distance position n) (distance position m) then some n else some m
    ]

-- `_nearest_week_count`
unfoldable pub nearest_week_count : WeekdayMatch → Option WeeksMatch
unfolding nearest
nearest_week_count w = elim (nearest w.position w.weeks) [
  | none ↦ none
  | some m ↦ if ltb m.count 1 then none else some m
]

-- The days from today to the next occurrence of a weekday, at least one.
unfoldable pub days_ahead : ℕ → Date → ℕ
unfolding weekday
days_ahead target reference =
    let ahead = (target + 7 - weekday reference) % 7 in if ahead == 0 then 7 else ahead

-- The date of a weekday, its rule and its confidence.
abbrev pub Placed : Type 0
Placed = Date × String × ℕ

abbrev pub placed : String → ℕ → Date → Result Placed
placed rule confidence d = ok (d, rule, confidence)

unfoldable pub place_in_weeks : ℕ → WeeksMatch → Date → Result Placed
unfolding add_days
place_in_weeks target m monday =
    add_days (7 * m.count + target) monday
    >>= placed
        (str_append
          (if m.count == 1
            then "ONE_WEEK_OFFSET_FROM_CURRENT_WEEKDAY:"
            else "NAMED_WEEK_COUNT_FULL_WEEKS_FROM_CURRENT_WEEKDAY:")
          m.raw_count)
        99

unfoldable pub place_this_week : ℕ → Date → Date → Result Placed
unfolding add_days before
place_this_week target reference monday = add_days target monday >>= λ d.
    if before d reference
    then add_days 7 d >>= placed "THIS_WEEKDAY_ROLL_FORWARD_IF_PAST" 97
    else ok (d, "THIS_ISO_WEEKDAY", 97)

unfoldable pub place_next : ℕ → Bool → Date → Result Placed
unfolding add_days days_ahead
place_next target after_next reference = add_days (days_ahead target reference) reference >>= λ d.
    if after_next
    then add_days 7 d >>= placed "WEEK_AFTER_NEXT_WEEKDAY_OCCURRENCE" 97
    else ok (d, "NEXT_WEEKDAY_OCCURRENCE_STRICTLY_AFTER_TODAY", 96)

-- The chain of tests of `resolve` on the window of a weekday.
unfoldable pub place_weekday : WeekdayMatch → Date → Result Placed
unfolding sub_days add_days weekday nearest_week_count place_in_weeks place_this_week place_next
place_weekday w reference = sub_days (weekday reference) reference >>= λ monday.
    if w.week_after_next
    then add_days (14 + w.target) monday >>= placed "WEEK_AFTER_NEXT_CALENDAR_WEEK" 99
    else if w.next_week
    then add_days (7 + w.target) monday >>= placed "NEXT_ISO_CALENDAR_WEEK" 99
    else (elim (nearest_week_count w) [
      | some m ↦ place_in_weeks w.target m monday
      | none ↦
          if w.this_week
          then place_this_week w.target reference monday
          else place_next w.target w.after_next reference
    ])
