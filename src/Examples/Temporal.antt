-- ===== src/Examples/Temporal.antt =====
-- Concrete dates and expressions of time.
use humanflow.Temporal.Unique.{place_weekday_complete}
use humanflow.Temporal.Lies.{next_occurrence, HasRoom, Lies}
use humanflow.Temporal.Ordinals.{IsDate}
use humanflow.Temporal.Annual.{next_valid_annual_date-Earliest, Earliest}
use humanflow.Temporal.Resolution.{resolve-Lies, resolve-weekday}
use humanflow.Shared.Text.{is_blank}
use humanflow.Temporal.Calendar.{
  before, make_date, to_ordinal, days_in_month, Date, weekday, is_date,
}
use humanflow.Temporal.Placing.{
  place_weekday, next_valid, resolve_explicit, nearest_week_count, next_valid_annual_date,
}
use humanflow.Temporal.Scan.{WeekdayMatch, TemporalResolution, Utterance}
use humanflow.Temporal.Resolver.{relative_day, resolve}
use humanflow.Shared.Result.{ok}
use mathlib.Core.Path.{refl}
use humanflow.Shared.{
  ℕ, String, ◌≡◌, inl, true, false, none, some, [], ◌∷◌, arith, nat_instance, string_instance,
  int_instance,
}

abbrev today : Date
today = record { year = 2026; month = 8; day = 25 }

abbrev march : Date
march = record { year = 2096; month = 3; day = 1 }

today-IsDate : IsDate today
unfolding is_date days_in_month
today-IsDate = refl

leap_day : (is_date 2000 2 29 ≡ true) × IsDate march
unfolding is_date days_in_month
leap_day = (refl, refl)

-- The next 29 February after 2096 is eight years later.
leap_day_found :
    next_valid_annual_date 2 29 march ≡ some (record { year = 2104; month = 2; day = 29 })
unfolding next_valid_annual_date next_valid make_date is_date days_in_month before
leap_day_found = refl

next_valid_annual_date-Earliest_example :
    (c : Date) × (next_valid_annual_date 2 29 march ≡ some c) × Earliest 2 29 march c
next_valid_annual_date-Earliest_example =
    next_valid_annual_date-Earliest 2 29 march leap_day.0 leap_day.1 (omega arith)

-- "nächsten Freitag"
abbrev friday : WeekdayMatch
friday = record {
  start = 9;
  target = 4;
  position = 9;
  expression = "nächsten Freitag";
  week_after_next = false;
  next_week = false;
  weeks = [];
  this_week = false;
  after_next = false;
}

abbrev next_friday : Utterance
next_friday = record {
  text = "nächsten Freitag";
  numeric_dates = [];
  named_dates = [];
  ambiguous = none;
  offset = none;
  relative_days = [];
  weekdays = friday ∷ [];
}

abbrev friday_found : TemporalResolution
friday_found = record {
  raw_expression = "nächsten Freitag";
  resolved = record { year = 2026; month = 8; day = 28 };
  timezone = "Europe/Berlin";
  resolution_rule = "NEXT_WEEKDAY_OCCURRENCE_STRICTLY_AFTER_TODAY";
  confidence = 96;
}

friday_resolved : resolve "Europe/Berlin" next_friday today none ≡ ok (some friday_found)
unfolding resolve is_blank
friday_resolved = refl

alone : relative_day next_friday ≡ none
unfolding relative_day
alone = refl

resolve-weekday_example : weekday friday_found.resolved ≡ 4
resolve-weekday_example =
    resolve-weekday "Europe/Berlin" next_friday friday today none friday_found refl alone (inl refl)
      friday_resolved

plain : (is_blank next_friday.text ≡ false) × (resolve_explicit next_friday today ≡ none)
unfolding is_blank resolve_explicit
plain = (refl, refl)

friday-HasRoom : HasRoom friday today
unfolding nearest_week_count to_ordinal
friday-HasRoom = record { three_weeks = omega arith; counted = λ m h. cc }

resolve-Lies_example :
    (r : TemporalResolution) × (resolve "Europe/Berlin" next_friday today none ≡ ok (some r))
    × (weekday r.resolved ≡ 4)
    × Lies friday today r.resolved
resolve-Lies_example =
    resolve-Lies "Europe/Berlin" next_friday friday today none plain.0 plain.1 refl (inl refl) refl
      alone (omega arith) today-IsDate friday-HasRoom

abbrev friday_date : Date
friday_date = record { year = 2026; month = 8; day = 28 }

friday-Lies : IsDate friday_date × (weekday friday_date ≡ 4) × Lies friday today friday_date
unfolding is_date days_in_month weekday to_ordinal nearest_week_count
friday-Lies = (refl, refl, next_occurrence refl refl refl refl refl (omega arith) (omega arith))

place_weekday_complete_example :
    (rule : String) × (confidence : ℕ) × (place_weekday friday today
      ≡ ok (friday_date, rule, confidence))
place_weekday_complete_example =
    place_weekday_complete friday today friday_date (omega arith) today-IsDate friday-HasRoom
      friday-Lies.0 friday-Lies.1 friday-Lies.2
