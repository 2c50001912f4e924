-- ===== src/Temporal/Resolver.antt =====
-- `GermanTemporalResolver` of src/humanflow/runtime/temporal.py on what the patterns find in an utterance;
-- the current local date is an argument.
use humanflow.Temporal.Scan.{
  from_iso, is_iso_of, last, TemporalResolution, IsoText, WeekdayMatch, DayMatch, OffsetMatch,
  Utterance,
}
use humanflow.Shared.Text.{is_blank, is_space, strip}
use humanflow.Temporal.Calendar.{Date, weekday, add_days}
use humanflow.Temporal.Placing.{days_ahead, place_weekday, resolve_explicit}
use Prim.Native.Char.{code}
use humanflow.Shared.Result.{value_error, err, ok, Result, ◌>>=◌}
use Prim.Native.Nat.{ℕ}
use Prim.Native.String.{◌++◌ as str_append}
use humanflow.Shared.{
  String, Bool, true, false, Option, none, some, ltb, if◌then◌else◌, ◌==◌, nat_instance,
  string_instance, int_instance,
}

abbrev leads_space : String → Bool
leads_space String.[] = false
leads_space (String.◌∷◌ c s) = is_space (code c)

-- Each run of white space becomes a space.
unfoldable collapse : String → String
collapse String.[] = String.[]
collapse (String.◌∷◌ c s) =
    let rest = collapse s in
    if is_space (code c)
    then (if leads_space s then rest else String.◌∷◌ " " rest)
    else String.◌∷◌ c rest

-- `" ".join(raw.split())`
unfoldable pub squeeze : String → String
unfolding strip collapse
squeeze s = collapse (strip s)

-- `_result`, for a resolver with a time zone.
unfoldable pub result : String → Date → String → String → ℕ → Option IsoText → TemporalResolution
unfolding squeeze
result timezone d raw rule confidence existing = record {
  raw_expression = squeeze raw;
  resolved = d;
  timezone = timezone;
  resolution_rule = elim existing [
    | none ↦ rule
    | some t ↦
        if is_iso_of t d then rule else str_append rule "|CORRECTION_FROM_EXISTING_APPOINTMENT_DATE"
  ];
  confidence = confidence;
}

-- `requested_weekday_matches_date`
unfoldable pub weekday_matches : Utterance → Date → Bool
unfolding weekday
weekday_matches u d = elim (last u.weekdays) [ none ↦ true | some w ↦ weekday d == w.target ]

-- `_enforce_requested_weekday`, for a resolution that is returned.
unfoldable pub enforce : Utterance → TemporalResolution → Result (Option TemporalResolution)
unfolding weekday_matches
enforce u r =
    if weekday_matches u r.resolved
    then ok (some r)
    else err (value_error "resolved date contradicts explicitly requested weekday")

-- The last match of a relative day, where it stands after the last weekday.
unfoldable pub relative_day : Utterance → Option DayMatch
relative_day u = elim (last u.relative_days) [
  | none ↦ none
  | some r ↦ elim (last u.weekdays) [
    | none ↦ some r
    | some w ↦ if ltb w.start r.start then some r else none
  ]
]

module _ (timezone : String) where
  -- A relative day is tomorrow or the day after.
  unfoldable pub resolve_relative :
      DayMatch → Date → Option IsoText → Result (Option TemporalResolution)
  unfolding add_days result
  resolve_relative r reference existing = add_days (if r.day_after then 2 else 1) reference >>= λ d.
      ok (
        some (
          result timezone d r.text
            (if r.day_after then "DAY_AFTER_TOMORROW_PLUS_2_DAYS" else "TOMORROW_PLUS_1_DAY") 99
            existing))

  -- Days after the date of the appointment.
  unfoldable pub resolve_offset : OffsetMatch → IsoText → Result (Option TemporalResolution)
  unfolding add_days result
  resolve_offset m existing = from_iso existing >>= λ start. add_days m.count start >>= λ d. ok (
      some (
        result timezone d m.text (str_append "DAY_OFFSET_FROM_EXISTING_APPOINTMENT:" m.raw_count) 99
          (some existing)))

  unfoldable pub resolve_weekday :
      Utterance → WeekdayMatch → Date → Option IsoText → Result (Option TemporalResolution)
  unfolding place_weekday result enforce
  resolve_weekday u w reference existing = place_weekday w reference >>= λ (d, rule, confidence).
      enforce u (result timezone d w.expression rule confidence existing)

  -- What follows the search for an expression that is ambiguous.
  unfoldable pub resolve_words :
      Utterance → Date → Option IsoText → Result (Option TemporalResolution)
  unfolding relative_day resolve_relative resolve_weekday
  resolve_words u reference existing = elim (relative_day u) [
    | some r ↦ resolve_relative r reference existing
    | none ↦ elim (last u.weekdays) [
      | none ↦ ok none
      | some w ↦ resolve_weekday u w reference existing
    ]
  ]

  -- The offset applies only to an appointment that has a date.
  abbrev pub resolve_known : Utterance → Date → Option IsoText → Result (Option TemporalResolution)
  resolve_known u reference none = resolve_words u reference none
  resolve_known u reference (some t) = elim u.offset [
    | some m ↦ resolve_offset m t
    | none ↦ resolve_words u reference (some t)
  ]

  -- `resolve`
  unfoldable pub resolve : Utterance → Date → Option IsoText → Result (Option TemporalResolution)
  unfolding resolve_explicit result enforce resolve_words resolve_offset
  resolve u reference existing =
      if is_blank u.text then ok none else (elim (resolve_explicit u reference) [
        | some (d, raw, rule, confidence) ↦
            enforce u (result timezone d raw rule confidence existing)
        | none ↦ elim u.ambiguous [ some a ↦ ok none | none ↦ resolve_known u reference existing ]
      ])

  -- `clarification_candidate`
  unfoldable pub clarification_candidate :
      Utterance → Date → Option IsoText → Result (Option TemporalResolution)
  unfolding resolve_explicit add_days days_ahead result
  clarification_candidate u reference existing =
      if is_blank u.text then ok none else (elim (resolve_explicit u reference) [
        | some found ↦ ok none
        | none ↦ elim u.ambiguous [
          | none ↦ ok none
          | some (target, raw) ↦ add_days (days_ahead target reference) reference >>= λ d.
              ok (
                some (result timezone d raw "AMBIGUOUS_WEEKDAY_REQUIRES_CLARIFICATION" 45 existing))
        ]
      ])
