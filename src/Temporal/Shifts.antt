-- ===== src/Temporal/Shifts.antt =====
-- Dates plus and minus whole days, as src/humanflow/runtime/temporal.py uses them, on day numbers.
use humanflow.Shared.Result.{Result-cases, err, ok, Result}
use humanflow.Temporal.Ordinals.{
  month_full, december_days, later_year, later_month, year_end, later_day, Bounds-is_date,
  month_days, is_date-Bounds, Succeeds, Bounds, IsDate,
}
use humanflow.Temporal.Calendar.{
  sub_days, add_days, days_before_month, days_in_month, days_before_year, previous_day, next_day,
  to_ordinal, Date,
}
use mathlib.Core.Path.{refl, subst}
use Prim.Native.Nat.{ℕ}
use humanflow.Shared.{
  zero, ◌≤◌, suc, ◌+◌, ◌-◌, ◌<◌, ◌≡◌, sym, ap, ◌∙◌, inl, inr, arith, ltb, Bool-cases, nat_instance,
  string_instance, int_instance,
}

-- The day number of 9999-12-31.
abbrev pub last_ordinal : ℕ
last_ordinal = 3652059

last_day : (d : Date) → d.year ≡ 9999 → d.month ≡ 12 → d.day ≡ 31 → to_ordinal d ≡ last_ordinal
unfolding to_ordinal days_before_year days_before_month days_in_month
last_day d y m k = rw (y, m, k) refl

first_day : (d : Date) → d.year ≡ 1 → d.month ≡ 1 → d.day ≡ 1 → to_ordinal d ≡ 1
unfolding to_ordinal days_before_year days_before_month days_in_month
first_day d y m k = rw (y, m, k) refl

-- How a step to the next day ends.
abbrev Next : Date → Result Date → Type 0
Next d (ok e) = Succeeds d e
Next d (err x) = to_ordinal d ≡ last_ordinal

next_day-Next : (d : Date) → IsDate d → Next d (next_day d)
unfolding next_day
next_day-Next d valid =
    let b = is_date-Bounds d.year d.month d.day valid in
    elim (Bool-cases (ltb d.day (days_in_month d.year d.month))) [
      | inl within ↦ rw within (later_day d b (ground arith))
      | inr full ↦ elim (Bool-cases (ltb d.month 12)) [
        | inl early ↦ rw (full, early) (later_month d b (ground (arith, b.day_to)) (ground arith))
        | inr last ↦
            let december : d.month ≡ 12 = ground (arith, b.month_to) in
            let full_month : d.day ≡ days_in_month d.year d.month = ground (arith, b.day_to) in
            elim (Bool-cases (ltb d.year 9999)) [
              | inl more ↦ rw (full, last, more) (later_year d b full_month december (ground arith))
              | inr over ↦
                  rw (full, last, over)
                    (last_day d (ground (arith, b.year_to)) december
                      (full_month ∙ (ap (days_in_month d.year) december ∙ december_days d.year)))
            ]
      ]
    ]

earlier_day :
    (d : Date) → 1 < d.day → to_ordinal d ≡ suc (to_ordinal (record d { day = d.day - 1 }))
unfolding to_ordinal
earlier_day d h = omega arith

earlier_month :
    (d : Date)
    → Bounds d.year d.month d.day
    → d.day ≡ 1
    → 1 < d.month
    → to_ordinal d
      ≡ suc (
          to_ordinal (record {
            year = d.year;
            month = d.month - 1;
            day = days_in_month d.year (d.month - 1);
          }))
unfolding to_ordinal
earlier_month d b first h =
    let back : d.month - 1 + 1 ≡ d.month = omega arith in
    omega (arith, month_days d.year (d.month - 1), ap (days_before_month d.year) back)

earlier_year :
    (d : Date)
    → Bounds d.year d.month d.day
    → d.day ≡ 1
    → d.month ≡ 1
    → 1 < d.year
    → to_ordinal d ≡ suc (to_ordinal (record { year = d.year - 1; month = 12; day = 31 }))
unfolding to_ordinal
earlier_year d b first january h =
    let back : d.year - 1 + 1 ≡ d.year = omega arith in
    let none_yet : days_before_month (d.year - 1 + 1) 1 ≡ days_before_month d.year d.month =
      ap (λ y. days_before_month y 1) back ∙ ap (days_before_month d.year) (sym january) in
    omega (arith, year_end (d.year - 1) 12 31, none_yet, ap days_before_year back)

-- How a step to the previous day ends.
abbrev Previous : Date → Result Date → Type 0
Previous d (ok e) = IsDate e × (to_ordinal d ≡ suc (to_ordinal e))
Previous d (err x) = to_ordinal d ≡ 1

previous_day-Previous : (d : Date) → IsDate d → Previous d (previous_day d)
unfolding previous_day
previous_day-Previous d valid =
    let b = is_date-Bounds d.year d.month d.day valid in
    elim (Bool-cases (ltb 1 d.day)) [
      | inl later ↦ rw later (
        Bounds-is_date d.year d.month (d.day - 1) (record {
          year_from = b.year_from;
          year_to = b.year_to;
          month_from = b.month_from;
          month_to = b.month_to;
          day_from = ground arith;
          day_to = omega (arith, b.day_to);
        }),
        earlier_day d (ground arith),
      )
      | inr early ↦
          let first : d.day ≡ 1 = ground (arith, b.day_from) in
          elim (Bool-cases (ltb 1 d.month)) [
            | inl month ↦
                rw (early, month)
                  (
                    Bounds-is_date d.year (d.month - 1) (days_in_month d.year (d.month - 1))
                        (record {
                          year_from = b.year_from;
                          year_to = b.year_to;
                          month_from = ground arith;
                          month_to = omega (arith, b.month_to);
                          day_from = omega (arith, month_full d.year (d.month - 1));
                          day_to = omega arith;
                        }),
                    earlier_month d b first (ground arith),
                  )
            | inr no_month ↦
                let january : d.month ≡ 1 = ground (arith, b.month_from) in
                elim (Bool-cases (ltb 1 d.year)) [
                  | inl year ↦
                      rw (early, no_month, year)
                        (
                          Bounds-is_date (d.year - 1) 12 31 (record {
                            year_from = ground arith;
                            year_to = omega (arith, b.year_to);
                            month_from = omega arith;
                            month_to = omega arith;
                            day_from = omega arith;
                            day_to = omega (arith, december_days (d.year - 1));
                          }),
                          earlier_year d b first january (ground arith),
                        )
                  | inr no_year ↦
                      rw (early, no_month, no_year)
                        (first_day d (ground (arith, b.year_from)) january first)
                ]
          ]
    ]

-- The result of adding days: the day number that many later, or an overflow past the last one.
abbrev pub Added : Date → ℕ → Result Date → Type 0
Added d n (ok e) = IsDate e × (to_ordinal e ≡ to_ordinal d + n)
Added d n (err x) = last_ordinal < to_ordinal d + n

-- The result of taking days: the day number that many earlier, or an overflow before the first one.
abbrev pub Taken : Date → ℕ → Result Date → Type 0
Taken d n (ok e) = IsDate e × (to_ordinal d ≡ to_ordinal e + n)
Taken d n (err x) = to_ordinal d ≤ n

Added-suc :
    (d e : Date) (n : ℕ) (o : Result Date)
    → to_ordinal e ≡ suc (to_ordinal d)
    → Added e n o
    → Added d (suc n) o
Added-suc d e n (ok f) h a = (a.0, omega arith)
Added-suc d e n (err x) h a = omega arith

Taken-suc :
    (d e : Date) (n : ℕ) (o : Result Date)
    → to_ordinal d ≡ suc (to_ordinal e)
    → Taken e n o
    → Taken d (suc n) o
Taken-suc d e n (ok f) h a = (a.0, omega arith)
Taken-suc d e n (err x) h a = omega arith

pub add_days-Added : (n : ℕ) (d : Date) → IsDate d → Added d n (add_days n d)
unfolding add_days
add_days-Added zero d valid = (valid, omega arith)
add_days-Added (suc n) d valid = elim (Result-cases (next_day d)) [
  | inl (e, stepped) ↦
      let (v, up) = subst (Next d) stepped (next_day-Next d valid) in
      rw stepped (Added-suc d e n (add_days n e) up (add_days-Added n e v))
  | inr (x, stuck) ↦
      let top = subst (Next d) stuck (next_day-Next d valid) in rw stuck (omega (arith, top))
]

pub sub_days-Taken : (n : ℕ) (d : Date) → IsDate d → Taken d n (sub_days n d)
unfolding sub_days
sub_days-Taken zero d valid = (valid, omega arith)
sub_days-Taken (suc n) d valid = elim (Result-cases (previous_day d)) [
  | inl (e, stepped) ↦
      let (v, down) = subst (Previous d) stepped (previous_day-Previous d valid) in
      rw stepped (Taken-suc d e n (sub_days n e) down (sub_days-Taken n e v))
  | inr (x, stuck) ↦
      let bottom = subst (Previous d) stuck (previous_day-Previous d valid) in
      rw stuck (omega (arith, bottom))
]
