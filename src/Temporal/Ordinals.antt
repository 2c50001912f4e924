-- ===== src/Temporal/Ordinals.antt =====
-- The steps of src/humanflow/runtime/temporal.py over the calendar: each adds or takes one day number.
use humanflow.Temporal.Calendar.{
  to_ordinal, is_leap, is_date, days_before_year, days_before_month, Date, days_in_month,
}
use Prim.Native.Nat.{ℕ}
use mathlib.Core.Path.{refl, subst}
use humanflow.Shared.{
  ap, ◌∙◌, sym, ◌<◌, zero, suc, ◌+◌, ◌≤◌, ◌≡◌, true, arith, if◌then◌else◌, nat_instance,
  string_instance, int_instance,
}

abbrev pub IsDate : Date → Type 0
IsDate d = is_date d.year d.month d.day ≡ true

-- The bounds of a date.
pub record Bounds (y m d : ℕ) : Type 0 where
  pub year_from : 1 ≤ y
  pub year_to : y ≤ 9999
  pub month_from : 1 ≤ m
  pub month_to : m ≤ 12
  pub day_from : 1 ≤ d
  pub day_to : d ≤ days_in_month y m

pub is_date-Bounds : (y m d : ℕ) → is_date y m d ≡ true → Bounds y m d
unfolding is_date
is_date-Bounds y m d h = record {
  year_from = ground arith;
  year_to = ground arith;
  month_from = ground arith;
  month_to = ground arith;
  day_from = ground arith;
  day_to = ground arith;
}

pub Bounds-is_date : (y m d : ℕ) → Bounds y m d → is_date y m d ≡ true
unfolding is_date
Bounds-is_date y m d b =
    ground (arith, b.year_from, b.year_to, b.month_from, b.month_to, b.day_from, b.day_to)

pub year_days :
    (y : ℕ)
    → days_before_year (suc (suc y))
      ≡ days_before_year (suc y) + (if is_leap (suc y) then 366 else 365)
unfolding days_before_year
year_days y = ground arith

-- Eleven months and December make a year.
pub december : (y : ℕ) → days_before_month y 12 + 31 ≡ (if is_leap y then 366 else 365)
unfolding days_before_month days_in_month
december y = ground arith

pub month_days :
    (y m : ℕ) → 1 ≤ m → days_before_month y (m + 1) ≡ days_before_month y m + days_in_month y m
unfolding days_before_month
month_days y zero h = absurd (omega arith)
month_days y (suc m) h =
    let next : suc (suc m) ≡ suc m + 1 = omega arith in
    subst (λ n. days_before_month y n ≡ days_before_month y (suc m) + days_in_month y (suc m)) next
      refl

pub month_full : (y m : ℕ) → 28 ≤ days_in_month y m
unfolding days_in_month
month_full y m = ground arith

-- A day number after another one.
abbrev pub Succeeds : Date → Date → Type 0
Succeeds d e = IsDate e × (to_ordinal e ≡ suc (to_ordinal d))

pub later_day :
    (d : Date)
    → Bounds d.year d.month d.day
    → d.day < days_in_month d.year d.month
    → Succeeds d (record d { day = d.day + 1 })
unfolding to_ordinal
later_day d b h = (
  Bounds-is_date d.year d.month (d.day + 1) (record {
    year_from = b.year_from;
    year_to = b.year_to;
    month_from = b.month_from;
    month_to = b.month_to;
    day_from = omega arith;
    day_to = omega arith;
  }),
  omega arith,
)

pub later_month :
    (d : Date)
    → Bounds d.year d.month d.day
    → d.day ≡ days_in_month d.year d.month
    → d.month < 12
    → Succeeds d (record { year = d.year; month = d.month + 1; day = 1 })
unfolding to_ordinal
later_month d b full h = (
  Bounds-is_date d.year (d.month + 1) 1 (record {
    year_from = b.year_from;
    year_to = b.year_to;
    month_from = omega arith;
    month_to = omega arith;
    day_from = omega arith;
    day_to = omega (arith, month_full d.year (d.month + 1));
  }),
  omega (arith, month_days d.year d.month b.month_from),
)

pub year_end :
    (y m d : ℕ)
    → 1 ≤ y
    → m ≡ 12
    → d ≡ 31
    → suc (days_before_year y + days_before_month y m + d)
      ≡ days_before_year (y + 1) + days_before_month (y + 1) 1 + 1
year_end zero m d some_year last end = absurd (omega arith)
year_end (suc y) m d some_year last end =
    let first : days_before_month (suc y + 1) 1 ≡ 0 = unfold days_before_month in refl in
    let next : suc (suc y) ≡ suc y + 1 = omega arith in
    rw (last, end) (omega (arith, first, december (suc y), year_days y, ap days_before_year next))

pub december_days : (y : ℕ) → days_in_month y 12 ≡ 31
unfolding days_in_month
december_days y = refl

pub later_year :
    (d : Date)
    → Bounds d.year d.month d.day
    → d.day ≡ days_in_month d.year d.month
    → d.month ≡ 12
    → d.year < 9999
    → Succeeds d (record { year = d.year + 1; month = 1; day = 1 })
unfolding to_ordinal
later_year d b full last h = (
  Bounds-is_date (d.year + 1) 1 1 (record {
    year_from = omega arith;
    year_to = omega arith;
    month_from = omega arith;
    month_to = omega arith;
    day_from = omega arith;
    day_to = omega (arith, month_full (d.year + 1) 1);
  }),
  sym (
      year_end d.year d.month d.day b.year_from last
        (full ∙ (ap (days_in_month d.year) last ∙ december_days d.year))),
)
