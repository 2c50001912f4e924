-- ===== src/Temporal/Calendar.antt =====
-- The `datetime.date` of Python as src/humanflow/runtime/temporal.py uses it: construction, order, day of
-- the week, and steps of whole days.
use humanflow.Shared.Result.{value_error, overflow_error, ◌>>=◌, err, ok, Result}
use Prim.Native.Nat.{ℕ}
use humanflow.Shared.{
  zero, suc, ◌+◌, ◌-◌, ◌*◌, ◌/◌, ◌%◌, Bool, not, ◌&&◌, ◌||◌, ltb, leb, if◌then◌else◌, ◌==◌,
  nat_instance, string_instance, int_instance,
}

pub record Date : Type 0 where
  pub year : ℕ
  pub month : ℕ
  pub day : ℕ

abbrev pub is_leap : ℕ → Bool
is_leap y = y % 4 == 0 && (not (y % 100 == 0) || y % 400 == 0)

abbrev pub has_30_days : ℕ → Bool
has_30_days m = m == 4 || m == 6 || m == 9 || m == 11

unfoldable pub days_in_month : ℕ → ℕ → ℕ
days_in_month y m =
    if m == 2 then (if is_leap y then 29 else 28) else if has_30_days m then 30 else 31

unfoldable pub is_date : ℕ → ℕ → ℕ → Bool
unfolding days_in_month
is_date y m d =
    leb 1 y && leb y 9999 && (leb 1 m && leb m 12) && (leb 1 d && leb d (days_in_month y m))

-- `date(year, month, day)`
unfoldable pub make_date : ℕ → ℕ → ℕ → Result Date
unfolding is_date
make_date y m d =
    if is_date y m d
    then ok (record { year = y; month = m; day = d })
    else err (value_error "date out of range")

unfoldable pub days_before_month : ℕ → ℕ → ℕ
unfolding days_in_month
days_before_month y zero = 0
days_before_month y (suc zero) = 0
days_before_month y (suc (suc m)) = days_before_month y (suc m) + days_in_month y (suc m)

unfoldable pub days_before_year : ℕ → ℕ
days_before_year zero = 0
days_before_year (suc y) = 365 * y + y / 4 + y / 400 - y / 100

-- `toordinal`
unfoldable pub to_ordinal : Date → ℕ
unfolding days_before_year days_before_month
to_ordinal d = days_before_year d.year + days_before_month d.year d.month + d.day

-- `weekday`, from 0 for Monday.
unfoldable pub weekday : Date → ℕ
unfolding to_ordinal
weekday d = (to_ordinal d + 6) % 7

-- The order of dates.
unfoldable pub before : Date → Date → Bool
before a b =
    if a.year == b.year
    then if a.month == b.month then ltb a.day b.day else ltb a.month b.month
    else ltb a.year b.year

unfoldable pub next_day : Date → Result Date
unfolding days_in_month
next_day d =
    if ltb d.day (days_in_month d.year d.month)
    then ok (record d { day = d.day + 1 })
    else if ltb d.month 12
    then ok (record { year = d.year; month = d.month + 1; day = 1 })
    else if ltb d.year 9999
    then ok (record { year = d.year + 1; month = 1; day = 1 })
    else err (overflow_error "date value out of range")

unfoldable pub previous_day : Date → Result Date
unfolding days_in_month
previous_day d =
    if ltb 1 d.day
    then ok (record d { day = d.day - 1 })
    else if ltb 1 d.month
    then ok
        (record { year = d.year; month = d.month - 1; day = days_in_month d.year (d.month - 1) })
    else if ltb 1 d.year
    then ok (record { year = d.year - 1; month = 12; day = 31 })
    else err (overflow_error "date value out of range")

-- `d + timedelta(days=n)`
unfoldable pub add_days : ℕ → Date → Result Date
unfolding next_day
add_days zero d = ok d
add_days (suc n) d = next_day d >>= add_days n

-- `d - timedelta(days=n)`
unfoldable pub sub_days : ℕ → Date → Result Date
unfolding previous_day
sub_days zero d = ok d
sub_days (suc n) d = previous_day d >>= sub_days n
