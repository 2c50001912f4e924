-- ===== src/Temporal/Order.antt =====
-- The order of dates in src/humanflow/runtime/temporal.py, by their day numbers.
use humanflow.Temporal.Ordinals.{
  december_days, december, year_days, is_date-Bounds, month_days, IsDate,
}
use humanflow.Temporal.Calendar.{
  is_leap, to_ordinal, before, days_in_month, Date, days_before_month, days_before_year,
}
use Prim.Native.Nat.{ℕ}
use mathlib.Core.Path.{refl}
use humanflow.Shared.{
  sym, ltb→le, inr, ltb→lt, ◌==◌, inl, false, ◌⊎◌, ltb, true, Bool-cases, ◌-◌, ◌<◌, ◌∙◌,
  if◌then◌else◌, zero, suc, ◌+◌, ◌≤◌, ◌≡◌, ap, arith, nat_instance, string_instance, int_instance,
}

month_start :
    (y m k : ℕ)
    → 1 ≤ m
    → days_before_month y m + days_in_month y m ≤ days_before_month y (m + 1 + k)
month_start y m zero h =
    let e : m + 1 + 0 ≡ m + 1 = omega arith in
    omega (arith, month_days y m h, ap (days_before_month y) e)
month_start y m (suc k) h =
    let e : m + 1 + suc k ≡ (m + 1 + k) + 1 = omega arith in
    omega (arith, month_start y m k h, month_days y (m + 1 + k), ap (days_before_month y) e)

abbrev year_length : ℕ → ℕ
year_length y = if is_leap y then 366 else 365

year_step : (y : ℕ) → 1 ≤ y → days_before_year (y + 1) ≡ days_before_year y + year_length y
year_step zero h = absurd (omega arith)
year_step (suc y) h =
    let e : suc y + 1 ≡ suc (suc y) = omega arith in ap days_before_year e ∙ year_days y

year_start : (y k : ℕ) → 1 ≤ y → days_before_year y + year_length y ≤ days_before_year (y + 1 + k)
year_start y zero h =
    let e : y + 1 + 0 ≡ y + 1 = omega arith in omega (arith, year_step y h, ap days_before_year e)
year_start y (suc k) h =
    let e : y + 1 + suc k ≡ (y + 1 + k) + 1 = omega arith in
    omega (arith, year_start y k h, year_step (y + 1 + k), ap days_before_year e)

-- The day of a year lies within the year.
in_year : (d : Date) → IsDate d → days_before_month d.year d.month + d.day ≤ year_length d.year
in_year d valid =
    let b = is_date-Bounds d.year d.month d.day valid in
    elim (Bool-cases (ltb d.month 12)) [
      | inl early ↦
          let lt = ltb→lt d.month 12 early in
          let e : d.month + 1 + (11 - d.month) ≡ 12 = omega arith in
          omega (
            arith,
            month_start d.year d.month (11 - d.month) b.month_from,
            ap (days_before_month d.year) e,
            december d.year,
            b.day_to,
          )
      | inr late ↦
          let e : d.month ≡ 12 = ground (arith, b.month_to) in
          omega (
            arith,
            ap (days_before_month d.year) e,
            ap (days_in_month d.year) e,
            december d.year,
            december_days d.year,
            b.day_to,
          )
    ]

ordinal_parts :
    (d : Date) → to_ordinal d ≡ days_before_year d.year + days_before_month d.year d.month + d.day
unfolding to_ordinal
ordinal_parts d = refl

year_later : (a b : Date) → IsDate a → IsDate b → a.year < b.year → to_ordinal a < to_ordinal b
year_later a b va vb h =
    let e : a.year + 1 + (b.year - a.year - 1) ≡ b.year = omega arith in
    let from = (is_date-Bounds a.year a.month a.day va).year_from in
    let day = (is_date-Bounds b.year b.month b.day vb).day_from in
    omega (
      arith,
      ordinal_parts a,
      ordinal_parts b,
      in_year a va,
      year_start a.year (b.year - a.year - 1) from,
      ap days_before_year e,
      day,
    )

month_later :
    (a b : Date)
    → IsDate a
    → IsDate b
    → a.year ≡ b.year
    → a.month < b.month
    → to_ordinal a < to_ordinal b
month_later a b va vb y h =
    let e : a.month + 1 + (b.month - a.month - 1) ≡ b.month = omega arith in
    let ba = is_date-Bounds a.year a.month a.day va in
    let bb = is_date-Bounds b.year b.month b.day vb in
    omega (
      arith,
      ordinal_parts a,
      ordinal_parts b,
      ba.day_to,
      month_start a.year a.month (b.month - a.month - 1) ba.month_from,
      ap (days_before_month a.year) e,
      ap (λ x. days_before_month x b.month) y,
      ap days_before_year y,
      bb.day_from,
    )

day_later :
    (a b : Date)
    → a.year ≡ b.year
    → a.month ≡ b.month
    → (n : ℕ) → a.day + n ≡ b.day
    → to_ordinal a + n ≡ to_ordinal b
day_later a b y m n h = omega (
  arith,
  ordinal_parts a,
  ordinal_parts b,
  ap days_before_year y,
  ap (λ x. days_before_month x a.month) y,
  ap (days_before_month b.year) m,
)

-- The order of dates is that of their day numbers.
pub before-to_ordinal :
    (a b : Date)
    → IsDate a
    → IsDate b
    → ((before a b ≡ true) × (to_ordinal a < to_ordinal b))
      ⊎ ((before a b ≡ false) × (to_ordinal b ≤ to_ordinal a))
unfolding before
before-to_ordinal a b va vb = elim (Bool-cases (a.year == b.year)) [
  | inl year ↦
      let y : a.year ≡ b.year = ground arith in
      elim (Bool-cases (a.month == b.month)) [
        | inl month ↦
            let m : a.month ≡ b.month = ground arith in
            elim (Bool-cases (ltb a.day b.day)) [
              | inl day ↦ inl (
                ground arith,
                let lt = ltb→lt a.day b.day day in omega (arith, day_later a b y m (b.day - a.day)),
              )
              | inr day ↦ inr (
                ground arith,
                let le = ltb→le b.day a.day day in
                    omega (arith, day_later b a (sym y) (sym m) (a.day - b.day)),
              )
            ]
        | inr month ↦ elim (Bool-cases (ltb a.month b.month)) [
          | inl early ↦ inl (ground arith, month_later a b va vb y (ltb→lt a.month b.month early))
          | inr late ↦
              let lt : b.month < a.month = ground arith in
              inr (ground arith, omega (arith, month_later b a vb va (sym y) lt))
        ]
      ]
  | inr year ↦ elim (Bool-cases (ltb a.year b.year)) [
    | inl early ↦ inl (ground arith, year_later a b va vb (ltb→lt a.year b.year early))
    | inr late ↦
        let lt : b.year < a.year = ground arith in
        inr (ground arith, omega (arith, year_later b a vb va lt))
  ]
]
