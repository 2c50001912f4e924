-- ===== src/Temporal/Annual.antt =====
-- The next date of a day and month in src/humanflow/runtime/temporal.py, over the years it tries.
use humanflow.Temporal.Ordinals.{IsDate}
use humanflow.Temporal.Placing.{next_valid, next_valid_annual_date}
use humanflow.Shared.Result.{value_error, ok, err}
use humanflow.Temporal.Calendar.{is_leap, before, days_in_month, Date, is_date, make_date}
use Prim.Native.Nat.{suc, ℕ}
use humanflow.Shared.{ltb→lt, ltb→le}
use mathlib.Core.Path.{subst, refl}
use humanflow.Shared.{
  both, zero, ◌%◌, inl, ltb, ◌-◌, inr, nat_eq, Bool-cases, arith, some, ◌∙◌, Option, ◌<◌, ◌≤◌, ◌+◌,
  ◌≡◌, true, false, nat_instance, string_instance, int_instance,
}

made :
    (y m d : ℕ)
    → is_date y m d ≡ true
    → make_date y m d ≡ ok (record { year = y; month = m; day = d })
unfolding make_date
made y m d h = rw h refl

unmade :
    (y m d : ℕ) → is_date y m d ≡ false → make_date y m d ≡ err (value_error "date out of range")
unfolding make_date
unmade y m d h = rw h refl

abbrev on : ℕ → ℕ → ℕ → Date
on y m d = record { year = y; month = m; day = d }

-- A year in which a day of the year exists and does not lie before today.
abbrev pub Serves : ℕ → ℕ → Date → ℕ → Type 0
Serves m d reference y =
    (is_date y m d ≡ true) × (before (record { year = y; month = m; day = d }) reference ≡ false)

next_valid_here :
    (left y m d : ℕ) (reference : Date)
    → Serves m d reference y
    → next_valid (suc left) y m d reference ≡ some (on y m d)
unfolding next_valid
next_valid_here left y m d reference (valid, later) = rw (made y m d valid, later, next_valid) refl

next_valid_missing :
    (left y m d : ℕ) (reference : Date)
    → is_date y m d ≡ false
    → next_valid (suc left) y m d reference ≡ next_valid left (y + 1) m d reference
unfolding next_valid
next_valid_missing left y m d reference h = rw (unmade y m d h, next_valid) refl

next_valid_past :
    (left y m d : ℕ) (reference : Date)
    → is_date y m d ≡ true
    → before (on y m d) reference ≡ true
    → next_valid (suc left) y m d reference ≡ next_valid left (y + 1) m d reference
unfolding next_valid
next_valid_past left y m d reference h past = rw (made y m d h, past, next_valid) refl

-- What the search from a year finds: the first year that serves.
record First (m d : ℕ) (reference : Date) (y : ℕ) (o : Option Date) : Type 0 where
  pub year : ℕ
  pub found : o ≡ some (on year m d)
  pub serves : Serves m d reference year
  pub from : y ≤ year
  pub least : (j : ℕ) → y ≤ j → Serves m d reference j → year ≤ j

First-step :
    (left y m d : ℕ) (reference : Date)
    → next_valid (suc left) y m d reference ≡ next_valid left (y + 1) m d reference
    → (Serves m d reference y → ⊥)
    → First m d reference (y + 1) (next_valid left (y + 1) m d reference)
    → First m d reference y (next_valid (suc left) y m d reference)
First-step left y m d reference e unfit f = record {
  year = f.year;
  found = e ∙ f.found;
  serves = f.serves;
  from = omega (arith, f.from);
  least = λ j above s. elim (Bool-cases (nat_eq j y)) [
    | inl same ↦ let e : j ≡ y = ground arith in absurd (unfit (subst (Serves m d reference) e s))
    | inr other ↦ f.least j (ground arith) s
  ];
}

later_year-Serves :
    (m d y k : ℕ) (reference : Date)
    → y ≤ k
    → (Serves m d reference y → ⊥)
    → Serves m d reference k
    → y + 1 ≤ k
later_year-Serves m d y k reference lo unfit s = elim (Bool-cases (nat_eq y k)) [
  | inl same ↦ let e : k ≡ y = ground arith in absurd (unfit (subst (Serves m d reference) e s))
  | inr other ↦ ground arith
]

next_valid-First :
    (left y k m d : ℕ) (reference : Date)
    → y ≤ k
    → k < y + left
    → Serves m d reference k
    → First m d reference y (next_valid left y m d reference)
next_valid-First zero y k m d reference lo hi s = absurd (omega arith)
next_valid-First (suc left) y k m d reference lo hi s = elim (Bool-cases (is_date y m d)) [
  | inr missing ↦
      let unfit : Serves m d reference y → ⊥ = λ t. both t.0 missing in
      First-step left y m d reference (next_valid_missing left y m d reference missing) unfit (
        next_valid-First left (y + 1) k m d reference
          (later_year-Serves m d y k reference lo unfit s) (omega arith) s)
  | inl valid ↦ elim (Bool-cases (before (on y m d) reference)) [
    | inl past ↦
        let unfit : Serves m d reference y → ⊥ = λ t. both past t.1 in
        First-step left y m d reference (next_valid_past left y m d reference valid past) unfit (
          next_valid-First left (y + 1) k m d reference
            (later_year-Serves m d y k reference lo unfit s) (omega arith) s)
    | inr later ↦ record {
      year = y;
      found = next_valid_here left y m d reference (valid, later);
      serves = (valid, later);
      from = omega arith;
      least = λ j above t. above;
    }
  ]
]

-- One of two neighbouring multiples of four is a leap year.
leap_ahead : (y : ℕ) → (k : ℕ) × (y + 1 ≤ k) × (k ≤ y + 8) × (is_leap k ≡ true)
leap_ahead y = elim (Bool-cases (is_leap (y - y % 4 + 4))) [
  | inl leap ↦ (y - y % 4 + 4, omega arith, omega arith, leap)
  | inr common ↦ (y - y % 4 + 8, omega arith, omega arith, ground arith)
]

leap_dates :
    (k m d : ℕ)
    → 1 ≤ k
    → k ≤ 9999
    → is_leap k ≡ true
    → is_date 2000 m d ≡ true
    → is_date k m d ≡ true
unfolding is_date days_in_month
leap_dates k m d from to leap h = ground arith

before_year : (a b : Date) → a.year < b.year → (before a b ≡ true) × (before b a ≡ false)
unfolding before
before_year a b h = (ground arith, ground arith)

-- The earliest date of a day and month that is not before today.
pub record Earliest (m d : ℕ) (reference c : Date) : Type 0 where
  pub month_is : c.month ≡ m
  pub day_is : c.day ≡ d
  pub valid : IsDate c
  pub not_past : before c reference ≡ false
  pub earliest :
      (e : Date) → IsDate e → e.month ≡ m → e.day ≡ d → before e reference ≡ false → c.year ≤ e.year

-- For a day and month that exist in a leap year, and a current year up to 9991, the nine years that are
-- tried suffice: the earliest such date that is not before today is found, also for 29 February.
pub next_valid_annual_date-Earliest :
    (m d : ℕ) (reference : Date)
    → is_date 2000 m d ≡ true
    → IsDate reference
    → reference.year ≤ 9991
    → (c : Date) × (next_valid_annual_date m d reference ≡ some c) × Earliest m d reference c
unfolding next_valid_annual_date
next_valid_annual_date-Earliest m d reference exists today recent =
    let (k, above, below, leap) = leap_ahead reference.year in
    let f = next_valid-First 9 reference.year k m d reference (omega arith) (omega arith) (
      leap_dates k m d (omega arith) (omega arith) leap exists,
      (before_year reference (on k m d) (omega arith)).1,
    ) in
    (
      on f.year m d,
      f.found,
      record {
        month_is = refl;
        day_is = refl;
        valid = f.serves.0;
        not_past = f.serves.1;
        earliest = λ e valid month day later. elim (Bool-cases (ltb e.year reference.year)) [
          | inl past ↦ both (before_year e reference (ltb→lt e.year reference.year past)).0 later
          | inr present ↦
              f.least e.year (ltb→le reference.year e.year present)
                (rw (← month, ← day) (valid, later))
        ];
      },
    )
