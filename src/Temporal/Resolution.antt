-- ===== src/Temporal/Resolution.antt =====
-- What `resolve` of src/humanflow/runtime/temporal.py returns for an utterance that names a weekday.
use humanflow.Temporal.Placement.{place_weekday-Placement}
use humanflow.Temporal.Lies.{Lies, HasRoom}
use humanflow.Temporal.Ordinals.{IsDate}
use humanflow.Shared.Text.{is_blank}
use humanflow.Temporal.Placing.{resolve_explicit, Found, place_weekday, Placed}
use humanflow.Temporal.Calendar.{weekday, Date}
use humanflow.Temporal.Scan.{last, IsoText, TemporalResolution, Utterance, WeekdayMatch}
use humanflow.Temporal.Resolver.{
  resolve, resolve_known, result, resolve_weekday, resolve_words, relative_day, weekday_matches,
  enforce,
}
use humanflow.Shared.Result.{err, ok, Result, ◌>>=◌}
use Prim.Native.Nat.{ℕ}
use mathlib.Core.Path.{refl, subst}
use humanflow.Shared.{
  nat_eq_iff, ◌<◌, false, Option-cases, ◌⊎◌, String, ◌≡◌, sym, ◌∙◌, inl, inr, true, Option, none,
  some, arith, Bool-cases, ◌==◌, nat_instance, string_instance, int_instance,
}

both_options {ℓ κ} : {A : Type ℓ} {B : Type κ} {o : Option A} {a : A} → o ≡ none → o ≡ some a → B
both_options h k = cc

-- A date that is returned lies on the weekday.
abbrev pub Agrees : WeekdayMatch → Result (Option TemporalResolution) → Type 0
Agrees w (ok (some r)) = weekday r.resolved ≡ w.target
Agrees w (ok none) = Unit {0}
Agrees w (err x) = Unit {0}

matches_lem :
    (u : Utterance) (w : WeekdayMatch) (d : Date)
    → last u.weekdays ≡ some w
    → weekday_matches u d ≡ (weekday d == w.target)
unfolding weekday_matches
matches_lem u w d h = rw (h, weekday_matches) refl

enforced :
    (u : Utterance) (r : TemporalResolution)
    → weekday_matches u r.resolved ≡ true
    → enforce u r ≡ ok (some r)
unfolding enforce
enforced u r h = rw h refl

enforce-Agrees :
    (u : Utterance) (w : WeekdayMatch) (r : TemporalResolution)
    → last u.weekdays ≡ some w
    → Agrees w (enforce u r)
unfolding enforce
enforce-Agrees u w r h = elim (Bool-cases (weekday_matches u r.resolved)) [
  | inl same ↦ let on = sym (matches_lem u w r.resolved h) ∙ same in rw same (ground arith)
  | inr other ↦ rw other tt
]

module _ (timezone : String) (u : Utterance) (w : WeekdayMatch) (reference : Date)
    (existing : Option IsoText) (named : last u.weekdays ≡ some w)
    (alone : relative_day u ≡ none) where
  words_only :
      resolve_words timezone u reference existing ≡ resolve_weekday timezone u w reference existing
  unfolding resolve_words
  words_only = rw (alone, named, resolve_words) refl

  weekday-Agrees :
      (o : Result Placed)
      → Agrees w (
          o >>= λ (d, rule, confidence).
          enforce u (result timezone d w.expression rule confidence existing))
  weekday-Agrees (err x) = tt
  weekday-Agrees (ok (d, rule, confidence)) =
      enforce-Agrees u w (result timezone d w.expression rule confidence existing) named

  resolve_words-Agrees : Agrees w (resolve_words timezone u reference existing)
  resolve_words-Agrees =
      unfold resolve_weekday in
      subst (Agrees w) (sym words_only) (weekday-Agrees (place_weekday w reference))

  -- No offset from the date of an appointment applies.
  abbrev NoOffset : Type 0
  NoOffset = (existing ≡ none) ⊎ (u.offset ≡ none)

  known_only :
      NoOffset
      → resolve_known timezone u reference existing ≡ resolve_words timezone u reference existing
  known_only h = elim (Option-cases existing) [
    | inl absent ↦
        subst (λ x. resolve_known timezone u reference x ≡ resolve_words timezone u reference x)
          (sym absent) refl
    | inr (t, e) ↦
        subst (λ x. resolve_known timezone u reference x ≡ resolve_words timezone u reference x)
          (sym e)
          (elim h [ inl absent ↦ both_options absent e | inr none_said ↦ rw none_said refl ])
  ]

  explicit-Agrees :
      (o : Option Found) (a : Option (ℕ × String)) (rest : Result (Option TemporalResolution))
      → Agrees w rest
      → Agrees w (elim o [
        | some (d, raw, rule, confidence) ↦
            enforce u (result timezone d raw rule confidence existing)
        | none ↦ elim a [ some x ↦ ok none | none ↦ rest ]
      ])
  explicit-Agrees (some (d, raw, rule, confidence)) a rest h =
      enforce-Agrees u w (result timezone d raw rule confidence existing) named
  explicit-Agrees none (some x) rest h = tt
  explicit-Agrees none none rest h = h

  resolve-Agrees : NoOffset → Agrees w (resolve timezone u reference existing)
  unfolding resolve
  resolve-Agrees no_offset = elim (Bool-cases (is_blank u.text)) [
    | inl blank ↦ rw blank tt
    | inr spoken ↦ rw spoken (
        explicit-Agrees (resolve_explicit u reference) u.ambiguous
          (resolve_known timezone u reference existing)
          (subst (Agrees w) (sym (known_only no_offset)) resolve_words-Agrees))
  ]

-- A date that `resolve` returns for an utterance that names a weekday lies on the weekday that it names
-- last, explicit dates included, unless a relative day stands after the weekday or days are counted from
-- the date of an appointment.
pub resolve-weekday :
    (timezone : String) (u : Utterance) (w : WeekdayMatch) (reference : Date)
    (existing : Option IsoText) (r : TemporalResolution)
    → last u.weekdays ≡ some w
    → relative_day u ≡ none
    → (existing ≡ none) ⊎ (u.offset ≡ none)
    → resolve timezone u reference existing ≡ ok (some r)
    → weekday r.resolved ≡ w.target
resolve-weekday timezone u w reference existing r named alone no_offset h =
    subst (Agrees w) h (resolve-Agrees timezone u w reference existing named alone no_offset)

placed_words :
    (timezone : String) (u : Utterance) (w : WeekdayMatch) (reference : Date)
    (existing : Option IsoText) (d : Date) (rule : String) (confidence : ℕ)
    → last u.weekdays ≡ some w
    → weekday d ≡ w.target
    → place_weekday w reference ≡ ok (d, rule, confidence)
    → resolve_weekday timezone u w reference existing
      ≡ ok (some (result timezone d w.expression rule confidence existing))
unfolding resolve_weekday
placed_words timezone u w reference existing d rule confidence named on h =
    let m : weekday_matches u d ≡ true =
      matches_lem u w d named ∙ (nat_eq_iff (weekday d) w.target).1 on in
    rw h (enforced u (result timezone d w.expression rule confidence existing) m)

-- An utterance with a weekday and no explicit date, ambiguous expression, offset or relative day is
-- always resolved where the calendar has room, without the error of a contradicted weekday, and the date
-- lies where the words put it.
pub resolve-Lies :
    (timezone : String) (u : Utterance) (w : WeekdayMatch) (reference : Date)
    (existing : Option IsoText)
    → is_blank u.text ≡ false
    → resolve_explicit u reference ≡ none
    → u.ambiguous ≡ none
    → (existing ≡ none) ⊎ (u.offset ≡ none)
    → last u.weekdays ≡ some w
    → relative_day u ≡ none
    → w.target < 7
    → IsDate reference
    → HasRoom w reference
    → (r : TemporalResolution) × (resolve timezone u reference existing ≡ ok (some r))
      × (weekday r.resolved ≡ w.target)
      × Lies w reference r.resolved
unfolding resolve result
resolve-Lies timezone u w reference existing spoken plain clear no_offset named alone known today
      room =
    let p = place_weekday-Placement w reference known today room in
    let r : TemporalResolution =
      result timezone p.found w.expression p.rule p.confidence existing in
    let words =
      known_only timezone u w reference existing named alone no_offset
      ∙ words_only timezone u w reference existing named alone
      ∙ placed_words timezone u w reference existing p.found p.rule p.confidence named p.on_weekday
          p.returned in
    (r, rw (spoken, plain, clear, resolve) words, p.on_weekday, p.lies)
