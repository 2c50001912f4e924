-- ===== src/Runtime/Cycles.antt =====
-- The order of the events of src/humanflow/runtime/acoustic_barge_in.py.
use humanflow.Runtime.BargeIn.{
  event_of, Thresholds, update_noise_floor, reset_candidate, Reading, AcousticEvent,
  observe_silence, Detector,
}
use humanflow.Shared.{
  ◌≡◌, refl, sym, inl, inr, Bool, true, false, not, ◌&&◌, Option, none, some, List, [], ◌∷◌,
  if◌then◌else◌, Bool-cases, nat_instance, string_instance, ℤ, int_instance, All,
}
use humanflow.Runtime.BargeIn.{speech_onset, sustained_takeover, speech_ended}
use mathlib.Core.Path.{subst}
use humanflow.Shared.Float.{exact_add, leb_float, Float}

-- The onset of an event or of a candidate is known.
abbrev pub has_onset : Option ℤ → Bool
has_onset none = false
has_onset (some onset) = true

-- The events that may come, from whether speech is active and whether a takeover has been told: an
-- onset starts a cycle, at most one takeover follows it, and an end closes it.
abbrev pub accepts : Bool → Bool → List AcousticEvent → Option (Bool × Bool)
accepts active taken [] = some (active, taken)
accepts active taken (e ∷ es) = elim e.event_type [
  | speech_onset ↦ if active then none else accepts true false es
  | sustained_takeover ↦ if active && not taken then accepts true true es else none
  | speech_ended ↦ if active then accepts false false es else none
]

-- A takeover has been told only while speech is active, and active speech has an onset.
pub record IsConsistent (d : Detector) : Type 0 where
  pub taken_active : d.takeover_emitted ≡ true → d.speech_active ≡ true
  pub active_onset : d.speech_active ≡ true → has_onset d.candidate_onset_ns ≡ true

-- The events run through the cycle from the state before to the state after, each has an onset, and
-- the state after is consistent.
pub record Cycles (d : Detector) (o : Detector × List AcousticEvent) : Type 0 where
  pub accepted :
      accepts d.speech_active d.takeover_emitted o.1
      ≡ some (o.0.speech_active, o.0.takeover_emitted)
  pub timed : All (λ e. has_onset e.speech_onset_ns ≡ true) o.1
  pub consistent : IsConsistent o.0

pub taken_false :
    (d : Detector) → IsConsistent d → d.speech_active ≡ false → d.takeover_emitted ≡ false
taken_false d h a = elim (Bool-cases d.takeover_emitted) [
  | inl taken ↦ let active = h.taken_active taken in cc
  | inr none_yet ↦ none_yet
]

-- A detector without a candidate.
fresh-IsConsistent :
    (d : Detector) → d.takeover_emitted ≡ false → d.speech_active ≡ false → IsConsistent d
fresh-IsConsistent d e f = record { taken_active = λ x. cc; active_onset = λ x. cc }

-- No event while the flags stay.
still-Cycles :
    (d u : Detector)
    → u.speech_active ≡ d.speech_active
    → u.takeover_emitted ≡ d.takeover_emitted
    → IsConsistent u
    → Cycles d (u, [])
still-Cycles d u a e h = record { accepted = cc; timed = tt; consistent = h }

-- The end of active speech.
ended-Cycles :
    (d u : Detector) (r : Reading) (q : Detector)
    → d.speech_active ≡ true
    → has_onset q.candidate_onset_ns ≡ true
    → u.speech_active ≡ false
    → u.takeover_emitted ≡ false
    → Cycles d (u, event_of speech_ended r q ∷ [])
ended-Cycles d u r q a o f g = record {
  accepted = rw (a, f, g) refl;
  timed = (o, tt);
  consistent = fresh-IsConsistent u g f;
}

module _ (round : Float → Float) where
  abbrev pub longer_silence : Reading → Detector → Float
  longer_silence r d = round (exact_add d.silence_duration_ms r.frame_ms)

  abbrev pub silent : Reading → Detector → Detector
  silent r d = record d { silence_duration_ms = longer_silence r d }

  silence_idle :
      (t : Thresholds) (r : Reading) (d : Detector)
      → d.speech_active ≡ false
      → observe_silence round t r d ≡ (update_noise_floor round t r.rms (reset_candidate d), [])
  unfolding observe_silence
  silence_idle t r d a = rw (a, observe_silence) refl

  silence_due :
      (t : Thresholds) (r : Reading) (d : Detector)
      → d.speech_active ≡ true
      → leb_float t.release_silence_ms (longer_silence r d) ≡ true
      → observe_silence round t r d ≡ (
        update_noise_floor round t r.rms (reset_candidate (silent r d)),
        event_of speech_ended r (silent r d) ∷ [],
      )
  unfolding observe_silence
  silence_due t r d a e = simp (a, e) refl

  silence_early :
      (t : Thresholds) (r : Reading) (d : Detector)
      → d.speech_active ≡ true
      → leb_float t.release_silence_ms (longer_silence r d) ≡ false
      → observe_silence round t r d ≡ (silent r d, [])
  unfolding observe_silence
  silence_early t r d a e = rw (a, e, observe_silence) refl

  pub silence-Cycles :
      (t : Thresholds) (r : Reading) (d : Detector)
      → IsConsistent d
      → Cycles d (observe_silence round t r d)
  unfolding observe_silence reset_candidate update_noise_floor
  silence-Cycles t r d h = elim (Bool-cases d.speech_active) [
    | inr idle ↦ subst (Cycles d) (sym (silence_idle t r d idle)) (
        still-Cycles d (update_noise_floor round t r.rms (reset_candidate d)) (sym idle)
          (sym (taken_false d h idle))
          (fresh-IsConsistent (update_noise_floor round t r.rms (reset_candidate d)) refl refl))
    | inl active ↦ elim (Bool-cases (leb_float t.release_silence_ms (longer_silence r d))) [
      | inl due ↦ subst (Cycles d) (sym (silence_due t r d active due)) (
          ended-Cycles d (update_noise_floor round t r.rms (reset_candidate (silent r d))) r
            (silent r d) active (h.active_onset active) refl refl)
      | inr early ↦ subst (Cycles d) (sym (silence_early t r d active early)) (
          still-Cycles d (silent r d) refl refl
            (record { taken_active = h.taken_active; active_onset = h.active_onset }))
    ]
  ]
