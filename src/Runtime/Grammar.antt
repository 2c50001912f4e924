-- ===== src/Runtime/Grammar.antt =====
-- The order of the events of src/humanflow/runtime/acoustic_barge_in.py, for frames of speech and for
-- every frame.
use humanflow.Runtime.Cycles.{taken_false, silence-Cycles, Cycles, IsConsistent, has_onset}
use humanflow.Shared.Float.{leb_float, Float}
use humanflow.Shared.{
  ◌≡◌, refl, sym, ap, ◌∙◌, ◌⊎◌, inl, inr, Bool, true, false, not, ◌&&◌, List, [], ◌∷◌, ◌++◌, arith,
  Bool-cases, Option-cases, nat_instance, string_instance, int_instance,
}
use mathlib.Core.Path.{subst}
use humanflow.Runtime.BargeIn.{
  observe_silence, is_speech, observe, event_of, AcousticEvent, Detector, Reading, Thresholds,
  extend_candidate, detect_onset, detect_takeover, observe_speech, speech_onset, sustained_takeover,
}

inactive : (a b : Bool) → (not a && b) ≡ true → a ≡ false
inactive a b h = ground arith

open_cycle : (a b c : Bool) → (a && not b && c) ≡ true → (a ≡ true) × (b ≡ false)
open_cycle a b c h = ground arith

module _ (round : Float → Float) where
  extended :
      (r : Reading) (d : Detector)
      → (has_onset (extend_candidate round r d).candidate_onset_ns ≡ true)
        × ((extend_candidate round r d).speech_active ≡ d.speech_active)
        × ((extend_candidate round r d).takeover_emitted ≡ d.takeover_emitted)
  unfolding extend_candidate
  extended r d = elim (Option-cases d.candidate_onset_ns) [
    | inl fresh ↦ rw (fresh, extend_candidate) (refl, refl, refl)
    | inr (onset, old) ↦ rw (old, extend_candidate) (rw old refl, refl, refl)
  ]

  onset_cases :
      (t : Thresholds) (r : Reading) (u : Detector)
      → ((u.speech_active ≡ false)
          × (detect_onset round t r u
              ≡ (record u { speech_active = true }, event_of speech_onset r u ∷ [])))
        ⊎ (detect_onset round t r u ≡ (u, []))
  unfolding detect_onset
  onset_cases t r u =
      elim (Bool-cases
        (not u.speech_active && leb_float t.onset_debounce_ms u.candidate_duration_ms)) [
          | inl due ↦ inl (
            inactive u.speech_active (leb_float t.onset_debounce_ms u.candidate_duration_ms) due,
            rw (due, detect_onset) refl,
          )
          | inr early ↦ inr (rw (early, detect_onset) refl)
        ]

  takeover_cases :
      (t : Thresholds) (r : Reading) (u : Detector)
      → ((u.speech_active ≡ true)
          × (u.takeover_emitted ≡ false)
          × (detect_takeover round t r u
              ≡ (record u { takeover_emitted = true }, event_of sustained_takeover r u ∷ [])))
        ⊎ (detect_takeover round t r u ≡ (u, []))
  unfolding detect_takeover
  takeover_cases t r u =
      elim (Bool-cases (
        u.speech_active
        && not u.takeover_emitted
        && leb_float t.sustained_takeover_ms u.candidate_duration_ms)) [
          | inl due ↦
              let (active, fresh) =
                open_cycle u.speech_active u.takeover_emitted
                  (leb_float t.sustained_takeover_ms u.candidate_duration_ms) due in
              inl (active, fresh, rw (due, detect_takeover) refl)
          | inr early ↦ inr (rw (early, detect_takeover) refl)
        ]

  observed_speech :
      (t : Thresholds) (r : Reading) (d v w : Detector) (es fs : List AcousticEvent)
      → detect_onset round t r (extend_candidate round r d) ≡ (v, es)
      → detect_takeover round t r v ≡ (w, fs)
      → observe_speech round t r d ≡ (w, es ++ fs)
  unfolding observe_speech
  observed_speech t r d v w es fs a b =
      ap (λ o. ((detect_takeover round t r o.0).0, o.1 ++ (detect_takeover round t r o.0).1)) a
      ∙ ap (λ q. (q.0, es ++ q.1)) b

  -- The outcomes of a frame of speech, from the extended candidate.
  extended-Cycles :
      (t : Thresholds) (r : Reading) (d u : Detector)
      → IsConsistent d
      → extend_candidate round r d ≡ u
      → has_onset u.candidate_onset_ns ≡ true
      → u.speech_active ≡ d.speech_active
      → u.takeover_emitted ≡ d.takeover_emitted
      → Cycles d (observe_speech round t r d)
  extended-Cycles t r d u h e o a k = elim (onset_cases t r u) [
    | inl (idle, first) ↦
        let v : Detector = record u { speech_active = true } in
        let fresh = taken_false d h (sym a ∙ idle) in
        elim (takeover_cases t r v) [
          | inl (active, open_takeover, second) ↦
              subst (Cycles d)
                (sym (
                  observed_speech t r d v (record v { takeover_emitted = true })
                    (event_of speech_onset r u ∷ []) (event_of sustained_takeover r v ∷ [])
                    (ap (detect_onset round t r) e ∙ first) second))
                (record {
                  accepted = rw (sym a ∙ idle) refl;
                  timed = (o, (o, tt));
                  consistent = record { taken_active = λ x. refl; active_onset = λ x. o };
                })
          | inr second ↦
              subst (Cycles d)
                (sym (
                  observed_speech t r d v v (event_of speech_onset r u ∷ []) []
                    (ap (detect_onset round t r) e ∙ first) second))
                (record {
                  accepted = rw (sym a ∙ idle, k, fresh) refl;
                  timed = (o, tt);
                  consistent = record { taken_active = λ x. refl; active_onset = λ x. o };
                })
        ]
    | inr first ↦ elim (takeover_cases t r u) [
      | inl (active, open_takeover, second) ↦
          subst (Cycles d)
            (sym (
              observed_speech t r d u (record u { takeover_emitted = true }) []
                (event_of sustained_takeover r u ∷ []) (ap (detect_onset round t r) e ∙ first)
                second))
            (record {
              accepted = rw (sym a ∙ active, sym k ∙ open_takeover, active) refl;
              timed = (o, tt);
              consistent = record { taken_active = λ x. active; active_onset = λ x. o };
            })
      | inr second ↦
          subst (Cycles d)
            (sym (observed_speech t r d u u [] [] (ap (detect_onset round t r) e ∙ first) second))
            (record {
              accepted = rw (a, k) refl;
              timed = tt;
              consistent = record {
                taken_active = λ x. a ∙ h.taken_active (sym k ∙ x);
                active_onset = λ x. o;
              };
            })
    ]
  ]

  observe_speaking :
      (t : Thresholds) (r : Reading) (d : Detector)
      → is_speech round t r d ≡ true
      → observe round t true r d ≡ observe_speech round t r d
  unfolding observe
  observe_speaking t r d e = rw (e, observe) refl

  observe_quiet :
      (t : Thresholds) (r : Reading) (d : Detector)
      → is_speech round t r d ≡ false
      → observe round t true r d ≡ observe_silence round t r d
  unfolding observe
  observe_quiet t r d e = rw (e, observe) refl

  -- While the agent is heard, the events of a frame continue the cycle of onset, at most one takeover
  -- and end from the state before to the state after, and each has an onset, so `_event` never raises.
  -- The detector is consistent before, as a new one is, and after.
  pub observe-Cycles :
      (t : Thresholds) (r : Reading) (d : Detector)
      → IsConsistent d
      → Cycles d (observe round t true r d)
  unfolding observe
  observe-Cycles t r d h = elim (Bool-cases (is_speech round t r d)) [
    | inl speech ↦ subst (Cycles d) (sym (observe_speaking t r d speech)) (
        let (o, a, k) = extended r d in
        extended-Cycles t r d (extend_candidate round r d) h refl o a k)
    | inr silence ↦
        subst (Cycles d) (sym (observe_quiet t r d silence)) (silence-Cycles round t r d h)
  ]
