-- ===== src/Runtime/BargeIn.antt =====
-- `AcousticBargeInDetector` of src/humanflow/runtime/acoustic_barge_in.py. The levels and the times of a
-- frame are given as a `Reading`; the rounding of an exact result to the nearest double is a parameter.
use humanflow.Shared.{
  Bool, true, false, not, ◌&&◌, ◌||◌, Option, none, some, List, [], ◌∷◌, ◌++◌, if◌then◌else◌,
  nat_instance, string_instance, ℤ, int_instance,
}
use humanflow.Shared.Float.{
  Float, dyadic, leb_float, ltb_float, max_float, min_float, exact_add, exact_mul,
}
use humanflow.Shared.Result.{Result, Error, value_error, checked}

pub data AcousticEventType : Type 0 where
  speech_onset sustained_takeover speech_ended : AcousticEventType

-- What `observe` computes of a frame before its rules: `_pcm_levels`, the duration and the times.
pub record Reading : Type 0 where
  pub rms : Float
  pub peak : Float
  pub frame_ms : Float
  pub captured_ns : ℤ
  pub observed_ns : ℤ

-- The thresholds of the detector.
pub record Thresholds : Type 0 where
  pub onset_debounce_ms : Float
  pub sustained_takeover_ms : Float
  pub release_silence_ms : Float
  pub minimum_rms : Float
  pub minimum_peak : Float
  pub noise_multiplier : Float

abbrev pub threshold_checks : Thresholds → List (Bool × Error)
threshold_checks t =
    (
      not (
          leb_float (dyadic 20 0) t.onset_debounce_ms
          && ltb_float t.onset_debounce_ms t.sustained_takeover_ms),
      value_error "acoustic onset debounce must precede takeover",
    )
    ∷ (
      leb_float t.release_silence_ms (dyadic 0 0),
      value_error "acoustic release silence must be positive",
    )
    ∷ (
      leb_float t.minimum_rms (dyadic 0 0)
          || leb_float t.minimum_peak (dyadic 0 0)
          || leb_float t.noise_multiplier (dyadic 1 0),
      value_error "acoustic thresholds must be positive and selective",
    )
    ∷ []

unfoldable pub make_thresholds : Thresholds → Result Thresholds
make_thresholds t = checked (threshold_checks t) t

pub record Detector : Type 0 where
  pub noise_floor : Float
  pub candidate_onset_ns : Option ℤ
  pub candidate_duration_ms : Float
  pub silence_duration_ms : Float
  pub speech_active : Bool
  pub takeover_emitted : Bool

abbrev pub new_detector : Float → Detector
new_detector initial_noise_floor = record {
  noise_floor = initial_noise_floor;
  candidate_onset_ns = none;
  candidate_duration_ms = dyadic 0 0;
  silence_duration_ms = dyadic 0 0;
  speech_active = false;
  takeover_emitted = false;
}

-- An event without its rounded measurements; no onset is the RuntimeError of `_event`.
pub record AcousticEvent : Type 0 where
  pub event_type : AcousticEventType
  pub speech_onset_ns : Option ℤ
  pub observed_ns : ℤ

unfoldable pub reset_candidate : Detector → Detector
reset_candidate d = new_detector d.noise_floor

abbrev pub event_of : AcousticEventType → Reading → Detector → AcousticEvent
event_of kind r d = record {
  event_type = kind;
  speech_onset_ns = d.candidate_onset_ns;
  observed_ns = r.observed_ns;
}

module _ (round : Float → Float) where
  unfoldable pub update_noise_floor : Thresholds → Float → Detector → Detector
  update_noise_floor t rms d =
      let bounded = min_float rms t.minimum_rms in
      record d {
        noise_floor = round (
            exact_add (round (exact_mul d.noise_floor (dyadic 1080863910568919 50)))
              (round (exact_mul bounded (dyadic 5764607523034235 57))));
      }

  abbrev pub is_speech : Thresholds → Reading → Detector → Bool
  is_speech t r d =
      leb_float (max_float t.minimum_rms (round (exact_mul d.noise_floor t.noise_multiplier))) r.rms
      && leb_float t.minimum_peak r.peak

  -- The candidate after a frame of speech, before events.
  unfoldable pub extend_candidate : Reading → Detector → Detector
  extend_candidate r d = elim d.candidate_onset_ns [
    | none ↦ record d {
      silence_duration_ms = dyadic 0 0;
      candidate_onset_ns = some r.captured_ns;
      candidate_duration_ms = round (exact_add (dyadic 0 0) r.frame_ms);
    }
    | some onset ↦ record d {
      silence_duration_ms = dyadic 0 0;
      candidate_duration_ms = round (exact_add d.candidate_duration_ms r.frame_ms);
    }
  ]

  -- The onset of speech, where it is due.
  unfoldable pub detect_onset : Thresholds → Reading → Detector → Detector × List AcousticEvent
  detect_onset t r d =
      if not d.speech_active && leb_float t.onset_debounce_ms d.candidate_duration_ms
      then (record d { speech_active = true }, event_of speech_onset r d ∷ [])
      else (d, [])

  -- The takeover, where it is due.
  unfoldable pub detect_takeover : Thresholds → Reading → Detector → Detector × List AcousticEvent
  detect_takeover t r d =
      if d.speech_active
        && not d.takeover_emitted
        && leb_float t.sustained_takeover_ms d.candidate_duration_ms
      then (record d { takeover_emitted = true }, event_of sustained_takeover r d ∷ [])
      else (d, [])

  unfoldable pub observe_speech : Thresholds → Reading → Detector → Detector × List AcousticEvent
  unfolding extend_candidate detect_onset detect_takeover
  observe_speech t r d =
      let (active, onsets) = detect_onset t r (extend_candidate r d) in
      let (taken, takeovers) = detect_takeover t r active in (taken, onsets ++ takeovers)

  -- A frame without speech while the agent is heard.
  unfoldable pub observe_silence : Thresholds → Reading → Detector → Detector × List AcousticEvent
  unfolding reset_candidate update_noise_floor
  observe_silence t r d =
      let quiet = record d {
        silence_duration_ms = round (exact_add d.silence_duration_ms r.frame_ms);
      } in
      if d.speech_active
      then (if leb_float t.release_silence_ms quiet.silence_duration_ms
          then (
            update_noise_floor t r.rms (reset_candidate quiet),
            event_of speech_ended r quiet ∷ [],
          )
          else (quiet, []))
      else (update_noise_floor t r.rms (reset_candidate d), [])

  unfoldable pub observe : Thresholds → Bool → Reading → Detector → Detector × List AcousticEvent
  unfolding observe_speech observe_silence
  observe t playing r d =
      let speech = is_speech t r d in
      if not playing
      then (if speech
          then (reset_candidate d, [])
          else (update_noise_floor t r.rms (reset_candidate d), []))
      else if speech
      then observe_speech t r d
      else observe_silence t r d
