-- ===== src/Examples/Runtime.antt =====
-- A concrete onset of speech while the agent is heard.
use humanflow.Runtime.Grammar.{observe-Cycles}
use humanflow.Runtime.BargeIn.{
  speech_onset, event_of, new_detector, Thresholds, Detector, observe, Reading,
}
use humanflow.Runtime.Cycles.{Cycles, IsConsistent}
use humanflow.Shared.{
  ◌≡◌, refl, true, some, [], ◌∷◌, nat_instance, string_instance, pos, int_instance,
}
use humanflow.Shared.Float.{exact_mul, exact_add, leb_float, dyadic}

abbrev thresholds : Thresholds
thresholds = record {
  onset_debounce_ms = dyadic 70 0;
  sustained_takeover_ms = dyadic 520 0;
  release_silence_ms = dyadic 180 0;
  minimum_rms = dyadic 1 6;
  minimum_peak = dyadic 1 5;
  noise_multiplier = dyadic 3 0;
}

abbrev loud : Reading
loud = record {
  rms = dyadic 1 1;
  peak = dyadic 1 0;
  frame_ms = dyadic 80 0;
  captured_ns = pos 10;
  observed_ns = pos 80000010;
}

abbrev waiting : Detector
waiting = new_detector (dyadic 1 8)

waiting-IsConsistent : IsConsistent waiting
waiting-IsConsistent = record { taken_active = λ x. x; active_onset = λ x. x }

loud_starts :
    (observe (λ x. x) thresholds true loud waiting).1
    ≡ event_of speech_onset loud (record waiting { candidate_onset_ns = some (pos 10) }) ∷ []
unfolding observe leb_float exact_add exact_mul
loud_starts = refl

observe-Cycles_example : Cycles waiting (observe (λ x. x) thresholds true loud waiting)
observe-Cycles_example = observe-Cycles (λ x. x) thresholds loud waiting waiting-IsConsistent
