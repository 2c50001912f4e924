-- ===== src/Examples/Turns.antt =====
-- Concrete turn decisions.
use humanflow.Shared.Text.{codes}
use humanflow.Turns.Normalize.{normalized}
use humanflow.Turns.Soundness.{hybrid_decision-Justified, Justified}
use humanflow.Turns.Signals.{TurnDecisionType, TurnSignals}
use humanflow.Turns.Policies.{default_policy, hybrid_decision}
use humanflow.Shared.{
  ◌≡◌, refl, true, false, [], ◌∷◌, nat_instance, string_instance, pos, int_instance,
}
use humanflow.Shared.Float.{dyadic, leb_float}

abbrev speaking_halt : TurnSignals
speaking_halt = record {
  speech_active = true;
  silence_duration_ms = pos 0;
  utterance_duration_ms = pos 400;
  partial_transcript = "Halt!";
  final_transcript = "";
  semantic_complete = false;
  filler_ending = false;
  acoustic_completion = dyadic 1 2;
  background_speech_probability = dyadic 0 0;
  interruption_probability = dyadic 7 3;
  agent_speaking = true;
  provider_endpointed = false;
}

-- An interruption by the word alone.
halt_interrupts :
    (hybrid_decision
      (λ x. x)
      default_policy
      (normalized (λ c. c ∷ []) (codes "Halt!"))
      speaking_halt).decision
    ≡ TurnDecisionType.interruption
unfolding hybrid_decision normalized leb_float
halt_interrupts = refl

hybrid_decision-Justified_example :
    Justified default_policy
      (codes "halt")
      speaking_halt
      (hybrid_decision (λ x. x) default_policy (codes "halt") speaking_halt).decision
hybrid_decision-Justified_example =
    hybrid_decision-Justified (λ x. x) default_policy (codes "halt") speaking_halt
