-- ===== src/Turns/Signals.antt =====
-- src/humanflow/turns/models.py: the inputs and outputs of turn detection.
use humanflow.Shared.{
  String, Bool, true, false, not, ◌&&◌, ◌||◌, List, [], ◌∷◌, if◌then◌else◌, nat_instance,
  string_instance, ℤ, pos, ltb_ℤ, int_instance,
}
use humanflow.Shared.Float.{Float, dyadic, leb_float}
use humanflow.Shared.Text.{strip}
use humanflow.Shared.Result.{Result, Error, value_error, checked}

pub data TurnDecisionType : Type 0 where
  continue_listening likely_complete complete interruption backchannel uncertain : TurnDecisionType

pub record TurnSignals : Type 0 where
  pub speech_active : Bool
  pub silence_duration_ms : ℤ
  pub utterance_duration_ms : ℤ
  pub partial_transcript : String
  pub final_transcript : String
  pub semantic_complete : Bool
  pub filler_ending : Bool
  pub acoustic_completion : Float
  pub background_speech_probability : Float
  pub interruption_probability : Float
  pub agent_speaking : Bool
  pub provider_endpointed : Bool

-- `0.0 <= value <= 1.0`
abbrev pub in_unit : Float → Bool
in_unit x = leb_float (dyadic 0 0) x && leb_float x (dyadic 1 0)

abbrev pub signals_checks : TurnSignals → List (Bool × Error)
signals_checks s =
    (
      ltb_ℤ s.silence_duration_ms (pos 0) || ltb_ℤ s.utterance_duration_ms (pos 0),
      value_error "durations must be non-negative",
    )
    ∷ (
      not (in_unit s.acoustic_completion),
      value_error "acoustic_completion must be between 0 and 1",
    )
    ∷ (
      not (in_unit s.background_speech_probability),
      value_error "background_speech_probability must be between 0 and 1",
    )
    ∷ (
      not (in_unit s.interruption_probability),
      value_error "interruption_probability must be between 0 and 1",
    )
    ∷ []

unfoldable pub make_signals : TurnSignals → Result TurnSignals
make_signals s = checked (signals_checks s) s

abbrev is_empty_text : String → Bool
is_empty_text String.[] = true
is_empty_text (String.◌∷◌ c s) = false

-- `(self.final_transcript or self.partial_transcript).strip()`
unfoldable pub transcript : TurnSignals → String
transcript s =
    strip (if is_empty_text s.final_transcript then s.partial_transcript else s.final_transcript)

pub record TurnDecision : Type 0 where
  pub decision : TurnDecisionType
  pub confidence : Float
  pub reason_codes : List String
  pub signals_used : List String

abbrev pub is_none : List String → Bool
is_none [] = true
is_none (x ∷ xs) = false

abbrev pub decision_checks : TurnDecision → List (Bool × Error)
decision_checks d =
    (not (in_unit d.confidence), value_error "confidence must be between 0 and 1")
    ∷ (is_none d.reason_codes, value_error "reason_codes must not be empty")
    ∷ (is_none d.signals_used, value_error "signals_used must not be empty")
    ∷ []

unfoldable pub make_decision : TurnDecision → Result TurnDecision
make_decision d = checked (decision_checks d) d
