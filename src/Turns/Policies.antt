-- ===== src/Turns/Policies.antt =====
-- src/humanflow/turns/policies.py: the fixed-silence baseline and the hybrid policy. Parameters are
-- the Unicode table of case folding and the rounding of an exact result to the nearest double.
use humanflow.Shared.{
  ℕ, String, Bool, not, ◌&&◌, ◌||◌, Option, none, some, List, [], ◌∷◌, ◌++◌, if◌then◌else◌, ◌==◌,
  nat_instance, string_instance, contains, ℤ, pos, ltb_ℤ, leb_ℤ, int_instance, any,
}
use humanflow.Shared.Float.{Float, dyadic, leb_float, min_float, max_float, exact_add, exact_mul}
use humanflow.Shared.Text.{codes, codes_instance, starts_with}
use humanflow.Shared.Result.{Result}
use humanflow.Turns.Signals.{
  TurnSignals, TurnDecision, TurnDecisionType, continue_listening, likely_complete, complete,
  interruption, backchannel, uncertain, make_decision, transcript,
}
use humanflow.Turns.Normalize.{normalized, is_nil}

unfoldable pub backchannels : List (List ℕ)
backchannels =
    codes "aha"
    ∷ codes "genau"
    ∷ codes "ja"
    ∷ codes "ja genau"
    ∷ codes "mhm"
    ∷ codes "okay"
    ∷ codes "stimmt"
    ∷ codes "verstehe"
    ∷ []

unfoldable pub interruption_phrases : List (List ℕ)
interruption_phrases =
    codes "halt"
    ∷ codes "moment"
    ∷ codes "nein stopp"
    ∷ codes "stopp"
    ∷ codes "warte"
    ∷ codes "warte mal"
    ∷ []

abbrev pub ruling : TurnDecisionType → Float → List String → List String → TurnDecision
ruling kind confidence reasons signals = record {
  decision = kind;
  confidence = confidence;
  reason_codes = reasons;
  signals_used = signals;
}

-- `FixedSilencePolicy.decide`, before the checks of the decision.
unfoldable pub fixed_decision : ℤ → TurnSignals → TurnDecision
fixed_decision threshold_ms s =
    if s.speech_active || ltb_ℤ s.silence_duration_ms threshold_ms
    then ruling continue_listening (dyadic 3152519739159347 52)
        ("fixed_silence_below_threshold" ∷ []) ("speech_active" ∷ "silence_duration_ms" ∷ [])
    else ruling complete (dyadic 3152519739159347 52) ("fixed_silence_threshold_reached" ∷ [])
        ("speech_active" ∷ "silence_duration_ms" ∷ [])

unfoldable pub fixed_decide : ℤ → TurnSignals → Result TurnDecision
unfolding fixed_decision make_decision
fixed_decide threshold_ms s = make_decision (fixed_decision threshold_ms s)

pub record HybridTurnPolicy : Type 0 where
  pub minimum_silence_ms : ℤ
  pub likely_complete_ms : ℤ
  pub forced_complete_ms : ℤ
  pub interruption_threshold : Float

-- The policy's default thresholds.
abbrev pub default_policy : HybridTurnPolicy
default_policy = record {
  minimum_silence_ms = pos 280;
  likely_complete_ms = pos 650;
  forced_complete_ms = pos 1400;
  interruption_threshold = dyadic 3242591731706757 52;
}

-- `text == phrase or text.startswith(phrase + " ")` for some phrase
unfoldable pub phrase_match : List ℕ → Bool
unfolding interruption_phrases
phrase_match text =
    any (λ phrase. text == phrase || starts_with text (phrase ++ (32 ∷ []))) interruption_phrases

-- `_is_intentional_interruption`
unfoldable pub is_intentional_interruption : HybridTurnPolicy → List ℕ → Float → Bool
unfolding phrase_match
is_intentional_interruption p text probability =
    phrase_match text && leb_float p.interruption_threshold probability

-- The rules of `decide` while the agent speaks.
unfoldable pub decide_speaking : HybridTurnPolicy → List ℕ → TurnSignals → Option TurnDecision
unfolding is_intentional_interruption backchannels
decide_speaking p text s =
    if is_intentional_interruption p text s.interruption_probability
    then some (
        ruling interruption (max_float (dyadic 7656119366529843 53) s.interruption_probability)
          ("explicit_german_interruption" ∷ "interruption_probability_high" ∷ [])
          ("transcript" ∷ "interruption_probability" ∷ "agent_speaking" ∷ []))
    else if contains text backchannels && leb_ℤ s.utterance_duration_ms (pos 1200)
    then some (
        ruling backchannel (dyadic 8376695306909123 53) ("short_german_acknowledgement" ∷ [])
          ("transcript" ∷ "utterance_duration_ms" ∷ "agent_speaking" ∷ []))
    else if leb_float (dyadic 3 2) s.background_speech_probability
    then some (
        ruling uncertain (dyadic 3512807709348987 52) ("probable_background_speech" ∷ [])
          ("background_speech_probability" ∷ "agent_speaking" ∷ []))
    else none

module _ (round : Float → Float) where
  -- `0.78 + signals.acoustic_completion * 0.2`
  abbrev pub acoustic_confidence : Float → Float
  acoustic_confidence x =
      round
        (exact_add (dyadic 3512807709348987 52) (round (exact_mul x (dyadic 3602879701896397 54))))

  -- The rules of `decide` on completion, once no speech is active and no endpoint decides.
  unfoldable pub decide_silence : HybridTurnPolicy → List ℕ → TurnSignals → TurnDecision
  decide_silence p text s =
      if s.filler_ending && ltb_ℤ s.silence_duration_ms p.forced_complete_ms
      then ruling continue_listening (dyadic 7926335344172073 53)
          ("filler_or_unfinished_ending" ∷ [])
          ("filler_ending" ∷ "silence_duration_ms" ∷ "transcript" ∷ [])
      else if ltb_ℤ s.silence_duration_ms p.minimum_silence_ms
      then ruling continue_listening (dyadic 8106479329266893 53) ("silence_too_short" ∷ [])
          ("silence_duration_ms" ∷ [])
      else if s.semantic_complete
          && leb_float (dyadic 1 1) s.acoustic_completion
          && leb_ℤ p.minimum_silence_ms s.silence_duration_ms
      then ruling complete
          (min_float (dyadic 4458563631096791 52) (acoustic_confidence s.acoustic_completion))
          ("semantic_and_acoustic_completion" ∷ [])
          ("semantic_complete" ∷ "acoustic_completion" ∷ "silence_duration_ms" ∷ [])
      else if s.semantic_complete && leb_ℤ p.likely_complete_ms s.silence_duration_ms
      then ruling likely_complete (dyadic 3422735716801577 52)
          ("semantic_completion_with_silence" ∷ [])
          ("semantic_complete" ∷ "silence_duration_ms" ∷ [])
      else if leb_ℤ p.forced_complete_ms s.silence_duration_ms && not (is_nil text)
      then ruling likely_complete (dyadic 6124895493223875 53)
          ("long_silence_after_nonempty_transcript" ∷ [])
          ("silence_duration_ms" ∷ "transcript" ∷ [])
      else ruling uncertain (dyadic 2476979795053773 52) ("insufficient_completion_evidence" ∷ [])
          ("silence_duration_ms" ∷ "semantic_complete" ∷ "acoustic_completion" ∷ [])

  -- The rules of `decide` after those for a speaking agent.
  unfoldable pub decide_listening : HybridTurnPolicy → List ℕ → TurnSignals → TurnDecision
  unfolding decide_silence
  decide_listening p text s =
      if s.speech_active
      then ruling continue_listening (dyadic 2206763817411543 51) ("speech_still_active" ∷ [])
          ("speech_active" ∷ [])
      else if s.provider_endpointed && s.semantic_complete && not s.agent_speaking
      then ruling complete (dyadic 4458563631096791 52) ("stt_provider_final_endpoint" ∷ [])
          ("provider_endpointed" ∷ "semantic_complete" ∷ [])
      else decide_silence p text s

  -- `HybridTurnPolicy.decide` on a normalised transcript, before the checks of the decision.
  unfoldable pub hybrid_decision : HybridTurnPolicy → List ℕ → TurnSignals → TurnDecision
  unfolding decide_speaking decide_listening
  hybrid_decision p text s =
      if s.agent_speaking
      then elim (decide_speaking p text s) [ some d ↦ d | none ↦ decide_listening p text s ]
      else decide_listening p text s

module _ (fold_wide : ℕ → List ℕ) (round : Float → Float) where
  -- `HybridTurnPolicy.decide`
  unfoldable pub decide : HybridTurnPolicy → TurnSignals → Result TurnDecision
  unfolding normalized transcript hybrid_decision make_decision
  decide p s =
      make_decision (hybrid_decision round p (normalized fold_wide (codes (transcript s))) s)
