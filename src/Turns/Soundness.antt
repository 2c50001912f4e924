-- ===== src/Turns/Soundness.antt =====
-- The decisions of src/humanflow/turns/policies.py: what each kind rests on.
use humanflow.Shared.Text.{codes_instance}
use humanflow.Turns.Normalize.{is_nil}
use humanflow.Shared.{
  and_parts, ℕ, ◌+◌, ◌≡◌, ◌⊎◌, inl, inr, true, false, not, ◌&&◌, none, some, List, arith, leb→le,
  Bool-cases, Option-cases, nat_instance, string_instance, contains, pos, pos_part, neg_part, ◌≤ℤ◌,
  ◌<ℤ◌, leb_ℤ, int_instance,
}
use humanflow.Shared.Float.{leb_float, Float, dyadic}
use humanflow.Turns.Signals.{TurnSignals, TurnDecision, TurnDecisionType}
use humanflow.Turns.Policies.{
  hybrid_decision, backchannels, is_intentional_interruption, decide_speaking, phrase_match,
  decide_listening, decide_silence, HybridTurnPolicy,
}

-- The evidence for each kind of decision of the hybrid policy, on a normalised transcript.
abbrev pub Justified : HybridTurnPolicy → List ℕ → TurnSignals → TurnDecisionType → Type 0
Justified p text s TurnDecisionType.interruption =
    (s.agent_speaking ≡ true)
    × (phrase_match text ≡ true)
    × (leb_float p.interruption_threshold s.interruption_probability ≡ true)
Justified p text s TurnDecisionType.backchannel =
    (s.agent_speaking ≡ true)
    × (contains text backchannels ≡ true)
    × (s.utterance_duration_ms ≤ℤ pos 1200)
Justified p text s TurnDecisionType.complete =
    (s.speech_active ≡ false)
    × (s.semantic_complete ≡ true)
    × (((s.provider_endpointed ≡ true) × (s.agent_speaking ≡ false))
        ⊎ ((p.minimum_silence_ms ≤ℤ s.silence_duration_ms)
            × (leb_float (dyadic 1 1) s.acoustic_completion ≡ true)))
Justified p text s TurnDecisionType.likely_complete =
    (s.speech_active ≡ false)
    × (p.minimum_silence_ms ≤ℤ s.silence_duration_ms)
    × (((s.semantic_complete ≡ true) × (p.likely_complete_ms ≤ℤ s.silence_duration_ms))
        ⊎ ((p.forced_complete_ms ≤ℤ s.silence_duration_ms) × (is_nil text ≡ false)))
Justified p text s TurnDecisionType.continue_listening =
    (s.speech_active ≡ true)
    ⊎ ((s.silence_duration_ms <ℤ p.minimum_silence_ms)
        ⊎ ((s.filler_ending ≡ true) × (s.silence_duration_ms <ℤ p.forced_complete_ms)))
Justified p text s TurnDecisionType.uncertain =
    ((s.agent_speaking ≡ true) × (leb_float (dyadic 3 2) s.background_speech_probability ≡ true))
    ⊎ ((s.speech_active ≡ false)
        × (p.minimum_silence_ms ≤ℤ s.silence_duration_ms)
        × ((s.semantic_complete ≡ false) ⊎ (s.silence_duration_ms <ℤ p.likely_complete_ms)))

silence-Justified :
    (round : Float → Float) (p : HybridTurnPolicy) (text : List ℕ) (s : TurnSignals)
    → s.speech_active ≡ false
    → Justified p text s (decide_silence round p text s).decision
unfolding decide_silence
silence-Justified round p text s quiet = ground arith

decide_listening_active :
    (round : Float → Float) (p : HybridTurnPolicy) (text : List ℕ) (s : TurnSignals)
    → s.speech_active ≡ true
    → (decide_listening round p text s).decision ≡ TurnDecisionType.continue_listening
unfolding decide_listening
decide_listening_active round p text s h = ground arith

decide_listening_endpoint :
    (round : Float → Float) (p : HybridTurnPolicy) (text : List ℕ) (s : TurnSignals)
    → s.speech_active ≡ false
    → (s.provider_endpointed && s.semantic_complete && not s.agent_speaking) ≡ true
    → (decide_listening round p text s).decision ≡ TurnDecisionType.complete
unfolding decide_listening
decide_listening_endpoint round p text s h e = ground arith

decide_listening_quiet :
    (round : Float → Float) (p : HybridTurnPolicy) (text : List ℕ) (s : TurnSignals)
    → s.speech_active ≡ false
    → (s.provider_endpointed && s.semantic_complete && not s.agent_speaking) ≡ false
    → decide_listening round p text s ≡ decide_silence round p text s
unfolding decide_listening
decide_listening_quiet round p text s h e = ground arith

endpoint_parts :
    (s : TurnSignals)
    → (s.provider_endpointed && s.semantic_complete && not s.agent_speaking) ≡ true
    → (s.provider_endpointed ≡ true) × (s.semantic_complete ≡ true) × (s.agent_speaking ≡ false)
endpoint_parts s e = ground arith

listening-Justified :
    (round : Float → Float) (p : HybridTurnPolicy) (text : List ℕ) (s : TurnSignals)
    → Justified p text s (decide_listening round p text s).decision
listening-Justified round p text s = elim (Bool-cases s.speech_active) [
  | inl active ↦ rw (decide_listening_active round p text s active) (inl active)
  | inr quiet ↦
      elim (Bool-cases (s.provider_endpointed && s.semantic_complete && not s.agent_speaking)) [
        | inl endpoint ↦
            let (given, meant, silent) = endpoint_parts s endpoint in
            rw (decide_listening_endpoint round p text s quiet endpoint)
              (quiet, meant, inl (given, silent))
        | inr later ↦
            rw (decide_listening_quiet round p text s quiet later)
              (silence-Justified round p text s quiet)
      ]
]

intentional_parts :
    (p : HybridTurnPolicy) (text : List ℕ) (x : Float)
    → is_intentional_interruption p text x ≡ true
    → (phrase_match text ≡ true) × (leb_float p.interruption_threshold x ≡ true)
unfolding is_intentional_interruption
intentional_parts p text x h =
    and_parts (phrase_match text) (leb_float p.interruption_threshold x) h

-- The three rules for a speaking agent, each with the test that let it fire.
speaking_kinds :
    (p : HybridTurnPolicy) (text : List ℕ) (s : TurnSignals) (d : TurnDecision)
    → decide_speaking p text s ≡ some d
    → ((is_intentional_interruption p text s.interruption_probability ≡ true)
        × (d.decision ≡ TurnDecisionType.interruption))
      ⊎ (((contains text backchannels ≡ true)
            × (leb_ℤ s.utterance_duration_ms (pos 1200) ≡ true)
            × (d.decision ≡ TurnDecisionType.backchannel))
          ⊎ ((leb_float (dyadic 3 2) s.background_speech_probability ≡ true)
              × (d.decision ≡ TurnDecisionType.uncertain)))
unfolding decide_speaking
speaking_kinds p text s d h =
    elim (Bool-cases (is_intentional_interruption p text s.interruption_probability)) [
      | inl meant ↦ inl (meant, ground arith)
      | inr other ↦
          elim (Bool-cases
            (contains text backchannels && leb_ℤ s.utterance_duration_ms (pos 1200))) [
              | inl short ↦ inr (
                  let (known, brief) =
                    and_parts (contains text backchannels)
                      (leb_ℤ s.utterance_duration_ms (pos 1200)) short in
                  inl (known, brief, ground arith))
              | inr long ↦
                  elim (Bool-cases (leb_float (dyadic 3 2) s.background_speech_probability)) [
                    | inl behind ↦ inr (inr (behind, ground arith))
                    | inr none_left ↦ absurd (ground arith)
                  ]
            ]
    ]

speaking-Justified :
    (p : HybridTurnPolicy) (text : List ℕ) (s : TurnSignals) (d : TurnDecision)
    → s.agent_speaking ≡ true
    → decide_speaking p text s ≡ some d
    → Justified p text s d.decision
speaking-Justified p text s d a h = elim (speaking_kinds p text s d h) [
  | inl (meant, kind) ↦
      let (said, likely) = (intentional_parts p text s.interruption_probability meant) in
      rw kind (a, said, likely)
  | inr (inl (known, short, kind)) ↦ rw kind (
    a,
    known,
    leb→le (pos_part s.utterance_duration_ms + 0) (1200 + neg_part s.utterance_duration_ms) short,
  )
  | inr (inr (behind, kind)) ↦ rw kind (inl (a, behind))
]

hybrid_decision_listening :
    (round : Float → Float) (p : HybridTurnPolicy) (text : List ℕ) (s : TurnSignals)
    → (s.agent_speaking ≡ false) ⊎ (decide_speaking p text s ≡ none)
    → hybrid_decision round p text s ≡ decide_listening round p text s
unfolding hybrid_decision
hybrid_decision_listening round p text s h = ground arith

hybrid_decision_speaking :
    (round : Float → Float) (p : HybridTurnPolicy) (text : List ℕ) (s : TurnSignals)
    (d : TurnDecision)
    → s.agent_speaking ≡ true
    → decide_speaking p text s ≡ some d
    → hybrid_decision round p text s ≡ d
unfolding hybrid_decision
hybrid_decision_speaking round p text s d a h = ground arith

-- Every decision of the hybrid policy rests on the evidence for its kind. An interruption needs a
-- speaking agent, an explicit phrase and the threshold probability; a backchannel needs a known short
-- acknowledgement; completion needs silence of the speaker and semantic completeness with an endpoint
-- or with the minimum silence and an acoustic completion of one half; likely completion needs the
-- minimum silence; listening on needs speech, a short silence or an unfinished ending.
pub hybrid_decision-Justified :
    (round : Float → Float) (p : HybridTurnPolicy) (text : List ℕ) (s : TurnSignals)
    → Justified p text s (hybrid_decision round p text s).decision
hybrid_decision-Justified round p text s = elim (Bool-cases s.agent_speaking) [
  | inr silent ↦
      rw (hybrid_decision_listening round p text s (inl silent))
        (listening-Justified round p text s)
  | inl speaking ↦ elim (Option-cases (decide_speaking p text s)) [
    | inl open_case ↦
        rw (hybrid_decision_listening round p text s (inr open_case))
          (listening-Justified round p text s)
    | inr (d, e) ↦
        rw (hybrid_decision_speaking round p text s d speaking e)
          (speaking-Justified p text s d speaking e)
  ]
]
