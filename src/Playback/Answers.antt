-- ===== src/Playback/Answers.antt =====
-- What the acknowledgements of a browser may leave in a pending playback of
-- src/humanflow/web/transport.py: sample counts within the chunk and no negative measurement.
use humanflow.Audio.Models.{samples_per_channel, is_negative, AudioChunk}
use humanflow.Shared.Float.{Float}
use humanflow.Shared.{
  ℕ, ◌≡◌, refl, ◌⊎◌, inl, inr, Bool, true, false, Option, none, some, List, [], ◌∷◌, arith,
  Bool-cases, Option-cases, nat_instance, string_instance, ℤ, pos, leb_ℤ, int_instance, All,
}
use humanflow.Playback.Pending.{get_int, next_underruns, Pending, Message, new_pending, clamped}

-- The reported samples are within the chunk, and all of them where nothing was cancelled.
abbrev pub Within : ℕ → Option (ℤ × ℤ × Bool) → Type 0
Within total none = Unit
Within total (some (t, n, c)) =
    (leb_ℤ (pos 0) n ≡ true) × (leb_ℤ n (pos total) ≡ true) × ((c ≡ true) ⊎ (n ≡ pos total))

abbrev pub NonNegative : Option Float → Type 0
NonNegative o = is_negative o ≡ false

abbrev pub measurements_of : Pending → List (Option Float)
measurements_of p =
    p.sink_base_latency_ms ∷ p.sink_output_latency_ms ∷ p.player_stop_callback_latency_ms
    ∷ p.browser_scheduled_start_ms ∷ p.browser_actual_playback_start_ms
    ∷ p.browser_actual_playback_end_ms ∷ p.previous_segment_end_ms ∷ p.inter_segment_gap_ms
    ∷ p.intentional_linguistic_pause_ms ∷ p.scheduler_generated_gap_ms ∷ p.queue_depth_ms ∷ []

pub record IsAnswered (p : Pending) : Type 0 where
  pub within : Within (samples_per_channel p.chunk.frame) p.stopped
  pub measures : All NonNegative (measurements_of p)
  pub underruns : leb_ℤ (pos 0) p.underrun_count ≡ true

pub new_pending-IsAnswered : (c : AudioChunk) → IsAnswered (new_pending c)
unfolding new_pending
new_pending-IsAnswered c = record {
  within = tt;
  measures =
      (refl, (refl, (refl, (refl, (refl, (refl, (refl, (refl, (refl, (refl, (refl, tt)))))))))));
  underruns = refl;
}

pub clamped_within :
    (total : ℕ) (raw : ℤ)
    → (leb_ℤ (pos 0) (clamped total raw) ≡ true) × (leb_ℤ (clamped total raw) (pos total) ≡ true)
clamped_within total raw = (ground arith, ground arith)

pub next_underruns_good :
    (m : Message) (old : ℤ) → leb_ℤ (pos 0) old ≡ true → leb_ℤ (pos 0) (next_underruns m old) ≡ true
next_underruns_good m old h = elim (Option-cases (get_int "underrun_count" m)) [
  | inl missing ↦ rw (missing, next_underruns) h
  | inr (n, given) ↦ elim (Bool-cases (leb_ℤ (pos 0) n)) [
    | inl good ↦ rw (given, good, next_underruns) good
    | inr bad ↦ rw (given, bad, next_underruns) h
  ]
]
