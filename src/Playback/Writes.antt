-- ===== src/Playback/Writes.antt =====
-- The writes of one field of a pending playback of src/humanflow/web/transport.py, on its bounds.
use humanflow.Shared.Result.{Result, ok, err}
use humanflow.Shared.Action.{Action, ◌>>◌, modify, pure}
use humanflow.Audio.Models.{samples_per_channel}
use humanflow.Shared.Float.{Float}
use humanflow.Shared.{
  ℕ, zero, suc, refl, inl, inr, Bool, true, false, Option, some, List, [], ◌∷◌, arith, nat_instance,
  string_instance, ℤ, pos, int_instance, All,
}
use humanflow.Playback.Pending.{next_node, next_underruns, Pending, Message, clamped}
use humanflow.Playback.Answers.{
  IsAnswered, measurements_of, NonNegative, clamped_within, next_underruns_good,
}

-- The write keeps the bounds when what it writes is not negative.
abbrev pub Writes : (Option Float → Pending → Pending) → Type 0
Writes write =
    (x : Option Float) (p : Pending) → NonNegative x → IsAnswered p → IsAnswered (write x p)

-- The action leaves the bounds as they are, whether it returns or raises.
pub record Keeps {A : Type 0} (act : Action Pending A) : Type 0 where
  pub after : (p : Pending) → IsAnswered p → IsAnswered (act p).1

pub then_Keeps :
    {A B : Type 0} (m : Action Pending A) (k : Action Pending B)
    → Keeps m
    → Keeps k
    → Keeps (m >> k)
then_Keeps {A} {B} m k hm hk = record { after = λ p h. go (m p) (hm.after p h) }
  where
    go :
        (r : Result A × Pending)
        → IsAnswered r.1
        → IsAnswered
            (elim r.0 as (λ _. Result B × Pending) [ ok a ↦ k r.1 | err e ↦ (err e, r.1) ]).1
    go (ok a, q) h = hk.after q h
    go (err e, q) h = h

-- The list with another value at the position, if it is there.
abbrev put_at {ℓ} : {A : Type ℓ} → ℕ → A → List A → List A
put_at n v [] = []
put_at zero v (x ∷ xs) = v ∷ xs
put_at (suc n) v (x ∷ xs) = x ∷ put_at n v xs

All-put_at :
    (n : ℕ) (v : Option Float) (xs : List (Option Float))
    → NonNegative v
    → All NonNegative xs
    → All NonNegative (put_at n v xs)
All-put_at n v [] h hs = tt
All-put_at zero v (x ∷ xs) h hs = (h, hs.1)
All-put_at (suc n) v (x ∷ xs) h hs = (hs.0, All-put_at n v xs h hs.1)

pub sink_base_latency_ms_kept : Writes (λ x p. record p { sink_base_latency_ms = x })
sink_base_latency_ms_kept x p n h = record {
  within = h.within;
  measures = All-put_at 0 x (measurements_of p) n h.measures;
  underruns = h.underruns;
}

pub sink_output_latency_ms_kept : Writes (λ x p. record p { sink_output_latency_ms = x })
sink_output_latency_ms_kept x p n h = record {
  within = h.within;
  measures = All-put_at 1 x (measurements_of p) n h.measures;
  underruns = h.underruns;
}

pub player_stop_callback_latency_ms_kept :
    Writes (λ x p. record p { player_stop_callback_latency_ms = x })
player_stop_callback_latency_ms_kept x p n h = record {
  within = h.within;
  measures = All-put_at 2 x (measurements_of p) n h.measures;
  underruns = h.underruns;
}

pub browser_scheduled_start_ms_kept : Writes (λ x p. record p { browser_scheduled_start_ms = x })
browser_scheduled_start_ms_kept x p n h = record {
  within = h.within;
  measures = All-put_at 3 x (measurements_of p) n h.measures;
  underruns = h.underruns;
}

pub browser_actual_playback_start_ms_kept :
    Writes (λ x p. record p { browser_actual_playback_start_ms = x })
browser_actual_playback_start_ms_kept x p n h = record {
  within = h.within;
  measures = All-put_at 4 x (measurements_of p) n h.measures;
  underruns = h.underruns;
}

pub browser_actual_playback_end_ms_kept :
    Writes (λ x p. record p { browser_actual_playback_end_ms = x })
browser_actual_playback_end_ms_kept x p n h = record {
  within = h.within;
  measures = All-put_at 5 x (measurements_of p) n h.measures;
  underruns = h.underruns;
}

pub previous_segment_end_ms_kept : Writes (λ x p. record p { previous_segment_end_ms = x })
previous_segment_end_ms_kept x p n h = record {
  within = h.within;
  measures = All-put_at 6 x (measurements_of p) n h.measures;
  underruns = h.underruns;
}

pub inter_segment_gap_ms_kept : Writes (λ x p. record p { inter_segment_gap_ms = x })
inter_segment_gap_ms_kept x p n h = record {
  within = h.within;
  measures = All-put_at 7 x (measurements_of p) n h.measures;
  underruns = h.underruns;
}

pub intentional_linguistic_pause_ms_kept :
    Writes (λ x p. record p { intentional_linguistic_pause_ms = x })
intentional_linguistic_pause_ms_kept x p n h = record {
  within = h.within;
  measures = All-put_at 8 x (measurements_of p) n h.measures;
  underruns = h.underruns;
}

pub scheduler_generated_gap_ms_kept : Writes (λ x p. record p { scheduler_generated_gap_ms = x })
scheduler_generated_gap_ms_kept x p n h = record {
  within = h.within;
  measures = All-put_at 9 x (measurements_of p) n h.measures;
  underruns = h.underruns;
}

pub queue_depth_ms_kept : Writes (λ x p. record p { queue_depth_ms = x })
queue_depth_ms_kept x p n h = record {
  within = h.within;
  measures = All-put_at 10 x (measurements_of p) n h.measures;
  underruns = h.underruns;
}

pub pure_kept : (b : Bool) → Keeps (pure b)
pure_kept b = record { after = λ p h. h }

pub underruns_kept :
    (m : Message)
    → Keeps (modify (λ p. record p { underrun_count = next_underruns m p.underrun_count }))
underruns_kept m = record {
  after = λ p h. record {
    within = h.within;
    measures = h.measures;
    underruns = next_underruns_good m p.underrun_count h.underruns;
  };
}

pub node_kept :
    (m : Message) → Keeps (modify (λ p. record p { source_node_id = next_node m p.source_node_id }))
node_kept m = record {
  after = λ p h. record { within = h.within; measures = h.measures; underruns = h.underruns };
}

pub begin_kept : (now_ns : ℤ) → Keeps (modify (λ p. record p { started = some now_ns }))
begin_kept now_ns = record {
  after = λ p h. record { within = h.within; measures = h.measures; underruns = h.underruns };
}

pub completed_kept :
    (now_ns : ℤ)
    → Keeps (
        modify (λ p. record p {
          stopped = some (now_ns, pos (samples_per_channel p.chunk.frame), false);
        }))
completed_kept now_ns = record {
  after = λ p h. record {
    within = (ground arith, ground arith, inr refl);
    measures = h.measures;
    underruns = h.underruns;
  };
}

pub stopped_kept :
    (now_ns raw : ℤ)
    → Keeps (
        modify (λ p. record p {
          stopped = some (now_ns, clamped (samples_per_channel p.chunk.frame) raw, true);
        }))
stopped_kept now_ns raw = record {
  after = λ p h.
      let (low, high) = clamped_within (samples_per_channel p.chunk.frame) raw in
      record { within = (low, high, inl refl); measures = h.measures; underruns = h.underruns };
}
