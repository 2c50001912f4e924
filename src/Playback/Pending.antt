-- ===== src/Playback/Pending.antt =====
-- The pending playbacks of src/humanflow/web/transport.py, and the messages of the browser. A future
-- is an optional result. The parameter `float_of_int` is the built-in float() of an
-- integer, which raises OverflowError beyond the doubles.
use humanflow.Shared.{
  ℕ, zero, suc, String, Bool, true, false, not, ◌&&◌, Option, none, some, if◌then◌else◌, ◌==◌,
  nat_instance, string_instance, ℤ, pos, leb_ℤ, max_ℤ, min_ℤ, int_instance,
}
use humanflow.Shared.Action.{Action, ◌>>=◌, ◌>>◌, lift, modify, pure}
use humanflow.Shared.Result.{Result, ok, err}
use humanflow.Shared.Text.{is_blank}
use humanflow.Shared.Dict.{Dict, lookup}
use humanflow.Shared.Float.{Float, dyadic, leb_float}
use humanflow.Audio.Models.{AudioChunk, samples_per_channel}

-- A value of a message.
pub data Json : Type 0 where
  null : Json
  boolean : Bool → Json
  integer : ℤ → Json
  number : Float → Json
  text : String → Json
  compound : Json

abbrev pub Message : Type 0
Message = Dict Json

-- `_PendingPlayback`
pub record Pending : Type 0 where
  pub chunk : AudioChunk
  pub started : Option ℤ
  pub stopped : Option (ℤ × ℤ × Bool)
  pub sink_base_latency_ms : Option Float
  pub sink_output_latency_ms : Option Float
  pub player_stop_callback_latency_ms : Option Float
  pub source_node_id : Option String
  pub browser_scheduled_start_ms : Option Float
  pub browser_actual_playback_start_ms : Option Float
  pub browser_actual_playback_end_ms : Option Float
  pub previous_segment_end_ms : Option Float
  pub inter_segment_gap_ms : Option Float
  pub intentional_linguistic_pause_ms : Option Float
  pub scheduler_generated_gap_ms : Option Float
  pub queue_depth_ms : Option Float
  pub underrun_count : ℤ

unfoldable pub new_pending : AudioChunk → Pending
new_pending c = record {
  chunk = c;
  started = none;
  stopped = none;
  sink_base_latency_ms = none;
  sink_output_latency_ms = none;
  player_stop_callback_latency_ms = none;
  source_node_id = none;
  browser_scheduled_start_ms = none;
  browser_actual_playback_start_ms = none;
  browser_actual_playback_end_ms = none;
  previous_segment_end_ms = none;
  inter_segment_gap_ms = none;
  intentional_linguistic_pause_ms = none;
  scheduler_generated_gap_ms = none;
  queue_depth_ms = none;
  underrun_count = pos 0;
}

-- `isinstance(value, int)`: Python's Booleans are integers too.
abbrev pub int_of : Json → Option ℤ
int_of (boolean b) = some (if b then pos 1 else pos 0)
int_of (integer i) = some i
int_of _ = none

-- `message.get(key, 0)` for an integer
abbrev pub get_int : String → Message → Option ℤ
get_int key m = elim (lookup key m) [ none ↦ some (pos 0) | some v ↦ int_of v ]

abbrev pub text_of : Json → Option String
text_of (text s) = some s
text_of _ = none

-- `message.get(key)` for a text
abbrev pub get_text : String → Message → Option String
get_text key m = elim (lookup key m) [ none ↦ none | some v ↦ text_of v ]

-- `s[:n]`
abbrev pub take_text : ℕ → String → String
take_text zero s = String.[]
take_text (suc n) String.[] = String.[]
take_text (suc n) (String.◌∷◌ c s) = String.◌∷◌ c (take_text n s)

-- A future that is set once.
abbrev pub set_once {ℓ} : {A : Type ℓ} → A → Option A → Option A
set_once v none = some v
set_once v (some w) = some w

abbrev pub is_done {ℓ} : {A : Type ℓ} → Option A → Bool
is_done none = false
is_done (some v) = true

-- `max(0, min(total, raw))`
abbrev pub clamped : ℕ → ℤ → ℤ
clamped total raw = max_ℤ (pos 0) (min_ℤ (pos total) raw)

-- A new count of underruns, where the message gives a good one.
abbrev pub next_underruns : Message → ℤ → ℤ
next_underruns m old = elim (get_int "underrun_count" m) [
  | none ↦ old
  | some n ↦ if leb_ℤ (pos 0) n then n else old
]

abbrev pub next_node : Message → Option String → Option String
next_node m old = elim (get_text "source_node_id" m) [
  | none ↦ old
  | some s ↦ if is_blank s then old else some (take_text 256 s)
]

-- `converted if converted >= 0 else None`
abbrev pub only_nonnegative : Float → Option Float
only_nonnegative x = if leb_float (dyadic 0 0) x then some x else none

module _ (float_of_int : ℤ → Result Float) where
  -- `_nonnegative_float`
  unfoldable pub nonnegative_float : Json → Result (Option Float)
  nonnegative_float (integer i) = elim (float_of_int i) [
    | ok x ↦ ok (only_nonnegative x)
    | err e ↦ err e
  ]
  nonnegative_float (number x) = ok (only_nonnegative x)
  nonnegative_float _ = ok none

  -- `_nonnegative_float(message.get(key))`
  unfoldable pub measured : String → Message → Result (Option Float)
  unfolding nonnegative_float
  measured key m = elim (lookup key m) [ none ↦ ok none | some v ↦ nonnegative_float v ]

  -- The assignment of a measurement to a field.
  unfoldable pub assign :
      (Option Float → Pending → Pending) → String → Message → Action Pending (Unit {0})
  unfolding measured
  assign write key m = do x ← lift (measured key m); modify (write x)

  -- The branch of `playback_started`.
  unfoldable pub started_pending : ℤ → Message → Action Pending Bool
  unfolding assign
  started_pending now_ns m = do
    assign (λ x p. record p { sink_base_latency_ms = x }) "browser_audio_context_base_latency_ms" m
    assign (λ x p. record p { sink_output_latency_ms = x })
        "browser_audio_context_output_latency_ms" m
    assign (λ x p. record p { browser_scheduled_start_ms = x }) "browser_scheduled_start_ms" m
    assign (λ x p. record p { browser_actual_playback_start_ms = x })
        "browser_actual_playback_start_ms" m
    assign (λ x p. record p { previous_segment_end_ms = x }) "previous_segment_end_ms" m
    assign (λ x p. record p { inter_segment_gap_ms = x }) "inter_segment_gap_ms" m
    assign (λ x p. record p { intentional_linguistic_pause_ms = x })
        "intentional_linguistic_pause_ms" m
    assign (λ x p. record p { scheduler_generated_gap_ms = x }) "scheduler_generated_gap_ms" m
    assign (λ x p. record p { queue_depth_ms = x }) "queue_depth_ms" m
    modify (λ p. record p { underrun_count = next_underruns m p.underrun_count })
    modify (λ p. record p { source_node_id = next_node m p.source_node_id })
    modify (λ p. record p { started = some now_ns })
    pure true

  -- The branch of `playback_completed`, for a playback that is not yet stopped.
  unfoldable pub completed_pending : ℤ → Message → Action Pending Bool
  unfolding assign
  completed_pending now_ns m = do
    assign (λ x p. record p { browser_actual_playback_end_ms = x }) "browser_actual_playback_end_ms"
        m
    modify
        (λ p. record p { stopped = some (now_ns, pos (samples_per_channel p.chunk.frame), false) })
    pure true

  -- The branch of `playback_stopped`, for a playback that is not yet stopped: a count that is no
  -- integer leaves it unstopped.
  unfoldable pub stopped_pending : ℤ → Message → Action Pending Bool
  unfolding assign
  stopped_pending now_ns m = do
    assign (λ x p. record p { browser_actual_playback_end_ms = x }) "browser_actual_playback_end_ms"
        m
    elim (get_int "played_samples" m) [
      | none ↦ pure false
      | some raw ↦ do
        assign (λ x p. record p { player_stop_callback_latency_ms = x })
            "player_stop_callback_latency_ms" m
        modify (λ p. record p {
          stopped = some (now_ns, clamped (samples_per_channel p.chunk.frame) raw, true);
        })
        pure true
    ]

  -- What `acknowledge` makes of one pending playback, and how it ends.
  unfoldable pub acknowledged : ℤ → Message → Option String → Action Pending Bool
  unfolding started_pending completed_pending stopped_pending
  acknowledged now_ns m none p = (ok false, p)
  acknowledged now_ns m (some kind) p =
      let begun = record p { started = set_once now_ns p.started } in
      if kind == "playback_started" && not (is_done p.started)
      then started_pending now_ns m p
      else if kind == "playback_completed"
      then (if is_done p.stopped then (ok false, begun) else completed_pending now_ns m begun)
      else if kind == "playback_stopped"
      then (if is_done p.stopped then (ok false, begun) else stopped_pending now_ns m begun)
      else (ok false, p)

-- What `disconnect` makes of one pending playback.
unfoldable pub release_pending : ℤ → Pending → Pending
release_pending now_ns p = record p {
  started = set_once now_ns p.started;
  stopped = set_once (now_ns, pos 0, true) p.stopped;
}
