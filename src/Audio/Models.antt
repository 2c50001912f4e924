-- ===== src/Audio/Models.antt =====
-- src/humanflow/audio/models.py: frames, chunks and playback receipts with their checks. `provider`
-- and `display_text` of a chunk are metadata for the browser and are left out; the optional
-- measurements of a receipt are a list in the order of the source.
use humanflow.Shared.{
  ℕ, ◌*◌, ◌/◌, ◌%◌, String, Bool, false, not, ◌&&◌, ◌||◌, Option, none, some, List, [], ◌∷◌,
  if◌then◌else◌, ◌==◌, nat_instance, string_instance, ℤ, pos, pos_part, ltb_ℤ, leb_ℤ, int_instance,
  length, any,
}
use humanflow.Shared.Text.{is_blank, strip}
use humanflow.Shared.Result.{Result, Error, value_error, checked}
use humanflow.Shared.Float.{Float, dyadic, leb_float, ltb_float}

abbrev pub pcm16_bytes_per_sample : ℕ
pcm16_bytes_per_sample = 2

pub data AudioPlaybackMode : Type 0 where
  pcm browser_speech : AudioPlaybackMode

pub record AudioFrame : Type 0 where
  pub stream_id : String
  pub sequence : ℤ
  pub pcm16 : List ℕ
  pub sample_rate_hz : ℤ
  pub channels : ℤ
  pub captured_ns : ℤ

-- `PCM16_BYTES_PER_SAMPLE * self.channels`, read only after the check that `channels` is positive.
abbrev pub frame_width : AudioFrame → ℕ
frame_width f = pcm16_bytes_per_sample * pos_part f.channels

abbrev pub frame_checks : AudioFrame → List (Bool × Error)
frame_checks f =
    (is_blank f.stream_id, value_error "stream_id must not be empty")
    ∷ (ltb_ℤ f.sequence (pos 0), value_error "sequence must be non-negative")
    ∷ (leb_ℤ f.sample_rate_hz (pos 0), value_error "sample_rate_hz must be positive")
    ∷ (leb_ℤ f.channels (pos 0), value_error "channels must be positive")
    ∷ (ltb_ℤ f.captured_ns (pos 0), value_error "captured_ns must be non-negative")
    ∷ (
      length f.pcm16 == 0 || not (length f.pcm16 % frame_width f == 0),
      value_error "pcm16 must contain complete non-empty PCM16 samples",
    )
    ∷ []

unfoldable pub make_frame : AudioFrame → Result AudioFrame
make_frame f = checked (frame_checks f) f

unfoldable pub samples_per_channel : AudioFrame → ℕ
samples_per_channel f = length f.pcm16 / frame_width f

pub record AudioChunk : Type 0 where
  pub chunk_id : String
  pub response_id : String
  pub text : String
  pub frame : AudioFrame
  pub semantic_id : String
  pub semantic_text : String
  pub tts_session_id : String
  pub segment_id : String
  pub playback_mode : AudioPlaybackMode
  pub semantic_boundary : Bool
  pub pause_after_ms : ℤ
  pub speaking_rate : Float

-- `a.strip() or b`
abbrev or_else : String → String → String
or_else a b = if is_blank a then b else strip a

-- The attributes that `AudioChunk.__post_init__` sets.
unfoldable pub completed_chunk : AudioChunk → AudioChunk
completed_chunk c =
    let semantic = or_else c.semantic_id c.chunk_id in
    record c {
      semantic_id = semantic;
      semantic_text = or_else c.semantic_text (strip c.text);
      tts_session_id = or_else c.tts_session_id c.response_id;
      segment_id = or_else c.segment_id semantic;
    }

abbrev pub chunk_checks : AudioChunk → List (Bool × Error)
chunk_checks c =
    (
      is_blank c.chunk_id || is_blank c.response_id,
      value_error "chunk_id and response_id must not be empty",
    )
    ∷ (
      c.semantic_boundary && is_blank c.text,
      value_error "semantic boundary text must not be empty",
    )
    ∷ (
      not c.semantic_boundary && not (is_blank c.text),
      value_error "non-boundary chunks must not carry ledger text",
    )
    ∷ (is_blank c.semantic_text && is_blank c.text, value_error "semantic_text must not be empty")
    ∷ (ltb_ℤ c.pause_after_ms (pos 0), value_error "pause_after_ms must be non-negative")
    ∷ (
      not (leb_float (dyadic 1 1) c.speaking_rate && leb_float c.speaking_rate (dyadic 2 0)),
      value_error "speaking_rate must be between 0.5 and 2.0",
    )
    ∷ []

unfoldable pub make_chunk : AudioChunk → Result AudioChunk
make_chunk c = checked (chunk_checks c) (completed_chunk c)

pub record PlaybackReceipt : Type 0 where
  pub chunk_id : String
  pub requested_samples : ℤ
  pub played_samples : ℤ
  pub playback_started_ns : ℤ
  pub playback_stopped_ns : ℤ
  pub cancelled : Bool
  pub measurements : List (Option Float)
  pub source_node_id : Option String
  pub underrun_count : ℤ

-- `value is not None and value < 0`
abbrev pub is_negative : Option Float → Bool
is_negative none = false
is_negative (some x) = ltb_float x (dyadic 0 0)

abbrev pub is_blank_id : Option String → Bool
is_blank_id none = false
is_blank_id (some s) = is_blank s

abbrev pub receipt_checks : PlaybackReceipt → List (Bool × Error)
receipt_checks r =
    (is_blank r.chunk_id, value_error "chunk_id must not be empty")
    ∷ (ltb_ℤ r.requested_samples (pos 1), value_error "requested_samples must be positive")
    ∷ (
      not (leb_ℤ (pos 0) r.played_samples && leb_ℤ r.played_samples r.requested_samples),
      value_error "played_samples must be between zero and requested_samples",
    )
    ∷ (ltb_ℤ r.playback_started_ns (pos 0), value_error "playback_started_ns must be non-negative")
    ∷ (
      ltb_ℤ r.playback_stopped_ns r.playback_started_ns,
      value_error "playback_stopped_ns must not precede playback_started_ns",
    )
    ∷ (
      not r.cancelled && not (r.played_samples == r.requested_samples),
      value_error "non-cancelled playback must consume every requested sample",
    )
    ∷ (any is_negative r.measurements, value_error "a measurement must be non-negative")
    ∷ (is_blank_id r.source_node_id, value_error "source_node_id must be non-empty when present")
    ∷ (ltb_ℤ r.underrun_count (pos 0), value_error "underrun_count must be non-negative")
    ∷ []

unfoldable pub make_receipt : PlaybackReceipt → Result PlaybackReceipt
make_receipt r = checked (receipt_checks r) r
