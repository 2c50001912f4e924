-- ===== src/Playback/Browser.antt =====
-- `BrowserAcknowledgedAudioOutput` of src/humanflow/web/transport.py. `play` is cut at its waits: what
-- it does before the first one, and the receipt after the last.
use humanflow.Shared.{
  ℕ, ◌+◌, String, Bool, true, false, ◌||◌, Option, none, some, List, [], ◌∷◌, ◌++◌, if◌then◌else◌,
  nat_instance, string_instance, contains, ℤ, pos, ltb_ℤ, max_ℤ, int_instance,
}
use humanflow.Shared.Dict.{Dict, lookup, insert, erase}
use humanflow.Shared.Float.{Float}
use humanflow.Shared.Result.{Result, ok, err, runtime_error}
use humanflow.Shared.Action.{Action}
use humanflow.Audio.Models.{AudioChunk, PlaybackReceipt, make_receipt, samples_per_channel}
use humanflow.Playback.Pending.{
  get_text, is_done, new_pending, release_pending, acknowledged, Pending, Message,
}

-- What goes to the browser.
pub data Outbound : Type 0 where
  playback_duck : String → ℤ → ℕ → Outbound
  playback_resume : String → ℤ → ℕ → Outbound
  invalidate_playback : String → ℤ → ℕ → Outbound
  audio_chunk : AudioChunk → ℕ → Outbound
  audio_bytes : List ℕ → Outbound
  cancel_audio : String → Outbound

pub record Output : Type 0 where
  pub pending : Dict Pending
  pub playback_epoch : ℕ
  pub invalidated_response_ids : List String
  pub outbound : List Outbound

abbrev pub new_output : Output
new_output = record {
  pending = [];
  playback_epoch = 0;
  invalidated_response_ids = [];
  outbound = [];
}

-- `self._outbound.put_nowait(item)`
abbrev pub put_nowait : Outbound → Output → Output
put_nowait item s = record s { outbound = s.outbound ++ (item ∷ []) }

abbrev pub is_invalidated : String → Output → Bool
is_invalidated response_id s = contains response_id s.invalidated_response_ids

unfoldable pub soft_duck : String → ℤ → Output → Bool × Output
soft_duck response_id onset s =
    if is_invalidated response_id s
    then (false, s)
    else (true, put_nowait (playback_duck response_id onset s.playback_epoch) s)

unfoldable pub resume_playback : String → ℤ → Output → Bool × Output
resume_playback response_id onset s =
    if is_invalidated response_id s
    then (false, s)
    else (true, put_nowait (playback_resume response_id onset s.playback_epoch) s)

abbrev pub invalidated_output : String → Output → Output
invalidated_output response_id s = record s {
  invalidated_response_ids = response_id ∷ s.invalidated_response_ids;
  playback_epoch = s.playback_epoch + 1;
}

unfoldable pub invalidate_response : String → ℤ → Output → ℕ × Output
invalidate_response response_id onset s =
    if is_invalidated response_id s then (s.playback_epoch, s) else (
      s.playback_epoch + 1,
      put_nowait (invalidate_playback response_id onset (s.playback_epoch + 1))
          (invalidated_output response_id s),
    )

-- The receipt for a chunk of an invalidated response.
abbrev pub silent_receipt : ℤ → AudioChunk → PlaybackReceipt
silent_receipt now_ns c = record {
  chunk_id = c.chunk_id;
  requested_samples = pos (samples_per_channel c.frame);
  played_samples = pos 0;
  playback_started_ns = now_ns;
  playback_stopped_ns = now_ns;
  cancelled = true;
  measurements = [];
  source_node_id = none;
  underrun_count = pos 0;
}

-- `play` before its first wait: the receipt of a chunk that must not be heard, or nothing and the
-- chunk has been sent.
unfoldable pub begin_play : ℤ → AudioChunk → Action Output (Option PlaybackReceipt)
unfolding new_pending make_receipt
begin_play now_ns c s =
    if is_invalidated c.response_id s
    then (elim (make_receipt (silent_receipt now_ns c)) [
      | ok r ↦ (ok (some r), s)
      | err x ↦ (err x, s)
    ])
    else if is_done (lookup c.chunk_id s.pending)
    then (err (runtime_error "browser output received duplicate pending chunk"), s)
    else (
      ok none,
      put_nowait (audio_bytes c.frame.pcm16) (
          put_nowait (audio_chunk c s.playback_epoch)
            (record s { pending = insert c.chunk_id (new_pending c) s.pending })),
    )

-- The receipt at the end of `play`.
unfoldable pub final_receipt : ℤ → ℤ → ℤ → Bool → Pending → PlaybackReceipt
final_receipt started_ns stopped_ns played browser_cancelled p =
    let total = pos (samples_per_channel p.chunk.frame) in
    record {
      chunk_id = p.chunk.chunk_id;
      requested_samples = total;
      played_samples = played;
      playback_started_ns = started_ns;
      playback_stopped_ns = max_ℤ started_ns stopped_ns;
      cancelled = browser_cancelled || ltb_ℤ played total;
      measurements =
          p.sink_base_latency_ms ∷ p.sink_output_latency_ms ∷ p.player_stop_callback_latency_ms
          ∷ p.browser_scheduled_start_ms ∷ p.browser_actual_playback_start_ms
          ∷ p.browser_actual_playback_end_ms ∷ p.previous_segment_end_ms ∷ p.inter_segment_gap_ms
          ∷ p.intentional_linguistic_pause_ms ∷ p.scheduler_generated_gap_ms ∷ p.queue_depth_ms
          ∷ [];
      source_node_id = p.source_node_id;
      underrun_count = p.underrun_count;
    }

-- The `finally` of `play`.
unfoldable pub end_play : String → Output → Output
end_play chunk_id s = record s { pending = erase chunk_id s.pending }

unfoldable pub release_all : ℤ → Dict Pending → Dict Pending
unfolding release_pending
release_all now_ns [] = []
release_all now_ns ((k, p) ∷ d) = (k, release_pending now_ns p) ∷ release_all now_ns d

unfoldable pub disconnect : ℤ → Output → Output
unfolding release_all
disconnect now_ns s = record s { pending = release_all now_ns s.pending }

-- A call or a step of `play`, and what it leaves.
pub data OutputCall : Type 0 where
  call_duck : String → ℤ → OutputCall
  call_resume : String → ℤ → OutputCall
  call_invalidate : String → ℤ → OutputCall
  call_begin : ℤ → AudioChunk → OutputCall
  call_cancel : String → OutputCall
  call_acknowledge : ℤ → Message → OutputCall
  call_end : String → OutputCall
  call_disconnect : ℤ → OutputCall

module _ (float_of_int : ℤ → Result Float) where
  unfoldable pub acknowledge : ℤ → Message → Action Output Bool
  unfolding acknowledged
  acknowledge now_ns m s = elim (get_text "chunk_id" m) [
    | none ↦ (ok false, s)
    | some chunk_id ↦ elim (lookup chunk_id s.pending) [
      | none ↦ (ok false, s)
      | some p ↦
          let (answer, q) = acknowledged float_of_int now_ns m (get_text "type" m) p in
          (answer, record s { pending = insert chunk_id q s.pending })
    ]
  ]

  unfoldable pub after_output_call : OutputCall → Output → Output
  unfolding soft_duck resume_playback invalidate_response begin_play end_play disconnect acknowledge
  after_output_call (call_duck r onset) s = (soft_duck r onset s).1
  after_output_call (call_resume r onset) s = (resume_playback r onset s).1
  after_output_call (call_invalidate r onset) s = (invalidate_response r onset s).1
  after_output_call (call_begin now_ns c) s = (begin_play now_ns c s).1
  after_output_call (call_cancel chunk_id) s = put_nowait (cancel_audio chunk_id) s
  after_output_call (call_acknowledge now_ns m) s = (acknowledge now_ns m s).1
  after_output_call (call_end chunk_id) s = end_play chunk_id s
  after_output_call (call_disconnect now_ns) s = disconnect now_ns s

  unfoldable pub after_output_calls : List OutputCall → Output → Output
  unfolding after_output_call
  after_output_calls [] s = s
  after_output_calls (c ∷ cs) s = after_output_calls cs (after_output_call c s)
