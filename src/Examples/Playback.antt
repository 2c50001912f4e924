-- ===== src/Examples/Playback.antt =====
-- Concrete playbacks that a browser acknowledges.
use humanflow.Playback.Receipts.{final_receipt_passes}
use humanflow.Playback.Promises.{after_output_calls-IsAnswered}
use humanflow.Shared.Text.{is_blank}
use humanflow.Playback.Answers.{IsAnswered}
use humanflow.Shared.Float.{dyadic}
use humanflow.Playback.Silence.{after_output_calls-Quiet, Quiet}
use humanflow.Shared.Dict.{insert, lookup, Holds}
use humanflow.Audio.Models.{make_receipt, AudioPlaybackMode, AudioChunk, samples_per_channel}
use humanflow.Shared.{
  ◌≡◌, refl, inl, true, none, some, List, [], ◌∷◌, nat_instance, string_instance, pos, int_instance,
}
use humanflow.Shared.Result.{ok, err, overflow_error}
use humanflow.Playback.Epochs.{after_output_calls-IsCounted, IsCounted}
use humanflow.Playback.Pending.{
  new_pending, acknowledged, completed_pending, assign, measured, nonnegative_float, Pending,
  Message, text, integer,
}
use humanflow.Playback.Browser.{
  acknowledge, call_invalidate, final_receipt, new_output, after_output_calls, invalidate_response,
  Output, OutputCall, call_begin, call_acknowledge,
}

abbrev short_chunk : AudioChunk
short_chunk = record {
  chunk_id = "c1";
  response_id = "r1";
  text = "Ja.";
  frame = record {
    stream_id = "s";
    sequence = pos 0;
    pcm16 = 1 ∷ 2 ∷ 3 ∷ 4 ∷ [];
    sample_rate_hz = pos 16000;
    channels = pos 1;
    captured_ns = pos 0;
  };
  semantic_id = "c1";
  semantic_text = "Ja.";
  tts_session_id = "r1";
  segment_id = "c1";
  playback_mode = AudioPlaybackMode.pcm;
  semantic_boundary = true;
  pause_after_ms = pos 0;
  speaking_rate = dyadic 1 0;
}

abbrev too_many : Message
too_many =
    ("chunk_id", text "c1")
    ∷ ("type", text "playback_stopped")
    ∷ ("played_samples", integer (pos 9))
    ∷ []

abbrev play_calls : List OutputCall
play_calls = call_begin (pos 5) short_chunk ∷ call_acknowledge (pos 8) too_many ∷ []

abbrev stopped_chunk : Pending
stopped_chunk = record {
  chunk = short_chunk;
  started = some (pos 8);
  stopped = some (pos 8, pos 2, true);
  sink_base_latency_ms = none;
  sink_output_latency_ms = none;
  player_stop_callback_latency_ms = none;
  source_node_id = none;
  browser_scheduled_start_ms = none;
  browser_actual_playback_start_ms = none;
  browser_actual_playback_end_ms = none;
  previous_segment_end_ms = none;
  inter_segment_gap_ms = none;
  intentional_linguistic_pause_ms = none;
  scheduler_generated_gap_ms = none;
  queue_depth_ms = none;
  underrun_count = pos 0;
}

-- The reported nine samples are cut to the two of the chunk.
play_calls_run :
    (after_output_calls (λ i. ok (dyadic 0 0)) play_calls new_output).pending
    ≡ ("c1", stopped_chunk) ∷ []
unfolding after_output_calls lookup insert samples_per_channel
play_calls_run = refl

after_output_calls-IsAnswered_example :
    Holds IsAnswered (after_output_calls (λ i. ok (dyadic 0 0)) play_calls new_output).pending
after_output_calls-IsAnswered_example =
    after_output_calls-IsAnswered (λ i. ok (dyadic 0 0)) play_calls new_output tt

abbrev muted : Output
muted = record new_output { playback_epoch = 1; invalidated_response_ids = "r1" ∷ [] }

after_output_calls-Quiet_example :
    Quiet "r1" muted (after_output_calls (λ i. ok (dyadic 0 0)) play_calls muted)
after_output_calls-Quiet_example =
    after_output_calls-Quiet (λ i. ok (dyadic 0 0)) "r1" play_calls muted refl

abbrev cut_twice : List OutputCall
cut_twice =
    call_invalidate "r1" (pos 1) ∷ call_invalidate "r2" (pos 2) ∷ call_invalidate "r1" (pos 3) ∷ []

after_output_calls-IsCounted_example :
    IsCounted (after_output_calls (λ i. ok (dyadic 0 0)) cut_twice new_output)
after_output_calls-IsCounted_example = after_output_calls-IsCounted (λ i. ok (dyadic 0 0)) cut_twice

-- The third call is for a response that the first one invalidated.
cut_twice_run : (after_output_calls (λ i. ok (dyadic 0 0)) cut_twice new_output).playback_epoch ≡ 2
unfolding after_output_calls invalidate_response
cut_twice_run = refl

-- An integer beyond the doubles leaves the playback started and not stopped.
beyond_doubles :
    acknowledge
      (λ i. err (overflow_error "int too large to convert to float"))
      (pos 8)
      (("chunk_id", text "c1")
        ∷ ("type", text "playback_completed")
        ∷ ("browser_actual_playback_end_ms", integer (pos 7))
        ∷ [])
      (record new_output { pending = ("c1", new_pending short_chunk) ∷ [] })
    ≡ (
      err (overflow_error "int too large to convert to float"),
      record new_output {
        pending = ("c1", record (new_pending short_chunk) { started = some (pos 8) }) ∷ [];
      },
    )
unfolding new_pending acknowledge acknowledged completed_pending assign measured nonnegative_float
    lookup insert
beyond_doubles = refl

stopped_chunk-IsAnswered : IsAnswered stopped_chunk
unfolding samples_per_channel
stopped_chunk-IsAnswered = record {
  within = (refl, refl, inl refl);
  measures =
      (refl, (refl, (refl, (refl, (refl, (refl, (refl, (refl, (refl, (refl, (refl, tt)))))))))));
  underruns = refl;
}

final_receipt_passes_example :
    make_receipt (final_receipt (pos 8) (pos 8) (pos 2) true stopped_chunk)
    ≡ ok (final_receipt (pos 8) (pos 8) (pos 2) true stopped_chunk)
unfolding samples_per_channel is_blank
final_receipt_passes_example =
    final_receipt_passes (pos 8) (pos 8) (pos 2) true stopped_chunk stopped_chunk-IsAnswered refl
      refl refl refl refl
