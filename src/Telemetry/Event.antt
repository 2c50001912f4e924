-- ===== src/Telemetry/Event.antt =====
-- src/humanflow/telemetry/events.py: event types and the envelope with its checks.
-- `utc` stands for the wall clock, which is always timezone-aware in `create`.
use humanflow.Shared.{
  ℕ, String, Bool, List, [], ◌∷◌, ltb, nat_instance, string_instance, ℤ, pos, ltb_ℤ, int_instance,
}
use humanflow.Shared.Text.{is_blank}
use humanflow.Shared.Result.{Result, Error, value_error, checked}
use humanflow.Conversation.{ConversationState}
use humanflow.Telemetry.Payload.{Fields, sanitize_fields}

pub data EventType : Type 0 where
  user_audio_started user_audio_stopped possible_interruption : EventType
  playback_duck_requested playback_duck_started playback_resume_requested : EventType
  playback_resumed backchannel_recovery false_interruption_detected : EventType
  provider_status stt_provider_failed partial_transcript final_transcript : EventType
  final_admission_accepted final_admission_rejected turn_candidate turn_confirmed : EventType
  appointment_state_updated backchannel_detected interruption_candidate : EventType
  takeover_evidence interruption_confirmed audio_cancel_signal audible_stop_ack : EventType
  agent_generation_started agent_generation_completed first_model_output : EventType
  semantic_chunk_ready tts_request_started tts_speech_retry tts_provider_fallback : EventType
  tts_provider_activated tts_provider_deactivated first_audio_chunk : EventType
  playback_owner_created playback_owner_destroyed audio_chunk_received : EventType
  audio_chunk_scheduled audio_chunk_played audio_segment_metrics playback_underrun : EventType
  duplicate_chunk_rejected stale_chunk_rejected duplicate_transcript_rejected : EventType
  transcript_provenance_recorded transcript_rejected self_speech_candidate : EventType
  self_speech_suppressed self_speech_accepted_as_real_user agent_audio_started : EventType
  playback_sink_metrics agent_audio_cancelled agent_audio_stop_unconfirmed : EventType
  agent_audio_completed tool_started tool_completed tool_failed : EventType
  availability_queried appointment_created appointment_rescheduled : EventType
  appointment_cancelled appointments_listed booking_conflict_detected : EventType
  recovery_started recovery_completed state_transitioned operation_invalidated : EventType
  stale_result_rejected cost_event_recorded cost_ledger_write_failed : EventType
  cost_anomaly_detected cost_budget_warning call_ended : EventType

pub record TelemetryEvent : Type 0 where
  pub event_type : EventType
  pub conversation_id : String
  pub correlation_id : String
  pub sequence : ℕ
  pub utc : ℤ
  pub monotonic_ns : ℤ
  pub state : ConversationState
  pub reason_code : String
  pub payload : Fields
  pub event_id : String

abbrev pub event_checks : TelemetryEvent → List (Bool × Error)
event_checks e =
    (is_blank e.conversation_id, value_error "conversation_id must not be empty")
    ∷ (is_blank e.correlation_id, value_error "correlation_id must not be empty")
    ∷ (ltb e.sequence 1, value_error "sequence must be positive")
    ∷ (ltb_ℤ e.monotonic_ns (pos 0), value_error "monotonic_ns must be non-negative")
    ∷ (is_blank e.reason_code, value_error "reason_code must not be empty")
    ∷ []

-- `TelemetryEvent.create` with `__post_init__`: checks, then the payload is sanitised.
unfoldable pub create : TelemetryEvent → Result TelemetryEvent
create e = checked (event_checks e) (record e { payload = sanitize_fields e.payload })
