-- ===== src/Playback/Branches.antt =====
-- The branches of `acknowledge` of src/humanflow/web/transport.py, on the bounds of a pending playback.
use humanflow.Shared.Result.{Result, ok, Result-cases}
use humanflow.Shared.Action.{◌>>◌, modify, pure}
use mathlib.Core.Path.{subst}
use humanflow.Audio.Models.{samples_per_channel}
use humanflow.Shared.Float.{dyadic, leb_float, Float}
use humanflow.Shared.{
  String, ◌≡◌, refl, inl, inr, true, false, Option, none, some, Bool-cases, Option-cases,
  nat_instance, string_instance, ℤ, int_instance,
}
use humanflow.Shared.Dict.{lookup}
use humanflow.Playback.Pending.{
  assign, Json, get_int, only_nonnegative, started_pending, stopped_pending, measured,
  nonnegative_float, completed_pending, Pending, Message, clamped, integer, number,
}
use humanflow.Playback.Answers.{NonNegative}
use humanflow.Playback.Writes.{
  Writes, Keeps, then_Keeps, sink_base_latency_ms_kept, sink_output_latency_ms_kept,
  player_stop_callback_latency_ms_kept, browser_scheduled_start_ms_kept,
  browser_actual_playback_start_ms_kept, browser_actual_playback_end_ms_kept,
  previous_segment_end_ms_kept, inter_segment_gap_ms_kept, intentional_linguistic_pause_ms_kept,
  scheduler_generated_gap_ms_kept, queue_depth_ms_kept, pure_kept, underruns_kept, node_kept,
  begin_kept, completed_kept, stopped_kept,
}

only-NonNegative : (x : Float) → NonNegative (only_nonnegative x)
only-NonNegative x = elim (Bool-cases (leb_float (dyadic 0 0) x)) [
  | inl good ↦ rw (good, good) refl
  | inr bad ↦ rw bad refl
]

module _ (float_of_int : ℤ → Result Float) where
  nonnegative_float-NonNegative :
      (v : Json) (x : Option Float) → nonnegative_float float_of_int v ≡ ok x → NonNegative x
  unfolding nonnegative_float
  nonnegative_float-NonNegative (integer i) x q = elim (Result-cases (float_of_int i)) [
    | inl (y, e) ↦
        let same : only_nonnegative y ≡ x = cc in subst NonNegative same (only-NonNegative y)
    | inr (y, e) ↦ cc
  ]
  nonnegative_float-NonNegative (number y) x q =
      let same : only_nonnegative y ≡ x = cc in subst NonNegative same (only-NonNegative y)
  nonnegative_float-NonNegative Json.null x q =
      let same : none ≡ x = cc in subst NonNegative same refl
  nonnegative_float-NonNegative (Json.boolean b) x q =
      let same : none ≡ x = cc in subst NonNegative same refl
  nonnegative_float-NonNegative (Json.text t) x q =
      let same : none ≡ x = cc in subst NonNegative same refl
  nonnegative_float-NonNegative Json.compound x q =
      let same : none ≡ x = cc in subst NonNegative same refl

  measured-NonNegative :
      (key : String) (m : Message) (x : Option Float)
      → measured float_of_int key m ≡ ok x
      → NonNegative x
  unfolding measured
  measured-NonNegative key m x q = elim (Option-cases (lookup key m)) [
    | inl missing ↦ let same : none ≡ x = cc in subst NonNegative same refl
    | inr (v, given) ↦ nonnegative_float-NonNegative v x (by_value v given)
  ]
    where
      by_value : (v : Json) → lookup key m ≡ some v → nonnegative_float float_of_int v ≡ ok x
      by_value v given = cc

  assign-Keeps :
      (write : Option Float → Pending → Pending) (key : String) (m : Message)
      → Writes write
      → Keeps (assign float_of_int write key m)
  unfolding assign
  assign-Keeps write key m w = record {
    after = λ p h. elim (Result-cases (measured float_of_int key m)) [
      | inl (x, e) ↦ rw e (w x p (measured-NonNegative key m x e) h)
      | inr (x, e) ↦ rw e h
    ];
  }

  pub started_pending-Keeps :
      (now_ns : ℤ) (m : Message) → Keeps (started_pending float_of_int now_ns m)
  unfolding started_pending
  started_pending-Keeps now_ns m =
      then_Keeps _ _
        (assign-Keeps _ "browser_audio_context_base_latency_ms" m sink_base_latency_ms_kept)
        (then_Keeps _ _
          (assign-Keeps _ "browser_audio_context_output_latency_ms" m sink_output_latency_ms_kept)
          (then_Keeps _ _
            (assign-Keeps _ "browser_scheduled_start_ms" m browser_scheduled_start_ms_kept)
            (then_Keeps _ _
              (assign-Keeps _ "browser_actual_playback_start_ms" m
                browser_actual_playback_start_ms_kept)
              (then_Keeps _ _
                (assign-Keeps _ "previous_segment_end_ms" m previous_segment_end_ms_kept)
                (then_Keeps _ _ (assign-Keeps _ "inter_segment_gap_ms" m inter_segment_gap_ms_kept)
                  (then_Keeps _ _
                    (assign-Keeps _ "intentional_linguistic_pause_ms" m
                      intentional_linguistic_pause_ms_kept)
                    (then_Keeps _ _
                      (assign-Keeps _ "scheduler_generated_gap_ms" m
                        scheduler_generated_gap_ms_kept)
                      (then_Keeps _ _ (assign-Keeps _ "queue_depth_ms" m queue_depth_ms_kept) (
                        then_Keeps _ _ (underruns_kept m) (
                          then_Keeps _ _ (node_kept m)
                            (then_Keeps _ _ (begin_kept now_ns) (pure_kept true))))))))))))

  pub completed_pending-Keeps :
      (now_ns : ℤ) (m : Message) → Keeps (completed_pending float_of_int now_ns m)
  unfolding completed_pending
  completed_pending-Keeps now_ns m =
      then_Keeps _ _
        (assign-Keeps _ "browser_actual_playback_end_ms" m browser_actual_playback_end_ms_kept)
        (then_Keeps _ _ (completed_kept now_ns) (pure_kept true))

  pub stopped_pending-Keeps :
      (now_ns : ℤ) (m : Message) → Keeps (stopped_pending float_of_int now_ns m)
  unfolding stopped_pending
  stopped_pending-Keeps now_ns m =
      then_Keeps _ _
        (assign-Keeps _ "browser_actual_playback_end_ms" m browser_actual_playback_end_ms_kept)
        (by_count (get_int "played_samples" m))
    where
      by_count :
          (o : Option ℤ)
          → Keeps (elim o [
            | none ↦ pure false
            | some raw ↦ do
              assign float_of_int
                  (λ x p. record p { player_stop_callback_latency_ms = x })
                  "player_stop_callback_latency_ms"
                  m
              modify (λ p. record p {
                stopped = some (now_ns, clamped (samples_per_channel p.chunk.frame) raw, true);
              })
              pure true
          ])
      by_count none = pure_kept false
      by_count (some raw) =
          then_Keeps _ _
            (assign-Keeps _ "player_stop_callback_latency_ms" m
              player_stop_callback_latency_ms_kept)
            (then_Keeps _ _ (stopped_kept now_ns raw) (pure_kept true))
