-- ===== src/Playback/Epochs.antt =====
-- The playback epoch of src/humanflow/web/transport.py and the responses that were invalidated.
use humanflow.Shared.Dict.{lookup}
use humanflow.Playback.Pending.{is_done, get_text, Message}
use humanflow.Audio.Models.{make_receipt, AudioChunk}
use humanflow.Shared.Float.{Float}
use humanflow.Shared.Result.{Result-cases, Result}
use humanflow.Playback.Browser.{
  call_disconnect, call_end, call_acknowledge, call_cancel, call_begin, call_invalidate,
  cancel_audio, call_resume, audio_bytes, disconnect, silent_receipt, new_output, playback_resume,
  playback_duck, end_play, OutputCall, after_output_call, acknowledge, is_invalidated, audio_chunk,
  after_output_calls, invalidate_playback, begin_play, resume_playback, soft_duck, Output,
  invalidate_response, Outbound, call_duck,
}
use mathlib.Core.Path.{refl, subst}
use humanflow.Shared.{
  ℕ, ◌+◌, String, ◌≡◌, sym, ap, ◌∙◌, inl, inr, false, List, [], ◌∷◌, ◌++◌, arith, Bool-cases,
  Option-cases, nat_instance, string_instance, contains, ℤ, int_instance, append_nil, length,
}

-- No text occurs twice.
abbrev pub Distinct : List String → Type 0
Distinct [] = Unit
Distinct (x ∷ xs) = (contains x xs ≡ false) × Distinct xs

-- The responses and epochs of the messages that invalidate, in the order they were queued.
abbrev pub invalidations : List Outbound → List (String × ℕ)
invalidations [] = []
invalidations (invalidate_playback r onset epoch ∷ xs) = (r, epoch) ∷ invalidations xs
invalidations (x ∷ xs) = invalidations xs

-- The texts with their numbers from 1, the last one of the list first.
abbrev pub numbered : List String → List (String × ℕ)
numbered [] = []
numbered (r ∷ rs) = numbered rs ++ ((r, length rs + 1) ∷ [])

-- The epoch is the number of the invalidated responses, none of them occurs twice, and the browser was
-- told of each once, with the epoch that it began.
pub record IsCounted (s : Output) : Type 0 where
  pub epoch : s.playback_epoch ≡ length s.invalidated_response_ids
  pub distinct : Distinct s.invalidated_response_ids
  pub told : invalidations s.outbound ≡ numbered s.invalidated_response_ids

-- The epoch, the invalidated responses and the messages that invalidate are as before.
abbrev Same : Output → Output → Type 0
Same s s' =
    (s'.playback_epoch ≡ s.playback_epoch)
    × (s'.invalidated_response_ids ≡ s.invalidated_response_ids)
    × (invalidations s'.outbound ≡ invalidations s.outbound)

Same-IsCounted : (s s' : Output) → Same s s' → IsCounted s → IsCounted s'
Same-IsCounted s s' (e, i, o) h = record {
  epoch = e ∙ (h.epoch ∙ ap length (sym i));
  distinct = subst Distinct (sym i) h.distinct;
  told = o ∙ (h.told ∙ ap numbered (sym i));
}

invalidations-append :
    (xs ys : List Outbound) → invalidations (xs ++ ys) ≡ invalidations xs ++ invalidations ys
invalidations-append [] ys = refl
invalidations-append (invalidate_playback r onset e ∷ xs) ys =
    ap (λ zs. (r, e) ∷ zs) (invalidations-append xs ys)
invalidations-append (playback_duck r onset e ∷ xs) ys = invalidations-append xs ys
invalidations-append (playback_resume r onset e ∷ xs) ys = invalidations-append xs ys
invalidations-append (audio_chunk c e ∷ xs) ys = invalidations-append xs ys
invalidations-append (audio_bytes b ∷ xs) ys = invalidations-append xs ys
invalidations-append (cancel_audio k ∷ xs) ys = invalidations-append xs ys

-- A message at the end that does not invalidate.
put_other :
    (xs : List Outbound) (y : Outbound)
    → invalidations (y ∷ []) ≡ []
    → invalidations (xs ++ (y ∷ [])) ≡ invalidations xs
put_other xs y h =
    invalidations-append xs (y ∷ [])
    ∙ (ap (λ zs. invalidations xs ++ zs) h ∙ append_nil (invalidations xs))

Same-refl : (s : Output) → Same s s
Same-refl s = (refl, refl, refl)

soft_duck-Same : (r : String) (onset : ℤ) (s : Output) → Same s (soft_duck r onset s).1
unfolding soft_duck
soft_duck-Same r onset s = elim (Bool-cases (is_invalidated r s)) [
  | inl e ↦ rw (e, soft_duck) (refl, refl, refl)
  | inr e ↦
      rw (e, soft_duck)
        (refl, refl, put_other s.outbound (playback_duck r onset s.playback_epoch) refl)
]

resume_playback-Same : (r : String) (onset : ℤ) (s : Output) → Same s (resume_playback r onset s).1
unfolding resume_playback
resume_playback-Same r onset s = elim (Bool-cases (is_invalidated r s)) [
  | inl e ↦ rw (e, resume_playback) (refl, refl, refl)
  | inr e ↦
      rw (e, resume_playback)
        (refl, refl, put_other s.outbound (playback_resume r onset s.playback_epoch) refl)
]

begin_play-Same : (now_ns : ℤ) (c : AudioChunk) (s : Output) → Same s (begin_play now_ns c s).1
unfolding begin_play
begin_play-Same now_ns c s = elim (Bool-cases (is_invalidated c.response_id s)) [
  | inl muted ↦ elim (Result-cases (make_receipt (silent_receipt now_ns c))) [
    | inl (p, e) ↦ rw (muted, e, begin_play) (refl, refl, refl)
    | inr (x, e) ↦ rw (muted, e, begin_play) (refl, refl, refl)
  ]
  | inr open_response ↦ elim (Bool-cases (is_done (lookup c.chunk_id s.pending))) [
    | inl twice ↦ rw (open_response, twice, begin_play) (refl, refl, refl)
    | inr fresh ↦
        rw (open_response, fresh, begin_play)
          (
            refl,
            refl,
            put_other (s.outbound ++ (audio_chunk c s.playback_epoch ∷ []))
                  (audio_bytes c.frame.pcm16) refl
                ∙ put_other s.outbound (audio_chunk c s.playback_epoch) refl,
          )
  ]
]

invalidate_response-IsCounted :
    (r : String) (onset : ℤ) (s : Output)
    → IsCounted s
    → IsCounted (invalidate_response r onset s).1
unfolding invalidate_response
invalidate_response-IsCounted r onset s h = elim (Bool-cases (is_invalidated r s)) [
  | inl e ↦ rw (e, invalidate_response) h
  | inr e ↦
      let ids : List String = s.invalidated_response_ids in
      let told : invalidations
            (s.outbound ++ (invalidate_playback r onset (s.playback_epoch + 1) ∷ []))
          ≡ numbered (r ∷ ids) =
        invalidations-append s.outbound (invalidate_playback r onset (s.playback_epoch + 1) ∷ [])
        ∙ (ap (λ xs. xs ++ ((r, s.playback_epoch + 1) ∷ [])) h.told
            ∙ ap (λ n. numbered ids ++ ((r, n + 1) ∷ [])) h.epoch) in
      rw (e, invalidate_response)
        (record { epoch = omega (arith, h.epoch); distinct = (e, h.distinct); told = told })
]

module _ (float_of_int : ℤ → Result Float) where
  acknowledge-Same :
      (now_ns : ℤ) (m : Message) (s : Output) → Same s (acknowledge float_of_int now_ns m s).1
  unfolding acknowledge
  acknowledge-Same now_ns m s = elim (Option-cases (get_text "chunk_id" m)) [
    | inl unnamed ↦ rw (unnamed, acknowledge) (refl, refl, refl)
    | inr (k, named) ↦ elim (Option-cases (lookup k s.pending)) [
      | inl unknown ↦ rw (named, unknown, acknowledge) (refl, refl, refl)
      | inr (p, known) ↦ rw (named, known, acknowledge) (refl, refl, refl)
    ]
  ]

  after_output_call-IsCounted :
      (c : OutputCall) (s : Output) → IsCounted s → IsCounted (after_output_call float_of_int c s)
  unfolding after_output_call end_play disconnect
  after_output_call-IsCounted (call_duck r onset) s h =
      Same-IsCounted s (soft_duck r onset s).1 (soft_duck-Same r onset s) h
  after_output_call-IsCounted (call_resume r onset) s h =
      Same-IsCounted s (resume_playback r onset s).1 (resume_playback-Same r onset s) h
  after_output_call-IsCounted (call_invalidate r onset) s h =
      invalidate_response-IsCounted r onset s h
  after_output_call-IsCounted (call_begin now_ns c) s h =
      Same-IsCounted s (begin_play now_ns c s).1 (begin_play-Same now_ns c s) h
  after_output_call-IsCounted (call_cancel k) s h = record {
    epoch = h.epoch;
    distinct = h.distinct;
    told = put_other s.outbound (cancel_audio k) refl ∙ h.told;
  }
  after_output_call-IsCounted (call_acknowledge now_ns m) s h =
      Same-IsCounted s (acknowledge float_of_int now_ns m s).1 (acknowledge-Same now_ns m s) h
  after_output_call-IsCounted (call_end k) s h = record {
    epoch = h.epoch;
    distinct = h.distinct;
    told = h.told;
  }
  after_output_call-IsCounted (call_disconnect now_ns) s h = record {
    epoch = h.epoch;
    distinct = h.distinct;
    told = h.told;
  }

  calls-IsCounted :
      (cs : List OutputCall) (s : Output)
      → IsCounted s
      → IsCounted (after_output_calls float_of_int cs s)
  unfolding after_output_calls
  calls-IsCounted [] s h = h
  calls-IsCounted (c ∷ cs) s h =
      calls-IsCounted cs (after_output_call float_of_int c s) (after_output_call-IsCounted c s h)

  -- From a new output, after any calls, messages of the browser and steps of `play`: the playback epoch
  -- is the number of the invalidated responses, none of which occurs twice, and the messages that
  -- invalidate name each of them once, in their order, with the epochs from 1.
  pub after_output_calls-IsCounted :
      (cs : List OutputCall) → IsCounted (after_output_calls float_of_int cs new_output)
  after_output_calls-IsCounted cs =
      calls-IsCounted cs new_output (record { epoch = refl; distinct = tt; told = refl })
