-- ===== src/Playback/Silence.antt =====
-- Invalidated responses of src/humanflow/web/transport.py, and the audio that is sent to the browser.
use humanflow.Shared.Dict.{lookup}
use humanflow.Shared.Result.{Result-cases, Result}
use humanflow.Playback.Pending.{is_done, get_text, Message}
use humanflow.Audio.Models.{make_receipt, AudioChunk}
use humanflow.Shared.Float.{Float}
use humanflow.Shared.{
  ℕ, ◌+◌, String, ◌≡◌, refl, ap, ◌∙◌, inl, inr, Bool, true, false, Option, none, some, List, [],
  ◌∷◌, ◌++◌, arith, if◌then◌else◌, Bool-cases, Option-cases, ◌==◌, nat_instance, string_instance,
  list_eq, list_eq_iff, ℤ, int_instance, append_step,
}
use humanflow.Playback.Browser.{
  silent_receipt, disconnect, invalidated_output, OutputCall, end_play, after_output_call,
  is_invalidated, after_output_calls, acknowledge, Output, begin_play, Outbound, resume_playback,
  soft_duck, invalidate_response, call_duck, call_resume, call_invalidate, call_begin, call_cancel,
  call_acknowledge, call_end, call_disconnect, playback_duck, playback_resume, invalidate_playback,
  audio_chunk, audio_bytes, cancel_audio,
}

-- The bytes of the chunk that was announced.
abbrev pub is_announced : Option AudioChunk → List ℕ → Bool
is_announced none bytes = false
is_announced (some c) bytes = list_eq bytes c.frame.pcm16

-- The audio of a response in a queue, the announcement of a chunk and its bytes, after the last
-- announcement that waits for its bytes. Bytes that are not those of an announced chunk of another
-- response count as audio of the response.
abbrev pub audio_of : String → Option AudioChunk → List Outbound → List Outbound
audio_of r last [] = []
audio_of r last (audio_chunk c epoch ∷ xs) =
    if c.response_id == r then audio_chunk c epoch ∷ audio_of r none xs else audio_of r (some c) xs
audio_of r last (audio_bytes bytes ∷ xs) =
    if is_announced last bytes then audio_of r none xs else audio_bytes bytes ∷ audio_of r none xs
audio_of r last (x ∷ xs) = audio_of r last xs

abbrev pub audio_sent : String → Output → List Outbound
audio_sent r s = audio_of r none s.outbound

-- A message without audio.
abbrev is_control : Outbound → Bool
is_control (audio_chunk c epoch) = false
is_control (audio_bytes bytes) = false
is_control _ = true

audio_of-control :
    (r : String) (last : Option AudioChunk) (y : Outbound)
    → is_control y ≡ true
    → audio_of r last (y ∷ []) ≡ []
audio_of-control r last (audio_chunk c epoch) h = cc
audio_of-control r last (audio_bytes bytes) h = cc
audio_of-control r last _ h = refl

-- What is queued after messages without audio of the response adds none.
audio_of-append :
    (r : String) (last : Option AudioChunk) (xs ys : List Outbound)
    → ((other : Option AudioChunk) → audio_of r other ys ≡ [])
    → audio_of r last (xs ++ ys) ≡ audio_of r last xs
audio_of-append r last [] ys h = h last
audio_of-append r last (audio_chunk c epoch ∷ xs) ys h = elim (Bool-cases (c.response_id == r)) [
  | inl same ↦ rw same (ap (λ zs. audio_chunk c epoch ∷ zs) (audio_of-append r none xs ys h))
  | inr other ↦ rw other (audio_of-append r (some c) xs ys h)
]
audio_of-append r last (audio_bytes bytes ∷ xs) ys h = elim (Bool-cases (is_announced last bytes)) [
  | inl same ↦ rw same (audio_of-append r none xs ys h)
  | inr other ↦ rw other (ap (λ zs. audio_bytes bytes ∷ zs) (audio_of-append r none xs ys h))
]
audio_of-append r last (playback_duck q onset e ∷ xs) ys h = audio_of-append r last xs ys h
audio_of-append r last (playback_resume q onset e ∷ xs) ys h = audio_of-append r last xs ys h
audio_of-append r last (invalidate_playback q onset e ∷ xs) ys h = audio_of-append r last xs ys h
audio_of-append r last (cancel_audio k ∷ xs) ys h = audio_of-append r last xs ys h

-- A message without audio at the end of the queue.
put_control :
    (r : String) (xs : List Outbound) (y : Outbound)
    → is_control y ≡ true
    → audio_of r none (xs ++ (y ∷ [])) ≡ audio_of r none xs
put_control r xs y h = audio_of-append r none xs (y ∷ []) (λ last. audio_of-control r last y h)

-- A chunk of another response and its bytes.
other_chunk :
    (r : String) (c : AudioChunk) (epoch : ℕ) (last : Option AudioChunk)
    → (c.response_id == r) ≡ false
    → audio_of r last (audio_chunk c epoch ∷ (audio_bytes c.frame.pcm16 ∷ [])) ≡ []
other_chunk r c epoch last h =
    let same : list_eq c.frame.pcm16 c.frame.pcm16 ≡ true =
      (list_eq_iff c.frame.pcm16 c.frame.pcm16).1 refl in
    rw (h, same) refl

put_chunk :
    (r : String) (xs : List Outbound) (c : AudioChunk) (epoch : ℕ)
    → (c.response_id == r) ≡ false
    → audio_of r none ((xs ++ (audio_chunk c epoch ∷ [])) ++ (audio_bytes c.frame.pcm16 ∷ []))
      ≡ audio_of r none xs
put_chunk r xs c epoch h =
    ap (audio_of r none) (append_step xs (audio_chunk c epoch) (audio_bytes c.frame.pcm16 ∷ []))
    ∙ audio_of-append r none xs (audio_chunk c epoch ∷ (audio_bytes c.frame.pcm16 ∷ []))
        (λ last. other_chunk r c epoch last h)

-- The response stays invalidated and no audio of it is added.
abbrev pub Quiet : String → Output → Output → Type 0
Quiet r s s' = (is_invalidated r s' ≡ true) × (audio_sent r s' ≡ audio_sent r s)

other_response :
    (r q : String) (s : Output)
    → is_invalidated r s ≡ true
    → is_invalidated q s ≡ false
    → (q == r) ≡ false
other_response r q s h e = elim (Bool-cases (q == r)) [
  | inr other ↦ other
  | inl same ↦ let i = ap (λ x. is_invalidated x s) ((string_instance.same_iff q r).0 same) in cc
]

soft_duck-Quiet :
    (r q : String) (onset : ℤ) (s : Output)
    → is_invalidated r s ≡ true
    → Quiet r s (soft_duck q onset s).1
unfolding soft_duck
soft_duck-Quiet r q onset s h = elim (Bool-cases (is_invalidated q s)) [
  | inl e ↦ rw (e, soft_duck) (h, refl)
  | inr e ↦
      rw (e, soft_duck) (h, put_control r s.outbound (playback_duck q onset s.playback_epoch) refl)
]

resume_playback-Quiet :
    (r q : String) (onset : ℤ) (s : Output)
    → is_invalidated r s ≡ true
    → Quiet r s (resume_playback q onset s).1
unfolding resume_playback
resume_playback-Quiet r q onset s h = elim (Bool-cases (is_invalidated q s)) [
  | inl e ↦ rw (e, resume_playback) (h, refl)
  | inr e ↦
      rw (e, resume_playback)
        (h, put_control r s.outbound (playback_resume q onset s.playback_epoch) refl)
]

still_invalidated :
    (r q : String) (s : Output)
    → is_invalidated r s ≡ true
    → is_invalidated r (invalidated_output q s) ≡ true
still_invalidated r q s h = elim (Bool-cases (q == r)) [
  | inl e ↦ ground arith
  | inr e ↦ ground arith
]

invalidate_response-Quiet :
    (r q : String) (onset : ℤ) (s : Output)
    → is_invalidated r s ≡ true
    → Quiet r s (invalidate_response q onset s).1
unfolding invalidate_response
invalidate_response-Quiet r q onset s h = elim (Bool-cases (is_invalidated q s)) [
  | inl e ↦ rw (e, invalidate_response) (h, refl)
  | inr e ↦
      rw (e, invalidate_response)
        (
          still_invalidated r q s h,
          put_control r s.outbound (invalidate_playback q onset (s.playback_epoch + 1)) refl,
        )
]

begin_play-Quiet :
    (r : String) (now_ns : ℤ) (c : AudioChunk) (s : Output)
    → is_invalidated r s ≡ true
    → Quiet r s (begin_play now_ns c s).1
unfolding begin_play
begin_play-Quiet r now_ns c s h = elim (Bool-cases (is_invalidated c.response_id s)) [
  | inl muted ↦ elim (Result-cases (make_receipt (silent_receipt now_ns c))) [
    | inl (p, e) ↦ rw (muted, e, begin_play) (h, refl)
    | inr (x, e) ↦ rw (muted, e, begin_play) (h, refl)
  ]
  | inr open_response ↦ elim (Bool-cases (is_done (lookup c.chunk_id s.pending))) [
    | inl twice ↦ rw (open_response, twice, begin_play) (h, refl)
    | inr fresh ↦
        rw (open_response, fresh, begin_play)
          (
            h,
            put_chunk r s.outbound c s.playback_epoch
                (other_response r c.response_id s h open_response),
          )
  ]
]

module _ (float_of_int : ℤ → Result Float) where
  acknowledge-Quiet :
      (r : String) (now_ns : ℤ) (m : Message) (s : Output)
      → is_invalidated r s ≡ true
      → Quiet r s (acknowledge float_of_int now_ns m s).1
  unfolding acknowledge
  acknowledge-Quiet r now_ns m s h = elim (Option-cases (get_text "chunk_id" m)) [
    | inl unnamed ↦ rw (unnamed, acknowledge) (h, refl)
    | inr (k, named) ↦ elim (Option-cases (lookup k s.pending)) [
      | inl unknown ↦ rw (named, unknown, acknowledge) (h, refl)
      | inr (p, known) ↦ rw (named, known, acknowledge) (h, refl)
    ]
  ]

  pub after_output_call-Quiet :
      (r : String) (c : OutputCall) (s : Output)
      → is_invalidated r s ≡ true
      → Quiet r s (after_output_call float_of_int c s)
  unfolding after_output_call end_play disconnect
  after_output_call-Quiet r (call_duck q onset) s h = soft_duck-Quiet r q onset s h
  after_output_call-Quiet r (call_resume q onset) s h = resume_playback-Quiet r q onset s h
  after_output_call-Quiet r (call_invalidate q onset) s h = invalidate_response-Quiet r q onset s h
  after_output_call-Quiet r (call_begin now_ns c) s h = begin_play-Quiet r now_ns c s h
  after_output_call-Quiet r (call_cancel k) s h =
      (h, put_control r s.outbound (cancel_audio k) refl)
  after_output_call-Quiet r (call_acknowledge now_ns m) s h = acknowledge-Quiet r now_ns m s h
  after_output_call-Quiet r (call_end k) s h = (h, refl)
  after_output_call-Quiet r (call_disconnect now_ns) s h = (h, refl)

  -- Once a response is invalidated it stays so, and no call, message or step of `play` adds audio of it
  -- to what is sent to the browser: neither the announcement of a chunk of it, nor bytes, for all bytes
  -- that are added are those of a chunk of another response that was announced right before.
  pub after_output_calls-Quiet :
      (r : String) (cs : List OutputCall) (s : Output)
      → is_invalidated r s ≡ true
      → Quiet r s (after_output_calls float_of_int cs s)
  unfolding after_output_calls
  after_output_calls-Quiet r [] s h = (h, refl)
  after_output_calls-Quiet r (c ∷ cs) s h =
      let (still, same) = after_output_call-Quiet r c s h in
      let (always, equal) =
        after_output_calls-Quiet r cs (after_output_call float_of_int c s) still in
      (always, equal ∙ same)
