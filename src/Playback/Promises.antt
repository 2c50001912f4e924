-- ===== src/Playback/Promises.antt =====
-- The promises of `BrowserAcknowledgedAudioOutput` (src/humanflow/web/transport.py) over any sequence of
-- calls, messages of the browser and steps of `play`.
use humanflow.Shared.Result.{Result-cases, Result}
use humanflow.Audio.Models.{samples_per_channel, make_receipt, AudioChunk}
use humanflow.Shared.Float.{Float}
use humanflow.Playback.Pending.{
  release_pending, new_pending, is_done, get_text, Message, acknowledged, set_once, Pending,
}
use humanflow.Playback.Branches.{
  started_pending-Keeps, stopped_pending-Keeps, completed_pending-Keeps,
}
use humanflow.Playback.Answers.{new_pending-IsAnswered, IsAnswered, Within}
use humanflow.Shared.{
  ℕ, String, ◌≡◌, refl, sym, inl, inr, Bool, true, not, ◌&&◌, Option, none, some, List, [], ◌∷◌,
  arith, Bool-cases, Option-cases, ◌==◌, nat_instance, string_instance, ℤ, pos, int_instance,
}
use mathlib.Core.Path.{subst}
use humanflow.Shared.Dict.{Holds-lookup, Holds-insert, lookup, Holds, Dict, erase}
use humanflow.Playback.Browser.{
  disconnect, silent_receipt, end_play, invalidate_response, is_invalidated, resume_playback,
  soft_duck, OutputCall, Output, acknowledge, after_output_calls, after_output_call, release_all,
  begin_play, call_duck, call_resume, call_invalidate, call_begin, call_cancel, call_acknowledge,
  call_end, call_disconnect,
}

begun-IsAnswered :
    (now_ns : ℤ) (p : Pending)
    → IsAnswered p
    → IsAnswered (record p { started = set_once now_ns p.started })
begun-IsAnswered now_ns p h = record {
  within = h.within;
  measures = h.measures;
  underruns = h.underruns;
}

set_once-Within :
    (total : ℕ) (now_ns : ℤ) (o : Option (ℤ × ℤ × Bool))
    → Within total o
    → Within total (set_once (now_ns, pos 0, true) o)
set_once-Within total now_ns none h = (refl, ground arith, inl refl)
set_once-Within total now_ns (some (t, n, c)) h = h

release_pending-IsAnswered :
    (now_ns : ℤ) (p : Pending) → IsAnswered p → IsAnswered (release_pending now_ns p)
unfolding release_pending
release_pending-IsAnswered now_ns p h = record {
  within = set_once-Within (samples_per_channel p.chunk.frame) now_ns p.stopped h.within;
  measures = h.measures;
  underruns = h.underruns;
}

release_all-IsAnswered :
    (now_ns : ℤ) (d : Dict Pending) → Holds IsAnswered d → Holds IsAnswered (release_all now_ns d)
unfolding release_all
release_all-IsAnswered now_ns [] h = tt
release_all-IsAnswered now_ns ((k, p) ∷ d) h =
    (release_pending-IsAnswered now_ns p h.0, release_all-IsAnswered now_ns d h.1)

Holds-erase : (k : String) (d : Dict Pending) → Holds IsAnswered d → Holds IsAnswered (erase k d)
unfolding erase
Holds-erase k [] h = tt
Holds-erase k ((j, p) ∷ d) h = elim (Bool-cases (j == k)) [
  | inl same ↦ rw same (Holds-erase k d h.1)
  | inr other ↦ rw other (h.0, Holds-erase k d h.1)
]

begin_play-IsAnswered :
    (now_ns : ℤ) (c : AudioChunk) (s : Output)
    → Holds IsAnswered s.pending
    → Holds IsAnswered (begin_play now_ns c s).1.pending
unfolding begin_play
begin_play-IsAnswered now_ns c s h = elim (Bool-cases (is_invalidated c.response_id s)) [
  | inl muted ↦ elim (Result-cases (make_receipt (silent_receipt now_ns c))) [
    | inl (r, e) ↦ rw (muted, e) h
    | inr (x, e) ↦ rw (muted, e) h
  ]
  | inr open_response ↦ elim (Bool-cases (is_done (lookup c.chunk_id s.pending))) [
    | inl twice ↦ rw (open_response, twice) h
    | inr fresh ↦
        rw (open_response, fresh)
          (Holds-insert IsAnswered c.chunk_id (new_pending c) s.pending (new_pending-IsAnswered c)
            h)
  ]
]

soft_duck_pending :
    (r : String) (onset : ℤ) (s : Output) → (soft_duck r onset s).1.pending ≡ s.pending
unfolding soft_duck
soft_duck_pending r onset s = elim (Bool-cases (is_invalidated r s)) [
  | inl e ↦ rw (e, soft_duck) refl
  | inr e ↦ rw (e, soft_duck) refl
]

resume_playback_pending :
    (r : String) (onset : ℤ) (s : Output) → (resume_playback r onset s).1.pending ≡ s.pending
unfolding resume_playback
resume_playback_pending r onset s = elim (Bool-cases (is_invalidated r s)) [
  | inl e ↦ rw (e, resume_playback) refl
  | inr e ↦ rw (e, resume_playback) refl
]

invalidate_response_pending :
    (r : String) (onset : ℤ) (s : Output) → (invalidate_response r onset s).1.pending ≡ s.pending
unfolding invalidate_response
invalidate_response_pending r onset s = elim (Bool-cases (is_invalidated r s)) [
  | inl e ↦ rw (e, invalidate_response) refl
  | inr e ↦ rw (e, invalidate_response) refl
]

module _ (float_of_int : ℤ → Result Float) where
  acknowledged-IsAnswered :
      (now_ns : ℤ) (m : Message) (kind : Option String) (p : Pending)
      → IsAnswered p
      → IsAnswered (acknowledged float_of_int now_ns m kind p).1
  unfolding acknowledged
  acknowledged-IsAnswered now_ns m none p h = h
  acknowledged-IsAnswered now_ns m (some kind) p h =
      let b = begun-IsAnswered now_ns p h in
      elim (Bool-cases (kind == "playback_started" && not (is_done p.started))) [
        | inl starts ↦ rw starts ((started_pending-Keeps float_of_int now_ns m).after p h)
        | inr later ↦ elim (Bool-cases (kind == "playback_completed")) [
          | inl completes ↦ elim (Bool-cases (is_done p.stopped)) [
            | inl again ↦ rw (later, completes, again) b
            | inr first ↦
                rw (later, completes, first)
                  ((completed_pending-Keeps float_of_int now_ns m).after
                    (record p { started = set_once now_ns p.started }) b)
          ]
          | inr going ↦ elim (Bool-cases (kind == "playback_stopped")) [
            | inr unknown ↦ rw (later, going, unknown) h
            | inl stops ↦ elim (Bool-cases (is_done p.stopped)) [
              | inl again ↦ rw (later, going, stops, again) b
              | inr first ↦
                  rw (later, going, stops, first)
                    ((stopped_pending-Keeps float_of_int now_ns m).after
                      (record p { started = set_once now_ns p.started }) b)
            ]
          ]
        ]
      ]

  acknowledge-IsAnswered :
      (now_ns : ℤ) (m : Message) (s : Output)
      → Holds IsAnswered s.pending
      → Holds IsAnswered (acknowledge float_of_int now_ns m s).1.pending
  unfolding acknowledge
  acknowledge-IsAnswered now_ns m s h = elim (Option-cases (get_text "chunk_id" m)) [
    | inl unnamed ↦ rw (unnamed, acknowledge) h
    | inr (k, named) ↦ elim (Option-cases (lookup k s.pending)) [
      | inl unknown ↦ rw (named, unknown, acknowledge) h
      | inr (p, known) ↦
          rw (named, known, acknowledge)
            (Holds-insert IsAnswered k (acknowledged float_of_int now_ns m (get_text "type" m) p).1
              s.pending
              (acknowledged-IsAnswered now_ns m (get_text "type" m) p
                (Holds-lookup IsAnswered k p s.pending h known))
              h)
    ]
  ]

  -- Every pending playback stays answered within its bounds under every call.
  pub after_output_call-IsAnswered :
      (c : OutputCall) (s : Output)
      → Holds IsAnswered s.pending
      → Holds IsAnswered (after_output_call float_of_int c s).pending
  unfolding after_output_call end_play disconnect
  after_output_call-IsAnswered (call_duck r onset) s h =
      subst (Holds IsAnswered) (sym (soft_duck_pending r onset s)) h
  after_output_call-IsAnswered (call_resume r onset) s h =
      subst (Holds IsAnswered) (sym (resume_playback_pending r onset s)) h
  after_output_call-IsAnswered (call_invalidate r onset) s h =
      subst (Holds IsAnswered) (sym (invalidate_response_pending r onset s)) h
  after_output_call-IsAnswered (call_begin now_ns c) s h = begin_play-IsAnswered now_ns c s h
  after_output_call-IsAnswered (call_cancel k) s h = h
  after_output_call-IsAnswered (call_acknowledge now_ns m) s h = acknowledge-IsAnswered now_ns m s h
  after_output_call-IsAnswered (call_end k) s h = Holds-erase k s.pending h
  after_output_call-IsAnswered (call_disconnect now_ns) s h =
      release_all-IsAnswered now_ns s.pending h

  -- From any output whose pending playbacks are answered within bounds, a new one among them, any
  -- calls, messages and releases keep them so: the reported samples lie between zero and the samples of
  -- the chunk and are all of them where the playback was not cancelled, no measurement and no count of
  -- underruns is negative.
  pub after_output_calls-IsAnswered :
      (cs : List OutputCall) (s : Output)
      → Holds IsAnswered s.pending
      → Holds IsAnswered (after_output_calls float_of_int cs s).pending
  unfolding after_output_calls
  after_output_calls-IsAnswered [] s h = h
  after_output_calls-IsAnswered (c ∷ cs) s h =
      after_output_calls-IsAnswered cs (after_output_call float_of_int c s)
        (after_output_call-IsAnswered c s h)
