-- ===== src/Audio/Ledger.antt =====
-- `PlayedAudioLedger` of src/humanflow/audio/ledger.py. Each method holds the ledger's lock for its
-- whole body, so it is one step. An update that leaves the entry alone writes it back as it is.
use humanflow.Shared.{
  String, Bool, true, false, not, ◌&&◌, ◌||◌, Option, none, some, List, [], ◌∷◌, ◌++◌,
  if◌then◌else◌, ◌==◌, nat_instance, string_instance, ℤ, pos, ltb_ℤ, int_instance,
}
use humanflow.Shared.Text.{strip}
use humanflow.Shared.Dict.{Dict, lookup, insert}
use humanflow.Shared.Result.{Result, ok, err, value_error, key_error, checked}
use humanflow.Shared.Action.{Action, ◌>>=◌, ◌>>◌, raise_when, modify, gets, lift, pure}
use humanflow.Audio.Models.{AudioChunk, PlaybackReceipt, samples_per_channel}

pub data LedgerState : Type 0 where
  generated queued playing played cancelled playback_unconfirmed : LedgerState

pub record Entry : Type 0 where
  pub chunk_id : String
  pub response_id : String
  pub text : String
  pub semantic_id : String
  pub semantic_text : String
  pub total_samples : ℤ
  pub played_samples : ℤ
  pub sample_rate_hz : ℤ
  pub generated_ns : ℤ
  pub queued_ns : Option ℤ
  pub playback_started_ns : Option ℤ
  pub playback_stopped_ns : Option ℤ
  pub cancelled_ns : Option ℤ
  pub state : LedgerState

unfoldable pub fully_delivered : Entry → Bool
fully_delivered e = e.played_samples == e.total_samples

pub record Ledger : Type 0 where
  pub entries : Dict Entry
  pub order : List String

unfoldable pub empty_ledger : Ledger
empty_ledger = record { entries = []; order = [] }

abbrev pub found : Option Entry → Result Entry
found none = err key_error
found (some e) = ok e

-- `self._require(chunk_id)`
abbrev pub require : String → Action Ledger Entry
require chunk_id l = (found (lookup chunk_id l.entries), l)

-- `self._entries[chunk_id] = entry`
abbrev pub store : String → Entry → Ledger → Ledger
store chunk_id e l = record l { entries = insert chunk_id e l.entries }

-- Look an entry up, compute its update, which may raise, and write it.
unfoldable pub revise : String → (Entry → Result Entry) → Action Ledger (Unit {0})
revise chunk_id f = do e ← require chunk_id; e' ← lift (f e); modify (store chunk_id e')

-- `chunk_id in self._entries`
abbrev pub is_known : String → Ledger → Bool
is_known chunk_id l = elim (lookup chunk_id l.entries) [ none ↦ false | some _ ↦ true ]

abbrev pub new_entry : AudioChunk → ℤ → Entry
new_entry c generated_ns = record {
  chunk_id = c.chunk_id;
  response_id = c.response_id;
  text = strip c.text;
  semantic_id = c.semantic_id;
  semantic_text = c.semantic_text;
  total_samples = pos (samples_per_channel c.frame);
  played_samples = pos 0;
  sample_rate_hz = c.frame.sample_rate_hz;
  generated_ns = generated_ns;
  queued_ns = none;
  playback_started_ns = none;
  playback_stopped_ns = none;
  cancelled_ns = none;
  state = generated;
}

unfoldable pub register_generated : AudioChunk → ℤ → Action Ledger (Unit {0})
register_generated c generated_ns = do
  raise_when (ltb_ℤ generated_ns (pos 0)) (value_error "generated_ns must be non-negative")
  known ← gets (is_known c.chunk_id)
  raise_when known (value_error "duplicate chunk_id")
  modify (store c.chunk_id (new_entry c generated_ns))
  modify (λ l. record l { order = l.order ++ (c.chunk_id ∷ []) })

-- The update of `mark_queued` on the entry's state.
abbrev pub queue_entry : ℤ → Entry → LedgerState → Result Entry
queue_entry queued_ns e generated =
    if ltb_ℤ queued_ns e.generated_ns
    then err (value_error "queued_ns must not precede generated_ns")
    else ok (record e { queued_ns = some queued_ns; state = queued })
queue_entry queued_ns e _ = err (value_error "cannot queue chunk in state")

unfoldable pub mark_queued : String → ℤ → Action Ledger (Unit {0})
mark_queued chunk_id queued_ns = revise chunk_id (λ e. queue_entry queued_ns e e.state)

-- The update of `mark_playback_started`; a cancelled entry is left as it is.
abbrev pub start_entry : ℤ → Entry → LedgerState → Option ℤ → Result Entry
start_entry started_ns e cancelled _ = ok e
start_entry started_ns e queued (some queued_ns) =
    if ltb_ℤ started_ns queued_ns
    then err (value_error "started_ns must not precede queued_ns")
    else ok (record e { playback_started_ns = some started_ns; state = playing })
start_entry started_ns e _ _ = err (value_error "cannot start chunk in state")

unfoldable pub mark_playback_started : String → ℤ → Action Ledger (Unit {0})
mark_playback_started chunk_id started_ns =
    revise chunk_id (λ e. start_entry started_ns e e.state e.queued_ns)

-- `receipt.playback_started_ns != entry.playback_started_ns`
abbrev pub started_differs : ℤ → Option ℤ → Bool
started_differs t none = true
started_differs t (some s) = not (t == s)

abbrev pub played_entry : PlaybackReceipt → Entry → Entry
played_entry r e = record e {
  played_samples = r.played_samples;
  playback_stopped_ns = some r.playback_stopped_ns;
  cancelled_ns = if r.cancelled then some r.playback_stopped_ns else none;
  state = if r.cancelled then cancelled else played;
}

-- The update of `record_playback`.
abbrev pub settle_entry : PlaybackReceipt → Entry → LedgerState → Result Entry
settle_entry r e playing =
    checked
      ((
        not (r.requested_samples == e.total_samples),
        value_error "playback receipt sample count does not match ledger",
      )
        ∷ (
          started_differs r.playback_started_ns e.playback_started_ns,
          value_error "playback receipt start does not match ledger",
        )
        ∷ [])
      (played_entry r e)
settle_entry r e cancelled =
    if r.cancelled && r.played_samples == pos 0
    then ok e
    else err (value_error "cannot record playback in state")
settle_entry r e _ = err (value_error "cannot record playback in state")

unfoldable pub record_playback : PlaybackReceipt → Action Ledger (Unit {0})
record_playback r = revise r.chunk_id (λ e. settle_entry r e e.state)

-- The update of one entry in the loop of `cancel_unplayed`.
abbrev pub is_unplayed : LedgerState → Bool
is_unplayed generated = true
is_unplayed queued = true
is_unplayed _ = false

abbrev pub cancel_entry : String → ℤ → Entry → Result Entry
cancel_entry response_id cancelled_ns e =
    if e.response_id == response_id && is_unplayed e.state
    then (if ltb_ℤ cancelled_ns e.generated_ns
        then err (value_error "cancelled_ns must not precede generated_ns")
        else ok (record e { cancelled_ns = some cancelled_ns; state = cancelled }))
    else ok e

unfoldable pub cancel_one : String → ℤ → String → Action Ledger (Unit {0})
cancel_one response_id cancelled_ns chunk_id =
    revise chunk_id (cancel_entry response_id cancelled_ns)

unfoldable pub cancel_each : String → ℤ → List String → Action Ledger (Unit {0})
cancel_each response_id cancelled_ns [] = pure tt
cancel_each response_id cancelled_ns (c ∷ cs) =
    let rest = cancel_each response_id cancelled_ns cs in
    cancel_one response_id cancelled_ns c >> rest

unfoldable pub cancel_unplayed : String → ℤ → Action Ledger (Unit {0})
cancel_unplayed response_id cancelled_ns l = cancel_each response_id cancelled_ns l.order l

-- One round of `mark_playback_unconfirmed`: the entry, and whether it changed.
abbrev pub is_playing : LedgerState → Bool
is_playing playing = true
is_playing _ = false

abbrev pub lose_entry : String → Entry → Entry × Bool
lose_entry response_id e =
    if e.response_id == response_id && is_playing e.state
    then (record e { state = playback_unconfirmed }, true)
    else (e, false)

unfoldable pub lose_each : String → List String → Bool → Action Ledger Bool
lose_each response_id [] changed = pure changed
lose_each response_id (c ∷ cs) changed = do
  e ← require c
  modify (store c (lose_entry response_id e).0)
  lose_each response_id cs (changed || (lose_entry response_id e).1)

unfoldable pub mark_playback_unconfirmed : String → Action Ledger Bool
mark_playback_unconfirmed response_id l = lose_each response_id l.order false l

-- The calls of the ledger's methods that change it.
pub data LedgerCall : Type 0 where
  call_register : AudioChunk → ℤ → LedgerCall
  call_queued : String → ℤ → LedgerCall
  call_started : String → ℤ → LedgerCall
  call_playback : PlaybackReceipt → LedgerCall
  call_cancel : String → ℤ → LedgerCall
  call_unconfirmed : String → LedgerCall

-- The ledger after a call, returned or raised.
unfoldable pub after_ledger_call : LedgerCall → Ledger → Ledger
after_ledger_call (call_register c t) l = (register_generated c t l).1
after_ledger_call (call_queued c t) l = (mark_queued c t l).1
after_ledger_call (call_started c t) l = (mark_playback_started c t l).1
after_ledger_call (call_playback r) l = (record_playback r l).1
after_ledger_call (call_cancel r t) l = (cancel_unplayed r t l).1
after_ledger_call (call_unconfirmed r) l = (mark_playback_unconfirmed r l).1
