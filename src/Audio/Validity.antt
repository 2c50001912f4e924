-- ===== src/Audio/Validity.antt =====
-- The invariant of the played-audio ledger (src/humanflow/audio/ledger.py), and the updates of single
-- entries on it.
use humanflow.Shared.{
  String, ◌≡◌, false, Option, none, some, arith, nat_instance, string_instance, ℤ, pos, ◌≤ℤ◌,
  int_eq_iff, int_instance,
}
use humanflow.Shared.Dict.{keys, Holds}
use humanflow.Shared.Result.{Passes-of_ok, checked, ok}
use humanflow.Audio.Models.{receipt_checks, make_receipt, PlaybackReceipt}
use humanflow.Audio.Ledger.{
  settle_entry, generated, queued, playing, played, cancelled, playback_unconfirmed, queue_entry,
  start_entry, LedgerState, lose_entry, cancel_entry, Ledger, Entry,
}

-- What an entry may hold in each state.
abbrev pub Agrees : Entry → LedgerState → Option ℤ → Option ℤ → Option ℤ → Option ℤ → Type 0
Agrees e generated none none none none = e.played_samples ≡ pos 0
Agrees e queued (some q) none none none = (e.played_samples ≡ pos 0) × (e.generated_ns ≤ℤ q)
Agrees e playing (some q) (some s) none none =
    (e.played_samples ≡ pos 0) × (e.generated_ns ≤ℤ q) × (q ≤ℤ s)
Agrees e playback_unconfirmed (some q) (some s) none none =
    (e.played_samples ≡ pos 0) × (e.generated_ns ≤ℤ q) × (q ≤ℤ s)
Agrees e played (some q) (some s) (some t) none =
    (e.played_samples ≡ e.total_samples) × (e.generated_ns ≤ℤ q) × (q ≤ℤ s) × (s ≤ℤ t)
Agrees e cancelled q none none (some c) = (e.played_samples ≡ pos 0) × (e.generated_ns ≤ℤ c)
Agrees e cancelled (some q) (some s) (some t) (some c) =
    (pos 0 ≤ℤ e.played_samples)
    × (e.played_samples ≤ℤ e.total_samples)
    × (e.generated_ns ≤ℤ q)
    × (q ≤ℤ s)
    × (s ≤ℤ t)
    × (c ≡ t)
Agrees e _ _ _ _ _ = ⊥

pub record EntryValid (e : Entry) : Type 0 where
  pub sized : pos 0 ≤ℤ e.total_samples
  pub clocked : pos 0 ≤ℤ e.generated_ns
  pub agrees :
      Agrees e e.state e.queued_ns e.playback_started_ns e.playback_stopped_ns e.cancelled_ns

pub record IsValid (l : Ledger) : Type 0 where
  pub ordered : l.order ≡ keys l.entries
  pub entries_lem : Holds EntryValid l.entries

pub queue_entry-EntryValid :
    (t : ℤ) (e e' : Entry) → EntryValid e → queue_entry t e e.state ≡ ok e' → EntryValid e'
queue_entry-EntryValid t e e' v q = ground arith

pub start_entry-EntryValid :
    (t : ℤ) (e e' : Entry)
    → EntryValid e
    → start_entry t e e.state e.queued_ns ≡ ok e'
    → EntryValid e'
start_entry-EntryValid t e e' v q = ground arith

pub cancel_entry-EntryValid :
    (r : String) (t : ℤ) (e e' : Entry) → EntryValid e → cancel_entry r t e ≡ ok e' → EntryValid e'
cancel_entry-EntryValid r t e e' v q = ground arith

pub lose_entry-EntryValid : (r : String) (e : Entry) → EntryValid e → EntryValid (lose_entry r e).0
lose_entry-EntryValid r e v = ground arith

-- What the checks of a receipt give.
pub record Consistent (r : PlaybackReceipt) : Type 0 where
  pub low : pos 0 ≤ℤ r.played_samples
  pub high : r.played_samples ≤ℤ r.requested_samples
  pub forward : r.playback_started_ns ≤ℤ r.playback_stopped_ns
  pub whole : r.cancelled ≡ false → r.played_samples ≡ r.requested_samples

pub receipt-Consistent : (r : PlaybackReceipt) → make_receipt r ≡ ok r → Consistent r
unfolding make_receipt
receipt-Consistent r h =
    let p = (Passes-of_ok (receipt_checks r) r r h).0 in
    let third = p.1.1.0 in
    let fifth = p.1.1.1.1.0 in
    let sixth = p.1.1.1.1.1.0 in
    record {
      low = ground (arith, third);
      high = ground (arith, third);
      forward = ground (arith, fifth);
      whole = ground (arith, sixth, int_eq_iff r.played_samples r.requested_samples);
    }

pub settle_entry-EntryValid :
    (r : PlaybackReceipt) (e e' : Entry)
    → Consistent r
    → EntryValid e
    → settle_entry r e e.state ≡ ok e'
    → EntryValid e'
unfolding checked
settle_entry-EntryValid r e e' p v q = ground arith
