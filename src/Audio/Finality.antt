-- ===== src/Audio/Finality.antt =====
-- Entries of src/humanflow/audio/ledger.py that are played, cancelled or unconfirmed, under later calls.
use humanflow.Audio.Preservation.{
  revise_err, revise_ok, lose_each_known, lose_each_unknown, revise_unknown,
}
use humanflow.Shared.{
  String, ◌≡◌, ap, ◌∙◌, inl, inr, Bool, true, false, ◌||◌, some, List, [], ◌∷◌, arith, eq_iff,
  Bool-cases, Option-cases, ◌==◌, nat_instance, string_instance, ℤ, int_instance,
}
use humanflow.Shared.Dict.{lookup-insert, lookup}
use humanflow.Shared.Result.{Result-cases, Result, ok}
use humanflow.Audio.Models.{AudioChunk, PlaybackReceipt}
use humanflow.Audio.Ledger.{
  new_entry, LedgerCall, mark_playback_unconfirmed, cancel_unplayed, record_playback,
  playback_unconfirmed, mark_playback_started, cancelled, cancel_one, mark_queued, played,
  lose_entry, cancel_each, cancel_entry, settle_entry, store, queue_entry, revise, LedgerState,
  after_ledger_call, start_entry, lose_each, register_generated, Ledger, Entry,
}

abbrev pub is_final : LedgerState → Bool
is_final played = true
is_final cancelled = true
is_final playback_unconfirmed = true
is_final _ = false

-- The entry of `j` is `e`.
abbrev pub HasEntry : String → Entry → Ledger → Type 0
HasEntry j e l = lookup j l.entries ≡ some e

store-HasEntry :
    (k j : String) (e e' d : Entry) (l : Ledger)
    → HasEntry k e l
    → HasEntry j d l
    → (e ≡ d → e' ≡ d)
    → HasEntry j d (store k e' l)
store-HasEntry k j e e' d l he hd same = elim (Bool-cases (k == j)) [
  | inl eq ↦
      let kj : k ≡ j = (eq_iff k j).0 eq in
      let e_d : e ≡ d = ground (arith, rw kj at he) in
      rw (lookup-insert k j e' l.entries, eq) (ap some (same e_d))
  | inr ne ↦ rw (lookup-insert k j e' l.entries, ne) hd
]

-- An update that leaves final entries alone never changes one.
revise-HasEntry :
    (k j : String) (f : Entry → Result Entry) (d : Entry) (l : Ledger)
    → ((e' : Entry) → f d ≡ ok e' → e' ≡ d)
    → HasEntry j d l
    → HasEntry j d (revise k f l).1
revise-HasEntry k j f d l keep h = elim (Option-cases (lookup k l.entries)) [
  | inl unknown ↦ rw (revise_unknown k f l unknown) h
  | inr (e, known) ↦ elim (Result-cases (f e)) [
    | inl (e', q) ↦
        rw (revise_ok k f l e e' known q)
          (store-HasEntry k j e e' d l known h (λ same. keep e' (rw same at q)))
    | inr (x, q) ↦ rw (revise_err k f l e x known q) h
  ]
]

queue_entry_final :
    (t : ℤ) (d e' : Entry) → is_final d.state ≡ true → queue_entry t d d.state ≡ ok e' → e' ≡ d
queue_entry_final t d e' f q = ground arith

start_entry_final :
    (t : ℤ) (d e' : Entry)
    → is_final d.state ≡ true
    → start_entry t d d.state d.queued_ns ≡ ok e'
    → e' ≡ d
start_entry_final t d e' f q = ground arith

settle_entry_final :
    (r : PlaybackReceipt) (d e' : Entry)
    → is_final d.state ≡ true
    → settle_entry r d d.state ≡ ok e'
    → e' ≡ d
settle_entry_final r d e' f q = ground arith

cancel_entry_final :
    (r : String) (t : ℤ) (d e' : Entry)
    → is_final d.state ≡ true
    → cancel_entry r t d ≡ ok e'
    → e' ≡ d
cancel_entry_final r t d e' f q = ground arith

lose_entry_final : (r : String) (d : Entry) → is_final d.state ≡ true → (lose_entry r d).0 ≡ d
lose_entry_final r d f = ground arith

cancel_each_final :
    (r : String) (t : ℤ) (cs : List String) (j : String) (d : Entry) (l : Ledger)
    → is_final d.state ≡ true
    → HasEntry j d l
    → HasEntry j d (cancel_each r t cs l).1
unfolding cancel_each cancel_one
cancel_each_final r t [] j d l f h = h
cancel_each_final r t (c ∷ cs) j d l f h =
    let kept =
      revise-HasEntry c j (cancel_entry r t) d l (λ e' q. cancel_entry_final r t d e' f q) h in
    let rest = cancel_each_final r t cs j d (revise c (cancel_entry r t) l).1 f kept in ground arith

lose_each_final :
    (r : String) (cs : List String) (b : Bool) (j : String) (d : Entry) (l : Ledger)
    → is_final d.state ≡ true
    → HasEntry j d l
    → HasEntry j d (lose_each r cs b l).1
lose_each_final r [] b j d l f h = unfold lose_each in h
lose_each_final r (c ∷ cs) b j d l f h = elim (Option-cases (lookup c l.entries)) [
  | inl unknown ↦ rw (lose_each_unknown r c cs b l unknown) h
  | inr (e, known) ↦ rw (lose_each_known r c cs b l e known) (
      lose_each_final r cs (b || (lose_entry r e).1) j d (store c (lose_entry r e).0 l) f (
        store-HasEntry c j e (lose_entry r e).0 d l known h
          (λ same. ap (λ x. (lose_entry r x).0) same ∙ lose_entry_final r d f)))
]

register_final :
    (c : AudioChunk) (t : ℤ) (j : String) (d : Entry) (l : Ledger)
    → HasEntry j d l
    → HasEntry j d (register_generated c t l).1
unfolding register_generated
register_final c t j d l h =
    ground (arith, lookup-insert c.chunk_id j (new_entry c t) l.entries, eq_iff c.chunk_id j)

-- An entry that is played, cancelled or unconfirmed stays exactly as it is under every call of the
-- ledger's methods, whatever the arguments, and whether the call returns or raises.
pub after_ledger_call_final :
    (c : LedgerCall) (j : String) (d : Entry) (l : Ledger)
    → is_final d.state ≡ true
    → HasEntry j d l
    → HasEntry j d (after_ledger_call c l)
unfolding after_ledger_call mark_queued mark_playback_started record_playback cancel_unplayed
    mark_playback_unconfirmed
after_ledger_call_final (LedgerCall.call_register c t) j d l f h = register_final c t j d l h
after_ledger_call_final (LedgerCall.call_queued c t) j d l f h =
    revise-HasEntry c j (λ e. queue_entry t e e.state) d l (λ e'. queue_entry_final t d e' f) h
after_ledger_call_final (LedgerCall.call_started c t) j d l f h =
    revise-HasEntry c j (λ e. start_entry t e e.state e.queued_ns) d l
      (λ e'. start_entry_final t d e' f) h
after_ledger_call_final (LedgerCall.call_playback r) j d l f h =
    revise-HasEntry r.chunk_id j (λ e. settle_entry r e e.state) d l
      (λ e'. settle_entry_final r d e' f) h
after_ledger_call_final (LedgerCall.call_cancel r t) j d l f h =
    cancel_each_final r t l.order j d l f h
after_ledger_call_final (LedgerCall.call_unconfirmed r) j d l f h =
    lose_each_final r l.order false j d l f h
