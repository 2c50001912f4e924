-- ===== src/Audio/Preservation.antt =====
-- The methods of the played-audio ledger (src/humanflow/audio/ledger.py) on its invariant.
use humanflow.Shared.{
  String, ◌≡◌, sym, ◌∙◌, inl, inr, Bool, false, ◌||◌, none, some, List, [], ◌∷◌, arith, Bool-cases,
  Option-cases, nat_instance, string_instance, ℤ, pos, ltb_ℤ, int_instance,
}
use humanflow.Shared.Dict.{Holds-insert, Holds-lookup, keys-insert_new, keys-insert_old, lookup}
use humanflow.Shared.Result.{Result-cases, Error, key_error, Result, ok, err}
use humanflow.Audio.Models.{make_receipt, AudioChunk}
use humanflow.Audio.Ledger.{
  call_unconfirmed, call_cancel, settle_entry, start_entry, call_started, queue_entry, call_queued,
  call_register, mark_playback_unconfirmed, cancel_unplayed, record_playback, cancel_entry,
  mark_playback_started, new_entry, cancel_one, call_playback, mark_queued, lose_entry,
  after_ledger_call, revise, store, cancel_each, lose_each, register_generated, LedgerCall, Ledger,
  Entry,
}
use humanflow.Audio.Validity.{
  receipt-Consistent, settle_entry-EntryValid, start_entry-EntryValid, queue_entry-EntryValid,
  cancel_entry-EntryValid, lose_entry-EntryValid, IsValid, EntryValid,
}

store-IsValid :
    (k : String) (e e' : Entry) (l : Ledger)
    → lookup k l.entries ≡ some e
    → EntryValid e'
    → IsValid l
    → IsValid (store k e' l)
store-IsValid k e e' l f v h = record {
  ordered = h.ordered ∙ sym (keys-insert_old k e' e l.entries f);
  entries_lem = Holds-insert EntryValid k e' l.entries v h.entries_lem;
}

module _ (k : String) (f : Entry → Result Entry) (l : Ledger) where
  pub revise_unknown : lookup k l.entries ≡ none → revise k f l ≡ (err key_error, l)
  unfolding revise
  revise_unknown h = ground arith

  pub revise_ok :
      (e e' : Entry)
      → lookup k l.entries ≡ some e
      → f e ≡ ok e'
      → revise k f l ≡ (ok tt, store k e' l)
  unfolding revise
  revise_ok e e' h q = ground arith

  pub revise_err :
      (e : Entry) (x : Error)
      → lookup k l.entries ≡ some e
      → f e ≡ err x
      → revise k f l ≡ (err x, l)
  unfolding revise
  revise_err e x h q = ground arith

-- `revise` keeps the invariant if its update keeps valid entries valid.
revise-IsValid :
    (k : String) (f : Entry → Result Entry) (l : Ledger)
    → ((e e' : Entry) → EntryValid e → f e ≡ ok e' → EntryValid e')
    → IsValid l
    → IsValid (revise k f l).1
revise-IsValid k f l keep h = elim (Option-cases (lookup k l.entries)) [
  | inl unknown ↦ rw (revise_unknown k f l unknown) h
  | inr (e, known) ↦ elim (Result-cases (f e)) [
    | inl (e', q) ↦ rw (revise_ok k f l e e' known q) (
        store-IsValid k e e' l known
          (keep e e' (Holds-lookup EntryValid k e l.entries h.entries_lem known) q) h)
    | inr (x, q) ↦ rw (revise_err k f l e x known q) h
  ]
]

register-IsValid :
    (c : AudioChunk) (t : ℤ) (l : Ledger) → IsValid l → IsValid (register_generated c t l).1
unfolding register_generated lookup
register-IsValid c t l h = elim (Bool-cases (ltb_ℤ t (pos 0))) [
  | inl early ↦ rw early h
  | inr later ↦ elim (Option-cases (lookup c.chunk_id l.entries)) [
    | inl fresh ↦
        rw (later, fresh)
          (record {
            ordered =
                rw (h.ordered) (sym (keys-insert_new c.chunk_id (new_entry c t) l.entries fresh));
            entries_lem =
                Holds-insert EntryValid c.chunk_id (new_entry c t) l.entries (ground arith)
                  h.entries_lem;
          })
    | inr (e, old) ↦ rw (later, old) h
  ]
]

cancel_each-IsValid :
    (r : String) (t : ℤ) (cs : List String) (l : Ledger)
    → IsValid l
    → IsValid (cancel_each r t cs l).1
unfolding cancel_each cancel_one
cancel_each-IsValid r t [] l h = h
cancel_each-IsValid r t (c ∷ cs) l h =
    let kept = revise-IsValid c (cancel_entry r t) l (cancel_entry-EntryValid r t) h in
    let rest = cancel_each-IsValid r t cs (revise c (cancel_entry r t) l).1 kept in ground arith

module _ (r c : String) (cs : List String) (b : Bool) (l : Ledger) where
  pub lose_each_unknown : lookup c l.entries ≡ none → lose_each r (c ∷ cs) b l ≡ (err key_error, l)
  unfolding lose_each
  lose_each_unknown h = ground arith

  pub lose_each_known :
      (e : Entry)
      → lookup c l.entries ≡ some e
      → lose_each r (c ∷ cs) b l
        ≡ lose_each r cs (b || (lose_entry r e).1) (store c (lose_entry r e).0 l)
  unfolding lose_each
  lose_each_known e h = ground arith

lose_each-IsValid :
    (r : String) (cs : List String) (b : Bool) (l : Ledger)
    → IsValid l
    → IsValid (lose_each r cs b l).1
lose_each-IsValid r [] b l h = unfold lose_each in h
lose_each-IsValid r (c ∷ cs) b l h = elim (Option-cases (lookup c l.entries)) [
  | inl unknown ↦ rw (lose_each_unknown r c cs b l unknown) h
  | inr (e, known) ↦ rw (lose_each_known r c cs b l e known) (
      lose_each-IsValid r cs (b || (lose_entry r e).1) (store c (lose_entry r e).0 l) (
        store-IsValid c e (lose_entry r e).0 l known
          (lose_entry-EntryValid r e (Holds-lookup EntryValid c e l.entries h.entries_lem known))
          h))
]

-- Receipts have passed their constructor's checks.
abbrev pub IsChecked : LedgerCall → Type 0
IsChecked (call_playback r) = make_receipt r ≡ ok r
IsChecked _ = Unit

-- Every method keeps the ledger's invariant, whether it returns or raises: the order lists the chunks
-- of the dictionary, and each entry's samples, time stamps and state agree. Receipts must have passed
-- their own checks.
pub after_ledger_call-IsValid :
    (c : LedgerCall) (l : Ledger) → IsChecked c → IsValid l → IsValid (after_ledger_call c l)
unfolding after_ledger_call mark_queued mark_playback_started record_playback cancel_unplayed
    mark_playback_unconfirmed
after_ledger_call-IsValid (call_register c t) l p h = register-IsValid c t l h
after_ledger_call-IsValid (call_queued c t) l p h =
    revise-IsValid c (λ e. queue_entry t e e.state) l (queue_entry-EntryValid t) h
after_ledger_call-IsValid (call_started c t) l p h =
    revise-IsValid c (λ e. start_entry t e e.state e.queued_ns) l (start_entry-EntryValid t) h
after_ledger_call-IsValid (call_playback r) l p h =
    revise-IsValid r.chunk_id (λ e. settle_entry r e e.state) l
      (λ e e'. settle_entry-EntryValid r e e' (receipt-Consistent r p)) h
after_ledger_call-IsValid (call_cancel r t) l p h = cancel_each-IsValid r t l.order l h
after_ledger_call-IsValid (call_unconfirmed r) l p h = lose_each-IsValid r l.order false l h
