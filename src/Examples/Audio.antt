-- ===== src/Examples/Audio.antt =====
-- Concrete runs of the played-audio ledger.
use humanflow.Shared.Text.{is_blank, join}
use humanflow.Audio.Views.{
  delivered_entries, unheard_entries, delivered_semantics, delivered_text, assert_invariants,
  unheard_text, entries_of,
}
use humanflow.Shared.Dict.{insert, lookup, keys}
use humanflow.Shared.{
  contains, ◌||◌, ◌≡◌, refl, true, false, none, some, [], ◌∷◌, arith, nat_instance, string_instance,
  pos, int_instance, All,
}
use humanflow.Shared.Result.{checked, ok}
use humanflow.Audio.Models.{make_receipt, PlaybackReceipt}
use humanflow.Audio.Ledger.{
  is_unplayed, revise, cancel_one, cancel_each, after_ledger_call, cancel_unplayed, Ledger, Entry,
  LedgerState, LedgerCall,
}
use humanflow.Audio.Validity.{IsValid}
use humanflow.Audio.Preservation.{after_ledger_call-IsValid}
use humanflow.Audio.Finality.{after_ledger_call_final}
use humanflow.Audio.Cancellation.{cancel_unplayed-SettledAt}
use humanflow.Audio.Truth.{assert_invariants_valid, WasPlayed, delivered_entries-WasPlayed}
use humanflow.Audio.Unheard.{is_heard, semantic_ids, unheard_entries_split}

abbrev finished : Entry
finished = record {
  chunk_id = "c1";
  response_id = "r1";
  text = "Guten Tag.";
  semantic_id = "s1";
  semantic_text = "Guten Tag.";
  total_samples = pos 160;
  played_samples = pos 160;
  sample_rate_hz = pos 16000;
  generated_ns = pos 1;
  queued_ns = some (pos 2);
  playback_started_ns = some (pos 3);
  playback_stopped_ns = some (pos 9);
  cancelled_ns = none;
  state = LedgerState.played;
}

abbrev waiting : Entry
waiting = record {
  chunk_id = "c2";
  response_id = "r1";
  text = "Wann passt es?";
  semantic_id = "s2";
  semantic_text = "Wann passt es?";
  total_samples = pos 320;
  played_samples = pos 0;
  sample_rate_hz = pos 16000;
  generated_ns = pos 4;
  queued_ns = some (pos 5);
  playback_started_ns = none;
  playback_stopped_ns = none;
  cancelled_ns = none;
  state = LedgerState.queued;
}

abbrev stopped : Entry
stopped = record waiting { cancelled_ns = some (pos 8); state = LedgerState.cancelled }

abbrev ledger : Ledger
ledger = record { entries = ("c1", finished) ∷ ("c2", waiting) ∷ []; order = "c1" ∷ "c2" ∷ [] }

abbrev receipt : PlaybackReceipt
receipt = record {
  chunk_id = "c2";
  requested_samples = pos 320;
  played_samples = pos 100;
  playback_started_ns = pos 6;
  playback_stopped_ns = pos 8;
  cancelled = true;
  measurements = none ∷ [];
  source_node_id = none;
  underrun_count = pos 0;
}

ledger-IsValid : IsValid ledger
unfolding keys
ledger-IsValid = record {
  ordered = refl;
  entries_lem = (
    record {
      sized = omega arith;
      clocked = omega arith;
      agrees = (refl, omega arith, omega arith, omega arith);
    },
    (record { sized = omega arith; clocked = omega arith; agrees = (refl, omega arith) }, tt),
  );
}

after_ledger_call-IsValid_example :
    IsValid (after_ledger_call (LedgerCall.call_playback receipt) ledger)
unfolding make_receipt checked is_blank
after_ledger_call-IsValid_example =
    after_ledger_call-IsValid (LedgerCall.call_playback receipt) ledger refl ledger-IsValid

after_ledger_call_final_example :
    lookup "c1" (after_ledger_call (LedgerCall.call_cancel "r1" (pos 8)) ledger).entries
    ≡ some finished
unfolding lookup
after_ledger_call_final_example =
    after_ledger_call_final (LedgerCall.call_cancel "r1" (pos 8)) "c1" finished ledger refl refl

cancelled_run : cancel_unplayed "r1" (pos 8) ledger ≡ (
  ok tt,
  record { entries = ("c1", finished) ∷ ("c2", stopped) ∷ []; order = "c1" ∷ "c2" ∷ [] },
)
unfolding cancel_unplayed cancel_each cancel_one revise lookup insert
cancelled_run = refl

cancel_unplayed-SettledAt_example : is_unplayed LedgerState.cancelled ≡ false
unfolding cancel_unplayed cancel_each cancel_one revise lookup insert
cancel_unplayed-SettledAt_example =
    cancel_unplayed-SettledAt "r1" (pos 8) ledger "c2" stopped ledger-IsValid refl refl refl

assert_invariants_valid_example : assert_invariants ledger ≡ ok tt
assert_invariants_valid_example = assert_invariants_valid ledger ledger-IsValid

delivered_run : delivered_text none ledger ≡ ok "Guten Tag."
unfolding delivered_text lookup join
delivered_run = refl

unheard_run : unheard_text none ledger ≡ ok "Wann passt es?"
unfolding unheard_text lookup join
unheard_run = refl

delivered_entries-WasPlayed_example :
    All WasPlayed (delivered_entries none (finished ∷ waiting ∷ []))
unfolding entries_of lookup
delivered_entries-WasPlayed_example =
    delivered_entries-WasPlayed none ledger (finished ∷ waiting ∷ []) ledger-IsValid refl
      (omega arith, (omega arith, tt))

unheard_entries_split_example :
    let es = finished ∷ waiting ∷ [] in
    let out = unheard_entries (delivered_semantics es) [] es in
    All (λ e. (is_heard es e.semantic_id || contains e.semantic_id (semantic_ids out)) ≡ true) es
    × All (λ e. is_heard es e.semantic_id ≡ false) out
unheard_entries_split_example = unheard_entries_split (finished ∷ waiting ∷ [])
