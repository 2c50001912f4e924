-- ===== src/Audio/Truth.antt =====
-- The delivered text and the self-check of src/humanflow/audio/ledger.py on a valid ledger.
use humanflow.Audio.Views.{
  is_relevant, delivered_entries, is_some, assert_entries, assert_entry, entries_of,
  assert_invariants,
}
use humanflow.Shared.{
  String, ◌≡◌, refl, inl, inr, Bool, true, ◌&&◌, Option, some, List, [], ◌∷◌, arith, eq_iff,
  Bool-cases, ◌==◌, nat_instance, string_instance, contains, pos, ◌≤ℤ◌, int_eq_iff, int_instance,
  All, All-select,
}
use mathlib.Core.Path.{subst}
use humanflow.Shared.Dict.{Holds-lookup, Holds, keys, lookup, Dict}
use humanflow.Shared.Result.{ok}
use humanflow.Audio.Ledger.{fully_delivered, Ledger, Entry}
use humanflow.Audio.Validity.{IsValid, EntryValid}

contains-weaken :
    (x : String) (ks cs : List String)
    → All (λ c. contains c ks ≡ true) cs
    → All (λ c. contains c (x ∷ ks) ≡ true) cs
contains-weaken x ks [] h = tt
contains-weaken x ks (c ∷ cs) h = (ground (arith, h.0), contains-weaken x ks cs h.1)

contains-All : (ks : List String) → All (λ c. contains c ks ≡ true) ks
contains-All [] = tt
contains-All (k ∷ ks) = (ground (arith, eq_iff k k), contains-weaken k ks ks (contains-All ks))

lookup-keys :
    (k : String) (d : Dict Entry) → contains k (keys d) ≡ true → (e : Entry) × (lookup k d ≡ some e)
unfolding lookup keys
lookup-keys k [] h = cc
lookup-keys k ((j, v) ∷ d) h = elim (Bool-cases (j == k)) [
  | inl same ↦ (v, rw same)
  | inr other ↦
      let (e, q) = lookup-keys k d (ground (arith, eq_iff j k, eq_iff k j)) in (e, rw other q)
]

entries_of_known :
    (cs : List String) (d : Dict Entry)
    → All (λ c. contains c (keys d) ≡ true) cs
    → Holds EntryValid d
    → (es : List Entry) × (entries_of cs d ≡ ok es) × All EntryValid es
unfolding entries_of
entries_of_known [] d h v = ([], refl, tt)
entries_of_known (c ∷ cs) d h v =
    let (e, q) = lookup-keys c d h.0 in
    let (es, qs, vs) = entries_of_known cs d h.1 v in
    (e ∷ es, rw (q, qs), (Holds-lookup EntryValid c e d v q, vs))

-- On a valid ledger every registered chunk is found.
pub entries_of_valid :
    (l : Ledger)
    → IsValid l
    → (es : List Entry) × (entries_of l.order l.entries ≡ ok es) × All EntryValid es
entries_of_valid l h =
    entries_of_known l.order l.entries (rw h.ordered (contains-All (keys l.entries))) h.entries_lem

valid-assert_entry : (e : Entry) → EntryValid e → assert_entry e ≡ ok tt
unfolding assert_entry
valid-assert_entry e v = ground (arith, int_eq_iff e.played_samples e.total_samples)

valid-assert_entries : (es : List Entry) → All EntryValid es → assert_entries es ≡ ok tt
unfolding assert_entries
valid-assert_entries [] h = refl
valid-assert_entries (e ∷ es) h = rw (valid-assert_entry e h.0) (valid-assert_entries es h.1)

-- On a valid ledger `assert_invariants` finds every chunk and raises no AssertionError.
pub assert_invariants_valid : (l : Ledger) → IsValid l → assert_invariants l ≡ ok tt
unfolding assert_invariants
assert_invariants_valid l h =
    let (es, q, v) = entries_of_valid l h in rw q (valid-assert_entries es v)

-- The sink reported that it started and stopped playing the entry.
abbrev pub WasPlayed : Entry → Type 0
WasPlayed e = (is_some e.playback_started_ns ≡ true) × (is_some e.playback_stopped_ns ≡ true)

delivered-WasPlayed :
    (e : Entry) → EntryValid e → pos 1 ≤ℤ e.total_samples → fully_delivered e ≡ true → WasPlayed e
unfolding fully_delivered
delivered-WasPlayed e v n d = ground (arith, int_eq_iff e.played_samples e.total_samples)

and_left : (a b : Bool) → (a && b) ≡ true → a ≡ true
and_left a b h = ground arith

-- On a valid ledger whose chunks have samples, every entry that counts as delivered was reported
-- started and stopped by the sink: what was never played is never taken for heard.
pub delivered_entries-WasPlayed :
    (r : Option String) (l : Ledger) (es : List Entry)
    → IsValid l
    → entries_of l.order l.entries ≡ ok es
    → All (λ e. pos 1 ≤ℤ e.total_samples) es
    → All WasPlayed (delivered_entries r es)
unfolding delivered_entries
delivered_entries-WasPlayed r l es h q n =
    let (es', q', v) = entries_of_valid l h in
    let same : es' ≡ es = cc in
    All-select (λ e. EntryValid e × (pos 1 ≤ℤ e.total_samples)) WasPlayed
      (λ e. fully_delivered e && is_relevant r e) es
      (λ e d v. delivered-WasPlayed e v.0 v.1 (and_left (fully_delivered e) (is_relevant r e) d))
      (both es (subst (All EntryValid) same v) n)
  where
    both :
        (es : List Entry)
        → All EntryValid es
        → All (λ e. pos 1 ≤ℤ e.total_samples) es
        → All (λ e. EntryValid e × (pos 1 ≤ℤ e.total_samples)) es
    both [] v n = tt
    both (e ∷ es) v n = ((v.0, n.0), both es v.1 n.1)
