-- ===== src/Audio/Views.antt =====
-- What src/humanflow/audio/ledger.py reports of its entries: the delivered text, the unheard text and
-- the self-check `assert_invariants`.
use humanflow.Shared.{
  String, Bool, true, false, not, ◌&&◌, ◌||◌, Option, none, some, List, [], ◌∷◌, map, if◌then◌else◌,
  ◌==◌, nat_instance, string_instance, contains, ℤ, pos, leb_ℤ, int_instance, select,
}
use humanflow.Shared.Text.{join}
use humanflow.Shared.Dict.{lookup, Dict}
use humanflow.Shared.Result.{assertion_error, err, Result, ok, ◌>>=◌}
use humanflow.Audio.Ledger.{fully_delivered, LedgerState, Ledger, Entry, found, generated, played}

-- `tuple(self._entries[chunk_id] for chunk_id in self._order)`
unfoldable pub entries_of : List String → Dict Entry → Result (List Entry)
entries_of [] d = ok []
entries_of (c ∷ cs) d = do e ← found (lookup c d); es ← entries_of cs d; ok (e ∷ es)

-- `response_id is None or entry.response_id == response_id`
abbrev pub is_relevant : Option String → Entry → Bool
is_relevant none e = true
is_relevant (some r) e = e.response_id == r

unfoldable pub delivered_entries : Option String → List Entry → List Entry
delivered_entries r es = select (λ e. fully_delivered e && is_relevant r e) es

unfoldable pub delivered_text : Option String → Ledger → Result String
unfolding delivered_entries fully_delivered entries_of
delivered_text r l = do
  es ← entries_of l.order l.entries
  ok (join (map (λ e. e.text) (delivered_entries r es)))

abbrev pub is_nonempty : String → Bool
is_nonempty String.[] = false
is_nonempty (String.◌∷◌ c s) = true

-- The set comprehension `delivered_semantics`.
unfoldable pub delivered_semantics : List Entry → List String
unfolding fully_delivered
delivered_semantics es =
    map (λ e. e.semantic_id) (select (λ e. is_nonempty e.text && fully_delivered e) es)

-- The loop of `unheard_text`, from the set `seen` on.
unfoldable pub unheard_entries : List String → List String → List Entry → List Entry
unheard_entries delivered seen [] = []
unheard_entries delivered seen (e ∷ es) =
    let skip = contains e.semantic_id delivered || contains e.semantic_id seen in
    let rest = unheard_entries delivered (if skip then seen else e.semantic_id ∷ seen) es in
    if skip then rest else e ∷ rest

unfoldable pub unheard_text : Option String → Ledger → Result String
unfolding unheard_entries delivered_semantics entries_of
unheard_text r l = do
  es ← entries_of l.order l.entries
  ok (
      let relevant = select (is_relevant r) es in
      join
        (map (λ e. e.semantic_text) (unheard_entries (delivered_semantics relevant) [] relevant)))

abbrev pub is_some : Option ℤ → Bool
is_some none = false
is_some (some x) = true

abbrev pub is_played : LedgerState → Bool
is_played played = true
is_played _ = false

abbrev pub is_generated : LedgerState → Bool
is_generated generated = true
is_generated _ = false

-- One round of `assert_invariants`.
unfoldable pub assert_entry : Entry → Result (Unit {0})
unfolding fully_delivered
assert_entry e =
    if not (leb_ℤ (pos 0) e.played_samples && leb_ℤ e.played_samples e.total_samples)
    then err (assertion_error "played samples exceed generated samples")
    else if is_played e.state && not (fully_delivered e)
    then err (assertion_error "PLAYED entry is not fully delivered")
    else if is_generated e.state && is_some e.queued_ns
    then err (assertion_error "generated entry unexpectedly has queue timestamp")
    else if is_some e.playback_stopped_ns && not (is_some e.playback_started_ns)
    then err (assertion_error "stopped playback has no start timestamp")
    else ok tt

-- The loop of `assert_invariants`.
unfoldable pub assert_entries : List Entry → Result (Unit {0})
unfolding assert_entry
assert_entries [] = ok tt
assert_entries (e ∷ es) = do u ← assert_entry e; assert_entries es

unfoldable pub assert_invariants : Ledger → Result (Unit {0})
unfolding entries_of assert_entries
assert_invariants l = do es ← entries_of l.order l.entries; assert_entries es
