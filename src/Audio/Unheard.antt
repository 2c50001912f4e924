-- ===== src/Audio/Unheard.antt =====
-- The unheard text of src/humanflow/audio/ledger.py, and the segments that were heard.
use humanflow.Audio.Views.{delivered_semantics, unheard_entries, is_nonempty}
use humanflow.Shared.{
  String, ◌≡◌, refl, sym, ◌∙◌, inl, inr, Bool, true, false, ◌&&◌, ◌||◌, List, [], ◌∷◌, map, arith,
  eq_iff, Bool-cases, ◌==◌, nat_instance, string_instance, contains, int_instance, All, All-map,
}
use mathlib.Core.Path.{subst}
use humanflow.Audio.Ledger.{fully_delivered, Entry}

abbrev pub semantic_ids : List Entry → List String
semantic_ids es = map (λ e. e.semantic_id) es

-- The semantic segment was delivered, or was seen before, or is reported as unheard.
abbrev Accounted : List String → List String → List Entry → Entry → Type 0
Accounted delivered seen out e =
    (contains e.semantic_id delivered
      || contains e.semantic_id seen
      || contains e.semantic_id (semantic_ids out))
    ≡ true

account_first :
    (delivered seen : List String) (out : List Entry) (e : Entry)
    → Accounted delivered seen (e ∷ out) e
account_first delivered seen out e = ground (arith, eq_iff e.semantic_id e.semantic_id)

account_later :
    (delivered seen : List String) (out : List Entry) (e x : Entry)
    → Accounted delivered (e.semantic_id ∷ seen) out x
    → Accounted delivered seen (e ∷ out) x
account_later delivered seen out e x h = ground arith

account_skipped :
    (delivered seen : List String) (out : List Entry) (e : Entry)
    → (contains e.semantic_id delivered || contains e.semantic_id seen) ≡ true
    → Accounted delivered seen out e
account_skipped delivered seen out e h = ground arith

module _ (delivered seen : List String) (e : Entry) (es : List Entry) where
  unheard_skipped :
      (contains e.semantic_id delivered || contains e.semantic_id seen) ≡ true
      → unheard_entries delivered seen (e ∷ es) ≡ unheard_entries delivered seen es
  unfolding unheard_entries
  unheard_skipped h = rw h

  unheard_kept :
      (contains e.semantic_id delivered || contains e.semantic_id seen) ≡ false
      → unheard_entries delivered seen (e ∷ es)
        ≡ e ∷ unheard_entries delivered (e.semantic_id ∷ seen) es
  unfolding unheard_entries
  unheard_kept h = rw h

unheard_accounts :
    (delivered seen : List String) (es : List Entry)
    → All (Accounted delivered seen (unheard_entries delivered seen es)) es
unheard_accounts delivered seen [] = tt
unheard_accounts delivered seen (e ∷ es) =
    elim (Bool-cases (contains e.semantic_id delivered || contains e.semantic_id seen)) [
      | inl skip ↦
          subst (λ out. All (Accounted delivered seen out) (e ∷ es))
            (sym (unheard_skipped delivered seen e es skip))
            (
              account_skipped delivered seen (unheard_entries delivered seen es) e skip,
              unheard_accounts delivered seen es,
            )
      | inr fresh ↦
          let out = unheard_entries delivered (e.semantic_id ∷ seen) es in
          subst (λ out. All (Accounted delivered seen out) (e ∷ es))
            (sym (unheard_kept delivered seen e es fresh))
            (
              account_first delivered seen out e,
              All-map (account_later delivered seen out e) es
                  (unheard_accounts delivered (e.semantic_id ∷ seen) es),
            )
    ]

-- Not delivered and not seen before.
abbrev IsFresh : List String → Entry → Type 0
IsFresh delivered e = contains e.semantic_id delivered ≡ false

unheard-IsFresh :
    (delivered seen : List String) (es : List Entry)
    → All (IsFresh delivered) (unheard_entries delivered seen es)
unheard-IsFresh delivered seen [] = unfold unheard_entries in tt
unheard-IsFresh delivered seen (e ∷ es) =
    elim (Bool-cases (contains e.semantic_id delivered || contains e.semantic_id seen)) [
      | inl skip ↦ rw (unheard_skipped delivered seen e es skip) (unheard-IsFresh delivered seen es)
      | inr fresh ↦
          rw (unheard_kept delivered seen e es fresh)
            (ground arith, unheard-IsFresh delivered (e.semantic_id ∷ seen) es)
    ]

-- Some entry carries the semantic segment, has a text and was played to its end.
abbrev pub is_heard : List Entry → String → Bool
is_heard [] id = false
is_heard (e ∷ es) id =
    (is_nonempty e.text && fully_delivered e && e.semantic_id == id) || is_heard es id

delivered_semantics_lem :
    (id : String) (es : List Entry) → contains id (delivered_semantics es) ≡ is_heard es id
unfolding delivered_semantics
delivered_semantics_lem id [] = refl
delivered_semantics_lem id (e ∷ es) = elim (Bool-cases (is_nonempty e.text && fully_delivered e)) [
  | inl heard ↦
      let rest = delivered_semantics_lem id es in
      ground (arith, heard, rest, eq_iff e.semantic_id id, eq_iff id e.semantic_id)
  | inr silent ↦ let rest = delivered_semantics_lem id es in ground (arith, silent, rest)
]

Accounted-is_heard :
    (es : List Entry) (out : List Entry) (e : Entry)
    → Accounted (delivered_semantics es) [] out e
    → (is_heard es e.semantic_id || contains e.semantic_id (semantic_ids out)) ≡ true
Accounted-is_heard es out e h = ground (arith, delivered_semantics_lem e.semantic_id es)

IsFresh-is_heard :
    (es : List Entry) (e : Entry)
    → IsFresh (delivered_semantics es) e
    → is_heard es e.semantic_id ≡ false
IsFresh-is_heard es e h = sym (delivered_semantics_lem e.semantic_id es) ∙ h

-- Every semantic segment of the entries is either carried by an entry with a text that was played to its
-- end, or reported by `unheard_text`; and no reported segment is carried by such an entry.
pub unheard_entries_split :
    (es : List Entry)
    → let out = unheard_entries (delivered_semantics es) [] es in
      All (λ e. (is_heard es e.semantic_id || contains e.semantic_id (semantic_ids out)) ≡ true) es
      × All (λ e. is_heard es e.semantic_id ≡ false) out
unheard_entries_split es =
    let out = unheard_entries (delivered_semantics es) [] es in
    (
      All-map (Accounted-is_heard es out) es (unheard_accounts (delivered_semantics es) [] es),
      All-map (IsFresh-is_heard es) out (unheard-IsFresh (delivered_semantics es) [] es),
    )
