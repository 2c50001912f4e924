-- ===== src/Audio/Cancellation.antt =====
-- What `cancel_unplayed` of src/humanflow/audio/ledger.py leaves of the chunks of its response.
use humanflow.Audio.Validity.{IsValid}
use humanflow.Audio.Preservation.{revise_err, revise_unknown, revise_ok}
use humanflow.Shared.{
  true, [], eq_iff, ◌∷◌, contains, List, String, ◌≡◌, refl, sym, ◌∙◌, inl, inr, false, ◌&&◌, some,
  arith, Bool-cases, Option-cases, ◌==◌, nat_instance, string_instance, ℤ, int_instance,
}
use mathlib.Core.Path.{subst}
use mathlib.Core.Bool.{false≢true}
use humanflow.Shared.Dict.{Dict, keys, lookup-insert, lookup}
use humanflow.Shared.Result.{Result-cases, ok}
use humanflow.Audio.Ledger.{
  cancel_each, cancel_unplayed, cancel_one, cancel_entry, is_unplayed, store, Ledger, Entry,
}

-- The entry is of another response, or it is not waiting to be played any more.
abbrev pub IsSettled : String → Entry → Type 0
IsSettled r e = (e.response_id == r && is_unplayed e.state) ≡ false

abbrev pub SettledAt : String → String → Ledger → Type 0
SettledAt r j l = (e : Entry) → lookup j l.entries ≡ some e → IsSettled r e

cancel_entry-IsSettled :
    (r : String) (t : ℤ) (e e' : Entry) → cancel_entry r t e ≡ ok e' → IsSettled r e'
cancel_entry-IsSettled r t e e' q = ground arith

store-SettledAt :
    (r k j : String) (e' : Entry) (l : Ledger)
    → IsSettled r e'
    → ((k == j) ≡ false → SettledAt r j l)
    → SettledAt r j (store k e' l)
store-SettledAt r k j e' l s h d q = elim (Bool-cases (k == j)) [
  | inl eq ↦
      let q' : e' ≡ d = ground (arith, lookup-insert k j e' l.entries) in subst (IsSettled r) q' s
  | inr ne ↦ h ne d (sym (rw (lookup-insert k j e' l.entries, ne) refl) ∙ q)
]

cancel_one-SettledAt :
    (r : String) (t : ℤ) (k j : String) (l : Ledger)
    → (cancel_one r t k l).0 ≡ ok tt
    → ((k == j) ≡ false → SettledAt r j l)
    → SettledAt r j (cancel_one r t k l).1
unfolding cancel_one
cancel_one-SettledAt r t k j l o h = elim (Option-cases (lookup k l.entries)) [
  | inl unknown ↦ absurd (ground (arith, revise_unknown k (cancel_entry r t) l unknown))
  | inr (e, known) ↦ elim (Result-cases (cancel_entry r t e)) [
    | inl (e', q) ↦
        rw (revise_ok k (cancel_entry r t) l e e' known q)
          (store-SettledAt r k j e' l (cancel_entry-IsSettled r t e e' q) h)
    | inr (x, q) ↦ absurd (ground (arith, revise_err k (cancel_entry r t) l e x known q))
  ]
]

cancel_each-cons :
    (r : String) (t : ℤ) (c : String) (cs : List String) (l : Ledger)
    → (cancel_each r t (c ∷ cs) l).0 ≡ ok tt
    → ((cancel_one r t c l).0 ≡ ok tt)
      × (cancel_each r t (c ∷ cs) l ≡ cancel_each r t cs (cancel_one r t c l).1)
unfolding cancel_each
cancel_each-cons r t c cs l o = ground arith

cancel_each-SettledAt :
    (r : String) (t : ℤ) (cs : List String) (j : String) (l : Ledger)
    → (cancel_each r t cs l).0 ≡ ok tt
    → (contains j cs ≡ false → SettledAt r j l)
    → SettledAt r j (cancel_each r t cs l).1
cancel_each-SettledAt r t [] j l o h = unfold cancel_each in h refl
cancel_each-SettledAt r t (c ∷ cs) j l o h =
    let (first, rest) = cancel_each-cons r t c cs l o in
    rw rest (
      cancel_each-SettledAt r t cs j (cancel_one r t c l).1 (rw rest at o) (λ later.
        cancel_one-SettledAt r t c j l first (λ other. h (ground (arith, eq_iff c j, eq_iff j c)))))

contains-keys :
    (j : String) (e : Entry) (d : Dict Entry) → lookup j d ≡ some e → contains j (keys d) ≡ true
unfolding lookup keys
contains-keys j e [] h = cc
contains-keys j e ((i, v) ∷ d) h = ground (arith, eq_iff i j, eq_iff j i, contains-keys j e d)

contains_later :
    (r : String) (t : ℤ) (j : String) (l : Ledger)
    → IsValid l
    → contains j l.order ≡ false
    → SettledAt r j l
contains_later r t j l v out e q =
    absurd (false≢true (sym out ∙ rw v.ordered (contains-keys j e l.entries q)))

-- When `cancel_unplayed` returns, no chunk of the response is waiting any more: none is generated or
-- queued.
pub cancel_unplayed-SettledAt :
    (r : String) (t : ℤ) (l : Ledger) (j : String) (e : Entry)
    → IsValid l
    → (cancel_unplayed r t l).0 ≡ ok tt
    → lookup j (cancel_unplayed r t l).1.entries ≡ some e
    → e.response_id ≡ r
    → is_unplayed e.state ≡ false
unfolding cancel_unplayed
cancel_unplayed-SettledAt r t l j e v o q same =
    let s = cancel_each-SettledAt r t l.order j l o (contains_later r t j l v) e q in
    ground (arith, eq_iff e.response_id r)
