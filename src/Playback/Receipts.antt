-- ===== src/Playback/Receipts.antt =====
-- The receipt that `play` of src/humanflow/web/transport.py returns, built from an acknowledged playback.
use humanflow.Shared.Result.{checked_ok, ok}
use humanflow.Shared.Text.{is_blank}
use humanflow.Playback.Pending.{Pending}
use humanflow.Playback.Browser.{final_receipt}
use humanflow.Playback.Answers.{measurements_of, Within, IsAnswered, NonNegative}
use humanflow.Shared.Float.{Float}
use humanflow.Audio.Models.{
  receipt_checks, samples_per_channel, is_blank_id, is_negative, make_receipt,
}
use humanflow.Shared.{
  ℕ, ◌≡◌, refl, ◌⊎◌, inl, inr, Bool, true, false, not, ◌&&◌, ◌||◌, Option, some, List, [], ◌∷◌,
  arith, nat_instance, string_instance, ℤ, pos, ltb_ℤ, leb_ℤ, max_ℤ, int_eq, int_eq_iff,
  int_instance, All, any,
}
use mathlib.Core.Path.{subst}

any_negative : (ms : List (Option Float)) → All NonNegative ms → any is_negative ms ≡ false
any_negative [] h = refl
any_negative (o ∷ ms) h = rw h.0 (any_negative ms h.1)

not_before : (a b : ℤ) → leb_ℤ a b ≡ true → ltb_ℤ b a ≡ false
not_before a b h = ground arith

max_not_before : (a b : ℤ) → ltb_ℤ (max_ℤ a b) a ≡ false
max_not_before a b = ground arith

both_parts : (a b : Bool) → a ≡ true → b ≡ true → not (a && b) ≡ false
both_parts a b h k = rw (h, k) refl

one_part : (c b e : Bool) → (c ≡ true) ⊎ (e ≡ true) → (not (c || b) && not e) ≡ false
one_part true b e h = refl
one_part false b true h = ground arith
one_part false b false h = ground arith

all_or_cancelled :
    (c : Bool) (n : ℤ) (total : ℕ)
    → (c ≡ true) ⊎ (n ≡ pos total)
    → (c ≡ true) ⊎ (int_eq n (pos total) ≡ true)
all_or_cancelled c n total (inl h) = inl h
all_or_cancelled c n total (inr h) = inr ((int_eq_iff n (pos total)).1 h)

-- The receipt of a pending playback that is answered within bounds passes all its checks, so `play`
-- returns it: for a chunk with an identifier and samples, a start that is not negative, and a source
-- node that is not blank.
pub final_receipt_passes :
    (started_ns stopped_ns played : ℤ) (browser_cancelled : Bool) (p : Pending)
    → IsAnswered p
    → p.stopped ≡ some (stopped_ns, played, browser_cancelled)
    → is_blank p.chunk.chunk_id ≡ false
    → leb_ℤ (pos 1) (pos (samples_per_channel p.chunk.frame)) ≡ true
    → leb_ℤ (pos 0) started_ns ≡ true
    → is_blank_id p.source_node_id ≡ false
    → make_receipt (final_receipt started_ns stopped_ns played browser_cancelled p)
      ≡ ok (final_receipt started_ns stopped_ns played browser_cancelled p)
unfolding make_receipt final_receipt
final_receipt_passes started_ns stopped_ns played browser_cancelled p h e named long after known =
    let w = subst (Within (samples_per_channel p.chunk.frame)) e h.within in
    checked_ok (receipt_checks (final_receipt started_ns stopped_ns played browser_cancelled p))
      (final_receipt started_ns stopped_ns played browser_cancelled p)
      (
        named,
        (
          not_before (pos 1) (pos (samples_per_channel p.chunk.frame)) long,
          (
            both_parts (leb_ℤ (pos 0) played)
                (leb_ℤ played (pos (samples_per_channel p.chunk.frame))) w.0 w.1,
            (
              not_before (pos 0) started_ns after,
              (
                max_not_before started_ns stopped_ns,
                (
                  one_part browser_cancelled
                      (ltb_ℤ played (pos (samples_per_channel p.chunk.frame)))
                      (int_eq played (pos (samples_per_channel p.chunk.frame)))
                      (all_or_cancelled browser_cancelled played (samples_per_channel p.chunk.frame)
                        w.2),
                  (
                    any_negative (measurements_of p) h.measures,
                    (known, (not_before (pos 0) p.underrun_count h.underruns, tt)),
                  ),
                ),
              ),
            ),
          ),
        ),
      )
