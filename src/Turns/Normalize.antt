-- ===== src/Turns/Normalize.antt =====
-- `_normalized` of src/humanflow/turns/policies.py. The case folding of characters beyond Latin-1 is
-- the parameter `fold_wide`, the table of the Unicode standard.
use humanflow.Shared.{
  ℕ, ◌+◌, Bool, true, false, not, ◌&&◌, ◌||◌, List, [], ◌∷◌, ◌++◌, leb, if◌then◌else◌, ◌==◌,
  nat_instance, string_instance, int_instance,
}
use humanflow.Shared.Text.{is_space}

module _ (fold_wide : ℕ → List ℕ) where
  -- `str.casefold` of one character.
  fold_char : ℕ → List ℕ
  fold_char c =
      if leb 65 c && leb c 90
      then (c + 32) ∷ []
      else if c == 0xb5
      then 0x3bc ∷ []
      else if leb 0xc0 c && leb c 0xde && not (c == 0xd7)
      then (c + 32) ∷ []
      else if c == 0xdf
      then 115 ∷ 115 ∷ []
      else if leb c 255
      then c ∷ []
      else fold_wide c

  unfoldable pub casefold : List ℕ → List ℕ
  unfolding fold_char
  casefold [] = []
  casefold (c ∷ s) = fold_char c ++ casefold s

-- The complement of `[^a-zäöüß0-9 ]`.
abbrev pub is_word_char : ℕ → Bool
is_word_char c =
    (leb 97 c && leb c 122)
    || c == 0xe4
    || c == 0xf6
    || c == 0xfc
    || c == 0xdf
    || (leb 48 c && leb c 57)
    || c == 32

-- `pattern.sub(" ", text)` where the pattern is a run of characters with the property; `inside` tells
-- whether the character before belongs to the run.
unfoldable pub sub_runs : (ℕ → Bool) → Bool → List ℕ → List ℕ
sub_runs matches inside [] = []
sub_runs matches inside (c ∷ s) =
    let rest = sub_runs matches (matches c) s in
    if matches c then (if inside then rest else 32 ∷ rest) else c ∷ rest

unfoldable pub lstrip_codes : List ℕ → List ℕ
lstrip_codes [] = []
lstrip_codes (c ∷ s) = let rest = lstrip_codes s in if is_space c then rest else c ∷ s

abbrev pub is_nil : List ℕ → Bool
is_nil [] = true
is_nil (c ∷ s) = false

unfoldable pub rstrip_codes : List ℕ → List ℕ
rstrip_codes [] = []
rstrip_codes (c ∷ s) =
    let rest = rstrip_codes s in if is_nil rest && is_space c then [] else c ∷ rest

module _ (fold_wide : ℕ → List ℕ) where
  unfoldable pub normalized : List ℕ → List ℕ
  unfolding casefold sub_runs lstrip_codes rstrip_codes
  normalized text = rstrip_codes (
      lstrip_codes (
        sub_runs is_space false
          (sub_runs (λ c. not (is_word_char c)) false (casefold fold_wide text))))
