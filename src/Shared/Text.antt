-- ===== src/Shared/Text.antt =====
-- Python's `str`: whole texts that are only compared are native strings; texts that are walked are
-- lists of code points.
use Prim.Native.Char.{Char, code}
use mathlib.Core.Path.{◌≡◌, refl}
use mathlib.Core.Logic.{inl, inr}
use humanflow.Shared.Tests.{Bool-cases}
use Prim.Native.String.{◌++◌ as str_append}
use humanflow.Shared.Tests.{Eq, leb, list_eq, list_eq_iff, ◌==◌, if◌then◌else◌, nat_instance}
use Prim.Native.Nat.{ℕ}
use Prim.Native.String.{String}
use mathlib.Core.Bool.{Bool, true, false, ◌&&◌, ◌||◌}
use mathlib.Core.List.{List, [], ◌∷◌, reverse}

abbrev pub codes : String → List ℕ
codes String.[] = []
codes (String.◌∷◌ c s) = code c ∷ codes s

instance abbrev pub codes_instance : Eq (List ℕ)
codes_instance = record { same = list_eq; same_iff = list_eq_iff }

-- `str.isspace` of one character, which `strip` removes.
abbrev pub is_space : ℕ → Bool
is_space c =
    (leb 9 c && leb c 13)
    || (leb 28 c && leb c 32)
    || c == 0x85
    || c == 0xa0
    || c == 0x1680
    || (leb 0x2000 c && leb c 0x200a)
    || c == 0x2028
    || c == 0x2029
    || c == 0x202f
    || c == 0x205f
    || c == 0x3000

unfoldable pub lstrip : String → String
lstrip String.[] = String.[]
lstrip (String.◌∷◌ c s) = let rest = lstrip s in if is_space (code c) then rest else String.◌∷◌ c s

abbrev is_empty : String → Bool
is_empty String.[] = true
is_empty (String.◌∷◌ c s) = false

unfoldable pub rstrip : String → String
rstrip String.[] = String.[]
rstrip (String.◌∷◌ c s) =
    let rest = rstrip s in
    if is_empty rest && is_space (code c) then String.[] else String.◌∷◌ c rest

unfoldable pub strip : String → String
unfolding lstrip rstrip
strip s = rstrip (lstrip s)

-- `not s.strip()`
unfoldable pub is_blank : String → Bool
unfolding strip
is_blank s = is_empty (strip s)

abbrev pub starts_with : List ℕ → List ℕ → Bool
starts_with s [] = true
starts_with [] (p ∷ ps) = false
starts_with (c ∷ s) (p ∷ ps) = let rest = starts_with s ps in if c == p then rest else false

abbrev pub ends_with : List ℕ → List ℕ → Bool
ends_with s p = starts_with (reverse s) (reverse p)

-- `" ".join(parts)`
unfoldable pub join : List String → String
join [] = ""
join (s ∷ []) = s
join (s ∷ t ∷ rest) = str_append s (str_append " " (join (t ∷ rest)))

-- A text that starts with a visible character is not blank.
pub visible_head :
    (c : Char) (s : String) → is_space (code c) ≡ false → is_blank (String.◌∷◌ c s) ≡ false
unfolding is_blank strip lstrip rstrip
visible_head c s h = elim (Bool-cases (is_empty (rstrip s))) [
  | inl e ↦ rw (h, e, h) refl
  | inr e ↦ rw (h, e) refl
]
