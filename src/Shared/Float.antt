-- ===== src/Shared/Float.antt =====
-- A finite Python float is a dyadic number, mantissa / 2 ^ scale; comparisons are exact, and a literal
-- stands for the double nearest to it. Infinities and NaN are not represented.
use humanflow.Shared.Tests.{leb, if◌then◌else◌}
use humanflow.Shared.Int.{ℤ, pos, pos_part, neg_part, sub_ℕ}
use Prim.Native.Nat.{ℕ, ◌+◌, ◌*◌, ◌^◌}
use mathlib.Core.Bool.{Bool, not}

pub record Float : Type 0 where
  pub mantissa : ℤ
  pub scale : ℕ

abbrev pub dyadic : ℕ → ℕ → Float
dyadic m s = record { mantissa = pos m; scale = s }

-- `a <= b`
unfoldable pub leb_float : Float → Float → Bool
leb_float a b =
    leb (pos_part a.mantissa * 2 ^ b.scale + neg_part b.mantissa * 2 ^ a.scale)
      (pos_part b.mantissa * 2 ^ a.scale + neg_part a.mantissa * 2 ^ b.scale)

-- `a < b`
abbrev pub ltb_float : Float → Float → Bool
ltb_float a b = not (leb_float b a)

abbrev pub max_float : Float → Float → Float
max_float a b = if ltb_float a b then b else a

abbrev pub min_float : Float → Float → Float
min_float a b = if ltb_float b a then b else a

-- The exact sum and product; Python rounds them to the nearest double.
unfoldable pub exact_add : Float → Float → Float
exact_add a b = record {
  mantissa =
      sub_ℕ (pos_part a.mantissa * 2 ^ b.scale + pos_part b.mantissa * 2 ^ a.scale)
        (neg_part a.mantissa * 2 ^ b.scale + neg_part b.mantissa * 2 ^ a.scale);
  scale = a.scale + b.scale;
}

unfoldable pub exact_mul : Float → Float → Float
exact_mul a b = record {
  mantissa =
      sub_ℕ (pos_part a.mantissa * pos_part b.mantissa + neg_part a.mantissa * neg_part b.mantissa)
        (pos_part a.mantissa * neg_part b.mantissa + neg_part a.mantissa * pos_part b.mantissa);
  scale = a.scale + b.scale;
}
