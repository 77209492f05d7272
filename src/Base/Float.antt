-- ===== src/Base/Float.antt =====
-- `f64` as far as the code compares it. Every finite double is a whole multiple of 2^-1074, and is
-- given here by that multiple, with a sign; -0.0 and 0.0 compare equal and are one value.
use jackstay.Base.Tests.{ltb}
use Prim.Native.Nat.{ℕ}
use mathlib.Core.Bool.{Bool, true, false, not}

-- `negsuc n` is -(n + 1).
pub data ℤ : Type 0 where
  pos : ℕ → ℤ
  negsuc : ℕ → ℤ

abbrev pub ltb_ℤ : ℤ → ℤ → Bool
ltb_ℤ (pos a) (pos b) = ltb a b
ltb_ℤ (pos a) (negsuc b) = false
ltb_ℤ (negsuc a) (pos b) = true
ltb_ℤ (negsuc a) (negsuc b) = ltb b a

-- `infinite true` is the negative infinity.
pub data F64 : Type 0 where
  nan : F64
  infinite : Bool → F64
  finite : ℤ → F64

abbrev pub is_finite : F64 → Bool
is_finite nan = false
is_finite (infinite negative) = false
is_finite (finite x) = true

-- `a < b`.
abbrev pub ltb_F64 : F64 → F64 → Bool
ltb_F64 nan b = false
ltb_F64 (infinite negative) nan = false
ltb_F64 (infinite true) (infinite negative) = not negative
ltb_F64 (infinite false) (infinite negative) = false
ltb_F64 (infinite negative) (finite y) = negative
ltb_F64 (finite x) nan = false
ltb_F64 (finite x) (infinite negative) = not negative
ltb_F64 (finite x) (finite y) = ltb_ℤ x y

-- `a >= b`, which no NaN satisfies.
abbrev pub geb_F64 : F64 → F64 → Bool
geb_F64 nan b = false
geb_F64 (infinite negative) nan = false
geb_F64 (infinite true) (infinite negative) = negative
geb_F64 (infinite false) (infinite negative) = true
geb_F64 (infinite negative) (finite y) = not negative
geb_F64 (finite x) nan = false
geb_F64 (finite x) (infinite negative) = negative
geb_F64 (finite x) (finite y) = not (ltb_ℤ x y)

abbrev pub zero_F64 : F64
zero_F64 = finite (pos 0)

-- `x != 0.0`.
abbrev pub nonzero_F64 : F64 → Bool
nonzero_F64 nan = true
nonzero_F64 (infinite negative) = true
nonzero_F64 (finite (pos x)) = ltb 0 x
nonzero_F64 (finite (negsuc x)) = true
