-- ===== src/Base/Ints.antt =====
-- Signed integers over the native numbers, and the conversions between C's integer types.
use Prim.Native.Nat.{ℕ, ◌-◌, ◌/◌, ◌%◌, ◌^◌, ◌<◌}
use mathlib.Core.Path.{◌≡◌}
use mathlib.Core.Logic.{◌↔◌}
use mathlib.Core.Bool.{Bool, true, false}
use native.Mathlib.Omega.{arith}
use iotrace.Base.Tests.{ltb, ◌==◌, if◌then◌else◌}

-- `negsuc n` is -(n + 1).
pub data ℤ : Type 0 where
  pos : ℕ → ℤ
  negsuc : ℕ → ℤ

abbrev pub eq_ℤ : ℤ → ℤ → Bool
eq_ℤ (pos a) (pos b) = a == b
eq_ℤ (pos a) (negsuc b) = false
eq_ℤ (negsuc a) (pos b) = false
eq_ℤ (negsuc a) (negsuc b) = a == b

pub eq_ℤ_iff : (a b : ℤ) → (eq_ℤ a b ≡ true) ↔ (a ≡ b)
eq_ℤ_iff (pos a) (pos b) = ground arith
eq_ℤ_iff (pos a) (negsuc b) = ground arith
eq_ℤ_iff (negsuc a) (pos b) = ground arith
eq_ℤ_iff (negsuc a) (negsuc b) = ground arith

-- `a >= 0`.
abbrev pub nonneg : ℤ → Bool
nonneg (pos a) = true
nonneg (negsuc a) = false

-- The bit pattern of an integer in a word of 32 bits.
abbrev pub low32 : ℤ → ℕ
low32 (pos a) = a % 2 ^ 32
low32 (negsuc a) = 2 ^ 32 - 1 - a % 2 ^ 32

-- The conversion of a `long` to an `int`, which keeps the low 32 bits.
unfoldable pub to_int : ℤ → ℤ
to_int z = if ltb (low32 z) (2 ^ 31) then pos (low32 z) else negsuc (2 ^ 32 - 1 - low32 z)

-- `(z & (1 << k)) != 0` of an `int`.
unfoldable pub has_bit : ℤ → ℕ → Bool
has_bit z k = low32 z / 2 ^ k % 2 == 1

-- The values of an `int`.
abbrev pub IsInt : ℤ → Type 0
IsInt (pos a) = a < 2 ^ 31
IsInt (negsuc a) = a < 2 ^ 31

pub to_int-IsInt : (z : ℤ) → IsInt (to_int z)
unfolding to_int
to_int-IsInt (pos a) = ground arith
to_int-IsInt (negsuc a) = ground arith

pub to_int_id : (z : ℤ) → IsInt z → to_int z ≡ z
unfolding to_int
to_int_id (pos a) h = ground arith
to_int_id (negsuc a) h = ground arith

-- `unsigned long long` and `unsigned long` count modulo this.
abbrev pub ull_mod : ℕ
ull_mod = 2 ^ 64

-- The conversion of an unsigned integer of 64 bits to `gint64`.
unfoldable pub to_gint64 : ℕ → ℤ
to_gint64 n =
    if ltb (n % ull_mod) (2 ^ 63) then pos (n % ull_mod) else negsuc (ull_mod - 1 - n % ull_mod)
