-- ===== src/Base/Int.antt =====
-- Signed integers over the native numbers, and Go's fixed widths: an `int64`, `int32` or `int` is
-- an integer, a `uint64` a natural number, and each conversion and sum wraps as Go's does.
use Prim.Native.Nat.{ℕ, suc, ◌+◌, ◌-◌, ◌/◌, ◌%◌, ◌^◌, ◌≤◌, ◌<◌}
use mathlib.Core.Path.{◌≡◌}
use mathlib.Core.Logic.{◌↔◌}
use mathlib.Core.Bool.{Bool, true, false}
use native.Mathlib.Omega.{arith}
use ice_core.Base.Tests.{ltb, leb, if◌then◌else◌, Eq, ◌==◌, nat_eq}

-- `negsuc n` is -(n + 1).
pub data ℤ : Type 0 where
  pos : ℕ → ℤ
  negsuc : ℕ → ℤ

abbrev pub pos_part : ℤ → ℕ
pos_part (pos n) = n
pos_part (negsuc n) = 0

abbrev pub neg_part : ℤ → ℕ
neg_part (pos n) = 0
neg_part (negsuc n) = suc n

-- a - b, as an integer.
abbrev pub sub_ℕ : ℕ → ℕ → ℤ
sub_ℕ a b = if leb b a then pos (a - b) else negsuc (b - a - 1)

abbrev pub leb_ℤ : ℤ → ℤ → Bool
leb_ℤ a b = leb (pos_part a + neg_part b) (pos_part b + neg_part a)

abbrev pub ltb_ℤ : ℤ → ℤ → Bool
ltb_ℤ a b = ltb (pos_part a + neg_part b) (pos_part b + neg_part a)

infix 50 ◌≤ℤ◌ ◌<ℤ◌
abbrev pub ◌≤ℤ◌ : ℤ → ℤ → Type 0
a ≤ℤ b = pos_part a + neg_part b ≤ pos_part b + neg_part a

abbrev pub ◌<ℤ◌ : ℤ → ℤ → Type 0
a <ℤ b = pos_part a + neg_part b < pos_part b + neg_part a

abbrev pub int_beq : ℤ → ℤ → Bool
int_beq (pos a) (pos b) = a == b
int_beq (pos a) (negsuc b) = false
int_beq (negsuc a) (pos b) = false
int_beq (negsuc a) (negsuc b) = a == b

pub int_beq_iff : (a b : ℤ) → (int_beq a b ≡ true) ↔ (a ≡ b)
int_beq_iff (pos a) (pos b) = ground arith
int_beq_iff (pos a) (negsuc b) = ground arith
int_beq_iff (negsuc a) (pos b) = ground arith
int_beq_iff (negsuc a) (negsuc b) = ground arith

instance abbrev pub int_eq : Eq ℤ
int_eq = record { beq = int_beq; beq_iff = int_beq_iff }

-- `int64(x)` of a `uint64`: the same 64 bits.
unfoldable pub to_int64 : ℕ → ℤ
to_int64 x = if ltb x (2 ^ 63) then pos x else negsuc (2 ^ 64 - x - 1)

-- `uint64(x)` of an `int64`.
unfoldable pub to_uint64 : ℤ → ℕ
to_uint64 (pos n) = n % 2 ^ 64
to_uint64 (negsuc n) = 2 ^ 64 - 1 - n % 2 ^ 64

-- The w-bit two's complement value of a natural number, and of an integer.
abbrev pub signed : ℕ → ℕ → ℤ
signed half x = if ltb x half then pos x else negsuc (half + half - 1 - x)

abbrev pub residue : ℕ → ℤ → ℕ
residue full (pos n) = n % full
residue full (negsuc n) = full - 1 - n % full

-- `int32(x)` of an `int` or `int64`: the low 32 bits.
unfoldable pub to_int32 : ℤ → ℤ
to_int32 x = signed (2 ^ 31) (residue (2 ^ 32) x)

-- `a + b` at `int64`, and at `int32`.
unfoldable pub add64 : ℤ → ℤ → ℤ
add64 a b =
    signed (2 ^ 63) (residue (2 ^ 64) (sub_ℕ (pos_part a + pos_part b) (neg_part a + neg_part b)))

unfoldable pub add32 : ℤ → ℤ → ℤ
add32 a b =
    signed (2 ^ 31) (residue (2 ^ 32) (sub_ℕ (pos_part a + pos_part b) (neg_part a + neg_part b)))

-- `a / b` at `int64` for b > 0: towards zero.
unfoldable pub div64 : ℤ → ℕ → ℤ
div64 (pos a) b = pos (a / b)
div64 (negsuc a) b = sub_ℕ 0 (suc a / b)

-- Below 2^63 the two conversions are inverse to one another.
pub to_uint64-to_int64 : (x : ℕ) → x < 2 ^ 64 → to_uint64 (to_int64 x) ≡ x
unfolding to_uint64 to_int64
to_uint64-to_int64 x h = ground arith

pub to_int64_small : (x : ℕ) → x < 2 ^ 63 → to_int64 x ≡ pos x
unfolding to_int64
to_int64_small x h = ground arith

pub to_uint64_small : (x : ℕ) → x < 2 ^ 63 → to_uint64 (pos x) ≡ x
unfolding to_uint64
to_uint64_small x h = omega arith

-- Sums of numbers that fit do not wrap.
pub add64_small : (a b : ℕ) → a + b < 2 ^ 63 → add64 (pos a) (pos b) ≡ pos (a + b)
unfolding add64
add64_small a b h = ground arith

pub add32_small : (a b : ℕ) → a + b < 2 ^ 31 → add32 (pos a) (pos b) ≡ pos (a + b)
unfolding add32
add32_small a b h = ground arith
