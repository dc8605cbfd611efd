-- ===== src/Base/Int.antt =====
-- Signed integers over the native numbers, under the library's names: the `int64_t` fields of
-- include/cruntime.h and the results of the parsers.
use Prim.Native.Nat.{ℕ, suc, ◌+◌, ◌-◌, ◌*◌, ◌/◌, ◌%◌, ◌^◌, ◌≤◌, ◌<◌}
use mathlib.Core.Bool.{Bool}
use cruntm.Base.Tests.{ltb, if◌then◌else◌}

-- `negsuc n` is -(n + 1).
pub data ℤ : Type 0 where
  pos : ℕ → ℤ
  negsuc : ℕ → ℤ

abbrev pub pos_part : ℤ → ℕ
pos_part (pos n) = n
pos_part (negsuc n) = 0

abbrev pub neg_part : ℤ → ℕ
neg_part (pos n) = 0
neg_part (negsuc n) = suc n

infix 50 ◌≤ℤ◌
abbrev pub ◌≤ℤ◌ : ℤ → ℤ → Type 0
a ≤ℤ b = pos_part a + neg_part b ≤ pos_part b + neg_part a

abbrev pub ltb_ℤ : ℤ → ℤ → Bool
ltb_ℤ a b = ltb (pos_part a + neg_part b) (pos_part b + neg_part a)

-- C division by a positive number, which rounds towards zero.
unfoldable pub quotient : ℤ → ℕ → ℤ
quotient (pos n) d = pos (n / d)
quotient (negsuc n) d = if ltb 0 (suc n / d) then negsuc (suc n / d - 1) else pos 0

-- The residue in `0 .. 2 ^ 64 - 1` of an integer.
abbrev pub residue64 : ℤ → ℕ
residue64 (pos n) = n % 2 ^ 64
residue64 (negsuc n) = (2 ^ 64 - 1) - n % 2 ^ 64

-- The `int64_t` with a given residue: two's complement.
abbrev pub signed64 : ℕ → ℤ
signed64 w = if ltb w (2 ^ 63) then pos w else negsuc (2 ^ 64 - w - 1)

-- An integer brought into the range of `int64_t` by wrapping around.
unfoldable pub to_int64 : ℤ → ℤ
to_int64 a = signed64 (residue64 a)

-- The product of an integer and a number.
unfoldable pub scale : ℤ → ℕ → ℤ
scale (pos n) k = pos (n * k)
scale (negsuc n) k = if ltb 0 k then negsuc (suc n * k - 1) else pos 0

pub record IsInt64 (a : ℤ) : Type 0 where
  pub upper : pos_part a < 2 ^ 63
  pub lower : neg_part a ≤ 2 ^ 63
