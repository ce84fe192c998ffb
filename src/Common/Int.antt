-- ===== src/Common/Int.antt =====
-- Signed integers over the native numbers; `negsuc n` is -(n + 1).
use Prim.Native.Nat.{ℕ, suc, ◌+◌, ◌-◌, ◌^◌}
use mathlib.Core.Bool.{Bool}
use bitmarkd.Common.Tests.{ltb, leb, if◌then◌else◌}

pub data ℤ : Type 0 where
  pos : ℕ → ℤ
  negsuc : ℕ → ℤ

abbrev pub pos_part : ℤ → ℕ
pos_part (pos n) = n
pos_part (negsuc n) = 0

abbrev pub neg_part : ℤ → ℕ
neg_part (pos n) = 0
neg_part (negsuc n) = suc n

abbrev pub ltℤ : ℤ → ℤ → Bool
ltℤ a b = ltb (pos_part a + neg_part b) (pos_part b + neg_part a)

abbrev pub leℤ : ℤ → ℤ → Bool
leℤ a b = leb (pos_part a + neg_part b) (pos_part b + neg_part a)

-- Go's `int(x)` of a uint64 on a 64-bit machine: the same 64 bits, read as two's complement.
abbrev pub signed64 : ℕ → ℤ
signed64 w = if ltb w (2 ^ 63) then pos w else negsuc (2 ^ 64 - w - 1)
