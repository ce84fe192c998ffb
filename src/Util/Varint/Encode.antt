-- ===== src/Util/Varint/Encode.antt =====
-- The shape of what ToVarint64 writes.
use bitmarkd.Common.{◌==◌, ◌≡◌, false, ℕ, zero, suc, ◌/◌, ◌^◌, ◌≤◌, ◌<◌, arith}
use bitmarkd.Common.{length, All}
use bitmarkd.Util.Varint.{to_varint64_loop, to_varint64}

to_varint64_loop_shape :
    (rounds value : ℕ)
    → value < 2 ^ 64
    → All (λ b. b < 256) (to_varint64_loop rounds value)
      × (length (to_varint64_loop rounds value) ≤ rounds)
unfolding to_varint64_loop
to_varint64_loop_shape zero value h = omega arith
to_varint64_loop_shape (suc rounds) value h =
    ground (arith, to_varint64_loop_shape rounds (value / 2 ^ 7))

to_varint64_loop_pos :
    (rounds value : ℕ) → 0 < value → 0 < length (to_varint64_loop (suc rounds) value)
unfolding to_varint64_loop
to_varint64_loop_pos rounds value h = ground arith

-- For every uint64, ToVarint64 writes 1 to 9 elements, each of them a byte.
pub to_varint64_shape :
    (value : ℕ)
    → value < 2 ^ 64
    → All (λ b. b < 256) (to_varint64 value)
      × (1 ≤ length (to_varint64 value))
      × (length (to_varint64 value) ≤ 9)
unfolding to_varint64
to_varint64_shape value h =
    ground (arith, to_varint64_loop_shape 9 value h, to_varint64_loop_pos 8 value)

pub to_varint64_written : (value : ℕ) → value < 2 ^ 64 → (length (to_varint64 value) == 0) ≡ false
to_varint64_written value h = ground (arith, to_varint64_shape value h)
