-- ===== src/Util/Varint/Decode.antt =====
-- FromVarint64, CopyVarint64 and ClippedVarint64 on any buffer, well formed or not.
use bitmarkd.Common.{ℕ, zero, suc, ◌+◌, ◌-◌, ◌*◌, ◌%◌, ◌^◌, ◌≤◌, ◌<◌, ◌≡◌, ◌≢◌, refl, arith}
use bitmarkd.Common.{
  List, [], ◌∷◌, ◌++◌, length, length-append, take, if◌then◌else◌, bit_and, bit_or,
}
use bitmarkd.Common.{◌⊎◌, inl, inr, ◌==◌}
use mathlib.Core.List.{append-nil}
use native.Mathlib.Nat.{sub-zero}
use bitmarkd.Util.Varint.Encode.{to_varint64_shape}
use bitmarkd.Common.Int.{pos}
use bitmarkd.Go.{ok, panicked}
use bitmarkd.Util.Varint.{from_varint64_loop, from_varint64, copy_varint64_loop, copy_varint64}
use bitmarkd.Util.Varint.{to_varint64, clipped_varint64}
use bitmarkd.Util.Varint.RoundTrip.{from_varint64-to_varint64}

abbrev IsByte : ℕ → Type 0
IsByte b = b < 256

-- At byte `c` the loop either runs off the buffer, or uses one more byte at least, nine in all at
-- most, and none beyond the buffer.
from_loop_count :
    (buffer : List ℕ) (acc s c : ℕ)
    → c ≤ 8
    → (from_varint64_loop buffer acc s c ≡ (0, 0))
      ⊎ ((c < (from_varint64_loop buffer acc s c).1)
          × ((from_varint64_loop buffer acc s c).1 ≤ 9)
          × ((from_varint64_loop buffer acc s c).1 ≤ c + length buffer))
unfolding from_varint64_loop
from_loop_count [] acc s c h = inl refl
from_loop_count (b ∷ bs) acc s c h =
    ground
      (arith, from_loop_count bs (bit_or acc (bit_and b 0x7f * 2 ^ s % 2 ^ 64)) (s + 7) (c + 1))

-- FromVarint64 uses at most 9 bytes and never more than the buffer holds; where it uses none, the
-- value is 0.
pub from_varint64_count :
    (buffer : List ℕ)
    → ((from_varint64 buffer).1 ≤ 9)
      × ((from_varint64 buffer).1 ≤ length buffer)
      × ((from_varint64 buffer).1 ≡ 0 → (from_varint64 buffer).0 ≡ 0)
unfolding from_varint64
from_varint64_count buffer = elim (from_loop_count buffer 0 0 0 (omega arith)) [
  | inl e ↦ rw e (omega arith, omega arith, λ _. refl)
  | inr (p, q, r) ↦ (q, omega arith, λ z. absurd (omega arith))
]

from_loop-append :
    (buffer more : List ℕ) (acc s c : ℕ)
    → (from_varint64_loop buffer acc s c).1 ≢ 0
    → from_varint64_loop (buffer ++ more) acc s c ≡ from_varint64_loop buffer acc s c
unfolding from_varint64_loop
from_loop-append [] more acc s c h = absurd (h refl)
from_loop-append (b ∷ bs) more acc s c h =
    ground (
      arith,
      from_loop-append bs more (bit_or acc (bit_and b 0x7f * 2 ^ s % 2 ^ 64)) (s + 7) (c + 1),
    )

-- Where FromVarint64 reads a number from a buffer, it reads the same number, of as many bytes, from
-- the buffer with more bytes behind it.
pub from_varint64-append :
    (buffer more : List ℕ)
    → (from_varint64 buffer).1 ≢ 0
    → from_varint64 (buffer ++ more) ≡ from_varint64 buffer
unfolding from_varint64
from_varint64-append buffer more h = from_loop-append buffer more 0 0 0 h

-- Of the bytes that ToVarint64 writes for a uint64, FromVarint64 reads every proper prefix as 0 with
-- the count 0.
pub from_varint64_truncated :
    (value x : ℕ) (front back : List ℕ)
    → value < 2 ^ 64
    → to_varint64 value ≡ front ++ (x ∷ back)
    → from_varint64 front ≡ (0, 0)
unfolding from_varint64
from_varint64_truncated value x front back h e = elim (from_loop_count front 0 0 0 (omega arith)) [
  | inl z ↦ z
  | inr (p, q, r) ↦ absurd (
      ground (
        arith,
        e,
        from_varint64-to_varint64 value [] h,
        append-nil (to_varint64 value),
        from_loop-append front (x ∷ back) 0 0 0 (omega arith),
        length-append front (x ∷ back),
      ))
]

-- For a value from `low` to `high`, where `low` is below `high` and `high` below 2 ^ 63,
-- ClippedVarint64 with these limits returns the value and the number of bytes that ToVarint64 wrote for
-- it, whatever follows them.
pub clipped_varint64-to_varint64 :
    (value low high : ℕ) (rest : List ℕ)
    → low ≤ value
    → value ≤ high
    → low < high
    → high < 2 ^ 63
    → clipped_varint64 (to_varint64 value ++ rest) (pos low) (pos high)
      ≡ (value, length (to_varint64 value))
unfolding clipped_varint64
clipped_varint64-to_varint64 value low high rest h k l m =
    rw (from_varint64-to_varint64 value rest (omega arith))
      (ground (arith, to_varint64_shape value (omega arith)))

take_one {ℓ} : {A : Type ℓ} (n : ℕ) (x : A) (xs : List A) → n ≡ 1 → take n (x ∷ xs) ≡ x ∷ []
take_one n x xs h = rw h refl

take_more {ℓ} :
    {A : Type ℓ} (n m : ℕ) (x : A) (xs : List A) → n ≡ suc m → take n (x ∷ xs) ≡ x ∷ take m xs
take_more n m x xs h = rw h refl

copy_loop-from_loop :
    (rounds : ℕ) (buffer : List ℕ) (acc s c : ℕ)
    → suc rounds + c ≡ 9
    → copy_varint64_loop (suc rounds) buffer ≡ (
        if (from_varint64_loop buffer acc s c).1 == 0
        then panicked
        else ok (take ((from_varint64_loop buffer acc s c).1 - c) buffer))
unfolding from_varint64_loop copy_varint64_loop
copy_loop-from_loop rounds [] acc s c h = refl
copy_loop-from_loop zero (b ∷ bs) acc s c h =
    ground (arith, take_one (c + 1 - c) b bs (omega arith))
copy_loop-from_loop (suc rounds) (b ∷ bs) acc s c h =
    let low : ℕ = bit_or acc (bit_and b 0x7f * 2 ^ s % 2 ^ 64) in
    let n : ℕ = (from_varint64_loop bs low (s + 7) (c + 1)).1 in
    ground (
      arith,
      copy_loop-from_loop rounds bs low (s + 7) (c + 1) (omega arith),
      from_loop_count bs low (s + 7) (c + 1) (omega arith),
      take_one (c + 1 - c) b bs (omega arith),
      take_more (n - c) (n - (c + 1)) b bs,
    )

-- CopyVarint64 copies exactly the bytes that FromVarint64 counts, and panics exactly where
-- FromVarint64 finds the buffer truncated.
pub copy_varint64-from_varint64 :
    (buffer : List ℕ)
    → copy_varint64 buffer ≡ (
        if (from_varint64 buffer).1 == 0
        then panicked
        else ok (take (from_varint64 buffer).1 buffer))
unfolding copy_varint64 from_varint64
copy_varint64-from_varint64 buffer =
    simp sub-zero at (copy_loop-from_loop 8 buffer 0 0 0 (omega arith))
