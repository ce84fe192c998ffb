-- ===== src/Go/Slices.antt =====
-- Slice expressions at an offset whose bytes are known.
use bitmarkd.Common.{ℕ, ◌+◌, ◌≤◌, ◌≡◌, refl, arith, List, ◌++◌, length, drop}
use bitmarkd.Common.{take-append, drop-append, drop-append_le, length-append, le→leb}
use bitmarkd.Go.{ok, Slice, slice_from, slice_range}
use mathlib.Core.List.{append_assoc}

-- s[n:]
pub slice_from-at :
    (s : Slice) (n : ℕ) (rest : List ℕ)
    → drop n s.visible ≡ rest
    → n + length rest ≡ length s.visible
    → slice_from s n ≡ ok rest
unfolding slice_from
slice_from-at s n rest at fits = rw (le→leb n (length s.visible) (omega arith), at) refl

-- s[n : n+k] where `bytes` and then `tail` stand at `n`: the rest of the array is its capacity.
pub slice_range-at :
    (s : Slice) (n : ℕ) (bytes tail : List ℕ)
    → drop n s.visible ≡ bytes ++ tail
    → n + length (bytes ++ tail) ≡ length s.visible
    → slice_range s n (length bytes) ≡ ok (record { visible = bytes; spare = tail ++ s.spare })
unfolding slice_range
slice_range-at s n bytes tail at fits =
    rw
      (
        le→leb (n + length bytes) (length (s.visible ++ s.spare)) enough,
        drop-append_le n s.visible s.spare (omega arith),
        at,
        append_assoc bytes tail s.spare,
        take-append,
        drop-append,
      )
      refl
  where
    enough : n + length bytes ≤ length (s.visible ++ s.spare)
    enough = omega (arith, length-append {0} s.visible s.spare, length-append {0} bytes tail)
