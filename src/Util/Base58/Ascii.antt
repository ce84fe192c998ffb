-- ===== src/Util/Base58/Ascii.antt =====
-- A text that FromBase58 decodes to anything but nothing has only ASCII characters, so that it has
-- as many runes as bytes.
use bitmarkd.Common.{ℕ, ◌+◌, ◌*◌, ◌<◌, ◌≡◌, ◌≢◌, refl, arith, List, [], ◌∷◌, some, All}
use bitmarkd.Common.{length, inl, inr, Option-cases}
use bitmarkd.Go.Utf8.{rune_count, rune_count-ascii}
use bitmarkd.Util.Base58.{index_any, alphabet, from_base58_loop, from_base58}
use mathlib.Core.List.{reverse, reverse_aux}

abbrev IsAscii : ℕ → Type 0
IsAscii b = b < 128

index_any-IsAscii : (cs : List ℕ) (b i : ℕ) → All IsAscii cs → index_any cs b ≡ some i → IsAscii b
unfolding index_any
index_any-IsAscii [] b i a h = cc
index_any-IsAscii (c ∷ cs) b i (a, rest) h = elim (Option-cases (index_any cs b)) [
  | inl e ↦ ground arith
  | inr (j, e) ↦ ground (arith, index_any-IsAscii cs b j rest e)
]

alphabet-IsAscii : All IsAscii alphabet
alphabet-IsAscii = omega arith

loop-IsAscii :
    (bs : List ℕ) (answer j r : ℕ) → from_base58_loop bs answer j ≡ some r → All IsAscii bs
unfolding from_base58_loop
loop-IsAscii [] answer j r h = tt
loop-IsAscii (b ∷ bs) answer j r h = elim (Option-cases (index_any alphabet b)) [
  | inl e ↦ absurd (ground arith)
  | inr (i, e) ↦ (
    index_any-IsAscii alphabet b i alphabet-IsAscii e,
    loop-IsAscii bs (answer + j * i) (j * 58) r (rw (e, from_base58_loop) at h),
  )
]

All-reverse_aux :
    (xs ys : List ℕ) → All IsAscii (reverse_aux xs ys) → All IsAscii xs × All IsAscii ys
All-reverse_aux [] ys h = (tt, h)
All-reverse_aux (x ∷ xs) ys h = let (hx, hy) = All-reverse_aux xs (x ∷ ys) h in ((hy.0, hx), hy.1)

from_base58-IsAscii : (b : List ℕ) → from_base58 b ≢ [] → All IsAscii b
unfolding from_base58
from_base58-IsAscii b h = elim (Option-cases (from_base58_loop (reverse b) 0 1)) [
  | inl e ↦ absurd (h (rw (e, from_base58) refl))
  | inr (r, e) ↦ (All-reverse_aux b [] (loop-IsAscii (reverse b) 0 1 r e)).0
]

-- The limit on the runes of an address that decodes is one on its bytes.
pub rune_count-from_base58 : (b : List ℕ) → from_base58 b ≢ [] → rune_count b ≡ length b
rune_count-from_base58 b h = rune_count-ascii b (from_base58-IsAscii b h)
