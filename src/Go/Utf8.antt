-- ===== src/Go/Utf8.antt =====
-- unicode/utf8.RuneCountInString of the standard library, which the length limits of the source
-- are stated in: a byte that begins no valid encoding counts as one rune.
use bitmarkd.Common.{
  ◌<◌, ◌≡◌, refl, ap, All, ℕ, zero, suc, ◌+◌, ◌*◌, ◌≤◌, List, [], ◌∷◌, ltb, leb, ◌==◌,
  if◌then◌else◌,
}
use bitmarkd.Common.{Bool, true, false, ◌&&◌, length, arith}

within : ℕ → ℕ → ℕ → Bool
within low high b = leb low b && leb b high

-- `k` bytes in 0x80..0xbf stand at the front.
continues : ℕ → List ℕ → Bool
unfolding within
continues zero bs = true
continues (suc k) [] = false
continues (suc k) (b ∷ bs) = within 0x80 0xbf b && continues k bs

-- The second byte in low..high, then `k` more.
second : ℕ → ℕ → ℕ → List ℕ → Bool
unfolding within continues
second low high k [] = false
second low high k (b ∷ bs) = within low high b && continues k bs

-- How many bytes the rune that begins with `b` has behind it.
rune_tail : ℕ → List ℕ → ℕ
unfolding second within
rune_tail b rest =
    if ltb b 0xc2
    then 0
    else if leb b 0xdf
    then (if second 0x80 0xbf 0 rest then 1 else 0)
    else if b == 0xe0
    then (if second 0xa0 0xbf 1 rest then 2 else 0)
    else if b == 0xed
    then (if second 0x80 0x9f 1 rest then 2 else 0)
    else if leb b 0xef
    then (if second 0x80 0xbf 1 rest then 2 else 0)
    else if b == 0xf0
    then (if second 0x90 0xbf 2 rest then 3 else 0)
    else if leb b 0xf3
    then (if second 0x80 0xbf 2 rest then 3 else 0)
    else if b == 0xf4
    then (if second 0x80 0x8f 2 rest then 3 else 0)
    else 0

-- The count, where `skip` bytes still belong to the last rune.
unfoldable pub rune_count_loop : ℕ → List ℕ → ℕ
unfolding rune_tail
rune_count_loop skip [] = 0
rune_count_loop zero (b ∷ rest) = suc (rune_count_loop (rune_tail b rest) rest)
rune_count_loop (suc skip) (b ∷ rest) = rune_count_loop skip rest

unfoldable pub rune_count : List ℕ → ℕ
unfolding rune_count_loop
rune_count s = rune_count_loop 0 s

rune_tail_le : (b : ℕ) (rest : List ℕ) → rune_tail b rest ≤ 3
unfolding rune_tail
rune_tail_le b rest = ground arith

loop_bound : (skip : ℕ) (s : List ℕ) → length s ≤ skip + 4 * rune_count_loop skip s
unfolding rune_count_loop
loop_bound skip [] = omega arith
loop_bound zero (b ∷ rest) = omega (arith, loop_bound (rune_tail b rest) rest, rune_tail_le b rest)
loop_bound (suc skip) (b ∷ rest) = omega (arith, loop_bound skip rest)

-- A rune takes four bytes at most.
pub length-rune_count : (s : List ℕ) → length s ≤ 4 * rune_count s
unfolding rune_count
length-rune_count s = omega (arith, loop_bound 0 s)

-- A text has no more runes than bytes.
loop_le : (skip : ℕ) (s : List ℕ) → rune_count_loop skip s ≤ length s
unfolding rune_count_loop
loop_le skip [] = omega arith
loop_le zero (b ∷ rest) = omega (arith, loop_le (rune_tail b rest) rest)
loop_le (suc skip) (b ∷ rest) = omega (arith, loop_le skip rest)

pub rune_count-le : (s : List ℕ) → rune_count s ≤ length s
unfolding rune_count
rune_count-le s = loop_le 0 s

rune_tail-ascii : (b : ℕ) (rest : List ℕ) → b < 128 → rune_tail b rest ≡ 0
unfolding rune_tail
rune_tail-ascii b rest h = ground arith

loop_ascii : (s : List ℕ) → All (λ b. b < 128) s → rune_count_loop 0 s ≡ length s
unfolding rune_count_loop
loop_ascii [] h = refl
loop_ascii (b ∷ bs) (h, hs) = rw (rune_tail-ascii b bs h) (ap suc (loop_ascii bs hs))

-- Of ASCII text every byte is a rune.
pub rune_count-ascii : (s : List ℕ) → All (λ b. b < 128) s → rune_count s ≡ length s
unfolding rune_count
rune_count-ascii s h = loop_ascii s h
