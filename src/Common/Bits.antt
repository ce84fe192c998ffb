-- ===== src/Common/Bits.antt =====
-- `|` and `&` on disjoint fields, as arithmetic, from the digit recursion that the operations mean.
use Prim.Native.Nat.{ℕ, zero, suc, ◌+◌, ◌*◌, ◌/◌, ◌%◌, ◌^◌, ◌≤◌, ◌<◌, min, max}
use Prim.Native.Nat.{bit_and, bit_or, digits, bitwise, bit_and-bitwise, bit_or-bitwise}
use mathlib.Core.Path.{◌≡◌, refl, ap, ◌∙◌}
use native.Mathlib.Omega.{arith}
use native.Mathlib.Nat.{pow-suc}

module _ (z : ℕ → ℕ) (f : ℕ → ℕ → ℕ) where
  -- More fuel than digits changes nothing.
  enough_digits :
      (fuel more x y : ℕ) → x ≤ fuel → x ≤ more → digits z f fuel x y ≡ digits z f more x y
  enough_digits (suc fuel) (suc more) (suc x) y h k =
      rw (enough_digits fuel more (suc x / 2) (y / 2) (omega arith) (omega arith))
  enough_digits (suc fuel) (suc more) zero y h k = refl
  enough_digits (suc fuel) zero zero y h k = refl
  enough_digits (suc fuel) zero (suc x) y h k = absurd (omega arith)
  enough_digits zero (suc more) zero y h k = refl
  enough_digits zero (suc more) (suc x) y h k = absurd (omega arith)
  enough_digits zero zero x y h k = refl

  lowest_digit :
      (x y : ℕ)
      → bitwise z f (suc x) y ≡ f (suc x % 2) (y % 2) + bitwise z f (suc x / 2) (y / 2) * 2
  lowest_digit x y =
      omega (arith, enough_digits x (suc x / 2) (suc x / 2) (y / 2) (omega arith) (omega arith))

or_digit : (a b : ℕ) → bit_or a b ≡ bit_or (a / 2) (b / 2) * 2 + max (a % 2) (b % 2)
or_digit zero b = simp bit_or-bitwise (omega arith)
or_digit (suc a) b = simp bit_or-bitwise (omega (arith, lowest_digit (λ y. y) max a b))

and_digit : (a b : ℕ) → bit_and a b ≡ bit_and (a / 2) (b / 2) * 2 + min (a % 2) (b % 2)
and_digit zero b = simp bit_and-bitwise (omega arith)
and_digit (suc a) b = simp bit_and-bitwise (omega (arith, lowest_digit (λ y. 0) min a b))

zero-bit_or : (b : ℕ) → bit_or 0 b ≡ b
zero-bit_or b = bit_or-bitwise 0 b

double : (q k : ℕ) → q * 2 ^ suc k ≡ 2 * (q * 2 ^ k)
double q k = omega (arith, ap (λ (t : ℕ). q * t) (pow-suc 2 k))

-- `r | q << k` is a sum when `r` fits in `k` bits.
pub bit_or-shifted : (k r q : ℕ) → r < 2 ^ k → bit_or r (q * 2 ^ k) ≡ r + q * 2 ^ k
bit_or-shifted zero r q h =
    let r0 : r ≡ 0 = omega arith in rw r0 (zero-bit_or (q * 2 ^ 0) ∙ omega arith)
bit_or-shifted (suc k) r q h = omega (
  arith,
  or_digit r (q * 2 ^ suc k),
  double q k,
  pow-suc 2 k,
  ap (λ (t : ℕ). bit_or (r / 2) t) {x = q * 2 ^ suc k / 2} {y = q * 2 ^ k}
      (omega (arith, double q k)),
  bit_or-shifted k (r / 2) q (omega (arith, pow-suc 2 k)),
)

and-zero : (n a : ℕ) → a ≤ n → bit_and a 0 ≡ 0
and-zero zero a h = let a0 : a ≡ 0 = omega arith in rw a0 (bit_and-bitwise 0 0)
and-zero (suc n) zero h = bit_and-bitwise 0 0
and-zero (suc n) (suc a) h =
    omega (arith, and_digit (suc a) 0, and-zero n (suc a / 2) (omega arith))

and_one : (a : ℕ) → bit_and a 1 ≡ a % 2
and_one a = omega (arith, and_digit a 1, and-zero (a / 2) (a / 2) (omega arith))

and_two : (a : ℕ) → bit_and a 2 ≡ a / 2 % 2 * 2
and_two a = omega (arith, and_digit a 2, and_one (a / 2))

pub bit_and-one : (a : ℕ) → bit_and a 1 ≡ a % 2
bit_and-one a = and_one a

pub bit_and_two : (a : ℕ) → bit_and a 2 ≡ a / 2 % 2 * 2
bit_and_two a = and_two a

-- The low seven bits, and the top bit of a byte.
and_three : (a : ℕ) → bit_and a 3 ≡ a % 4
and_three a = omega (arith, and_digit a 3, and_one (a / 2))

and_seven : (a : ℕ) → bit_and a 7 ≡ a % 8
and_seven a = omega (arith, and_digit a 7, and_three (a / 2))

and_15 : (a : ℕ) → bit_and a 15 ≡ a % 16
and_15 a = omega (arith, and_digit a 15, and_seven (a / 2))

and_31 : (a : ℕ) → bit_and a 31 ≡ a % 32
and_31 a = omega (arith, and_digit a 31, and_15 (a / 2))

and_63 : (a : ℕ) → bit_and a 63 ≡ a % 64
and_63 a = omega (arith, and_digit a 63, and_31 (a / 2))

pub bit_and-0x7f : (a : ℕ) → bit_and a 0x7f ≡ a % 128
bit_and-0x7f a = omega (arith, and_digit a 127, and_63 (a / 2))

and_four : (a : ℕ) → bit_and a 4 ≡ a / 4 % 2 * 4
and_four a = omega (arith, and_digit a 4, and_two (a / 2))

and_8 : (a : ℕ) → bit_and a 8 ≡ a / 8 % 2 * 8
and_8 a = omega (arith, and_digit a 8, and_four (a / 2))

and_16 : (a : ℕ) → bit_and a 16 ≡ a / 16 % 2 * 16
and_16 a = omega (arith, and_digit a 16, and_8 (a / 2))

and_32 : (a : ℕ) → bit_and a 32 ≡ a / 32 % 2 * 32
and_32 a = omega (arith, and_digit a 32, and_16 (a / 2))

and_64 : (a : ℕ) → bit_and a 64 ≡ a / 64 % 2 * 64
and_64 a = omega (arith, and_digit a 64, and_32 (a / 2))

pub bit_and-0x80 : (a : ℕ) → bit_and a 0x80 ≡ a / 128 % 2 * 128
bit_and-0x80 a = omega (arith, and_digit a 128, and_64 (a / 2))

or_zero : (n a : ℕ) → a ≤ n → bit_or a 0 ≡ a
or_zero zero a h = let a0 : a ≡ 0 = omega arith in rw a0 (bit_or-bitwise 0 0)
or_zero (suc n) zero h = bit_or-bitwise 0 0
or_zero (suc n) (suc a) h = omega (arith, or_digit (suc a) 0, or_zero n (suc a / 2) (omega arith))

pub bit_or-zero : (a : ℕ) → bit_or a 0 ≡ a
bit_or-zero a = or_zero a a (omega arith)

or_one : (a : ℕ) → bit_or a 1 ≡ a / 2 * 2 + 1
or_one a = omega (arith, or_digit a 1, bit_or-zero (a / 2))

or_two : (a : ℕ) → bit_or a 2 ≡ a / 4 * 4 + a % 2 + 2
or_two a = omega (arith, or_digit a 2, or_one (a / 2))

or_four : (a : ℕ) → bit_or a 4 ≡ a / 8 * 8 + a % 4 + 4
or_four a = omega (arith, or_digit a 4, or_two (a / 2))

or_8 : (a : ℕ) → bit_or a 8 ≡ a / 16 * 16 + a % 8 + 8
or_8 a = omega (arith, or_digit a 8, or_four (a / 2))

or_16 : (a : ℕ) → bit_or a 16 ≡ a / 32 * 32 + a % 16 + 16
or_16 a = omega (arith, or_digit a 16, or_8 (a / 2))

or_32 : (a : ℕ) → bit_or a 32 ≡ a / 64 * 64 + a % 32 + 32
or_32 a = omega (arith, or_digit a 32, or_16 (a / 2))

or_64 : (a : ℕ) → bit_or a 64 ≡ a / 128 * 128 + a % 64 + 64
or_64 a = omega (arith, or_digit a 64, or_32 (a / 2))

pub bit_or-0x80 : (a : ℕ) → bit_or a 0x80 ≡ a / 256 * 256 + a % 128 + 128
bit_or-0x80 a = omega (arith, or_digit a 128, or_64 (a / 2))

-- `|` needs no more bits than its arguments.
pub bit_or-lt : (k a b : ℕ) → a < 2 ^ k → b < 2 ^ k → bit_or a b < 2 ^ k
bit_or-lt zero a b ha hb =
    let a0 : a ≡ 0 = omega arith in let b0 : b ≡ 0 = omega arith in rw (a0, b0) (omega arith)
bit_or-lt (suc k) a b ha hb = omega (
  arith,
  or_digit a b,
  pow-suc 2 k,
  bit_or-lt k (a / 2) (b / 2) (omega (arith, pow-suc 2 k)) (omega (arith, pow-suc 2 k)),
)
