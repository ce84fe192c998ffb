-- ===== src/Util/Varint/RoundTrip.antt =====
-- FromVarint64 reads back what ToVarint64 wrote, whatever follows it.
use bitmarkd.Common.{ℕ, zero, suc, ◌+◌, ◌*◌, ◌/◌, ◌%◌, ◌^◌, ◌≤◌, ◌<◌, ◌≡◌, ◌≢◌, arith, ap, ◌∙◌}
use bitmarkd.Common.{List, [], ◌∷◌, ◌++◌, length, ltb, if◌then◌else◌, bit_or, dec_lt}
use bitmarkd.Common.Bits.{bit_or-0x80, bit_or-zero, bit_and-0x7f, bit_and-0x80, bit_or-shifted}
use bitmarkd.Util.Varint.{to_varint64_loop, to_varint64, from_varint64_loop, from_varint64}
use native.Mathlib.Numerals.{towards_suc}

shift_seven : (s : ℕ) → 2 ^ (s + 7) ≡ 128 * 2 ^ s
shift_seven s = simp towards_suc (omega arith)

split_low : (v s : ℕ) → v * 2 ^ s ≡ v % 128 * 2 ^ s + v / 128 * 2 ^ (s + 7)
split_low v s = omega (
  arith,
  ap (λ (t : ℕ). t * 2 ^ s) {x = v} {y = v % 128 + v / 128 * 128} (omega arith),
  ap (λ (t : ℕ). v / 128 * t) (shift_seven s),
)

-- One round on a byte without the top bit.
last_byte :
    (b acc s c : ℕ) (rest : List ℕ)
    → b < 128
    → c < 8
    → acc < 2 ^ s
    → b * 2 ^ s < 2 ^ 64
    → from_varint64_loop (b ∷ rest) acc s c ≡ (acc + b * 2 ^ s, c + 1)
unfolding from_varint64_loop
last_byte b acc s c rest hb hc ha fits =
    ground (arith, bit_and-0x7f b, bit_and-0x80 b, bit_or-shifted s acc b)

-- One round on a byte with the top bit, before the ninth.
inner_byte :
    (g acc s c : ℕ) (rest : List ℕ)
    → g < 128
    → c < 8
    → acc < 2 ^ s
    → g * 2 ^ s < 2 ^ 64
    → from_varint64_loop ((g + 128) ∷ rest) acc s c
      ≡ from_varint64_loop rest (acc + g * 2 ^ s) (s + 7) (c + 1)
unfolding from_varint64_loop
inner_byte g acc s c rest hg hc ha fits =
    ground (arith, bit_and-0x7f (g + 128), bit_and-0x80 (g + 128), bit_or-shifted s acc g)

-- The ninth byte is read whole.
ninth_byte :
    (b acc s : ℕ) (rest : List ℕ)
    → acc < 2 ^ s
    → b * 2 ^ s < 2 ^ 64
    → from_varint64_loop (b ∷ rest) acc s 8 ≡ (acc + b * 2 ^ s, 9)
unfolding from_varint64_loop
ninth_byte b acc s rest ha fits = ground (arith, bit_or-shifted s acc b)

-- What is read so far stays below the next shift.
low_part : (g acc s : ℕ) → g < 128 → acc < 2 ^ s → acc + g * 2 ^ s < 2 ^ (s + 7)
low_part g acc s hg ha =
    let m : g * 2 ^ s ≤ 127 * 2 ^ s = grind arith in omega (arith, shift_seven s)

below_product : (a b p m : ℕ) → a ≤ b → b * p < m → a * p < m
below_product a b p m h k = let q : a * p ≤ b * p = grind arith in omega arith

high_part : (v s : ℕ) → v / 128 * 2 ^ (s + 7) ≤ v * 2 ^ s
high_part v s = omega (arith, split_low v s)

-- The byte that the encoder writes: `value | ext`, cut to eight bits.
whole_byte : (v : ℕ) → v < 256 → bit_or v (if ltb v 0x80 then 0x00 else 0x80) % 256 ≡ v
whole_byte v h = ground (arith, bit_or-0x80 v, bit_or-zero v)

marked_byte : (v : ℕ) → 128 ≤ v → bit_or v (if ltb v 0x80 then 0x00 else 0x80) % 256 ≡ v % 128 + 128
marked_byte v h = ground (arith, bit_or-0x80 v)

to_loop_last : (k v : ℕ) → v ≢ 0 → v < 128 → to_varint64_loop (suc k) v ≡ v ∷ []
unfolding to_varint64_loop
to_loop_last zero v n h = ground (arith, whole_byte v)
to_loop_last (suc k) v n h = ground (arith, whole_byte v)

to_loop_inner :
    (k v : ℕ)
    → 128 ≤ v
    → to_varint64_loop (suc k) v ≡ (v % 128 + 128) ∷ to_varint64_loop k (v / 128)
unfolding to_varint64_loop
to_loop_inner k v h = ground (arith, marked_byte v)

to_loop_ninth : (v : ℕ) → v ≢ 0 → v < 256 → to_varint64_loop 1 v ≡ v ∷ []
unfolding to_varint64_loop
to_loop_ninth v n h = ground (arith, whole_byte v)

ninth_fits : (v s : ℕ) → s ≡ 56 → v * 2 ^ s < 2 ^ 64 → v < 256
ninth_fits v s e h = let h' : v * 2 ^ 56 < 2 ^ 64 = rw e at h in omega arith

-- The reader at byte `c`, with the low `s` bits in `acc`, on what the writer has left to write.
from_loop-to_loop :
    (k v acc s c : ℕ) (rest : List ℕ)
    → v ≢ 0
    → suc k + c ≡ 9
    → s ≡ 7 * c
    → acc < 2 ^ s
    → v * 2 ^ s < 2 ^ 64
    → from_varint64_loop (to_varint64_loop (suc k) v ++ rest) acc s c
      ≡ (acc + v * 2 ^ s, c + length (to_varint64_loop (suc k) v))
from_loop-to_loop zero v acc s c rest n hk hs ha fits =
    let c8 : c ≡ 8 = omega arith in
    let v256 = ninth_fits v s (omega arith) fits in
    rw (to_loop_ninth v n v256, c8) (ninth_byte v acc s rest ha fits)
from_loop-to_loop (suc k) v acc s c rest n hk hs ha fits = elim (dec_lt v 128) [
  | yes small ↦
      rw (to_loop_last (suc k) v n small) (last_byte v acc s c rest small (omega arith) ha fits)
  | no big ↦
      let g : ℕ = v % 128 in
      let big' : 128 ≤ v = omega arith in
      let fits' = below_product g v (2 ^ s) (2 ^ 64) (omega arith) fits in
      let step =
        inner_byte g acc s c (to_varint64_loop (suc k) (v / 128) ++ rest) (omega arith)
          (omega arith) ha fits' in
      let ih =
        from_loop-to_loop k (v / 128) (acc + g * 2 ^ s) (s + 7) (c + 1) rest (omega arith)
          (omega arith) (omega arith) (low_part g acc s (omega arith) ha)
          (omega (arith, high_part v s)) in
      rw (to_loop_inner (suc k) v big') (step ∙ ih ∙ ground (arith, split_low v s))
]

-- For every uint64 `value` and any bytes `rest` behind it, FromVarint64 returns `value` and the
-- number of bytes that ToVarint64 wrote.
pub from_varint64-to_varint64 :
    (value : ℕ) (rest : List ℕ)
    → value < 2 ^ 64
    → from_varint64 (to_varint64 value ++ rest) ≡ (value, length (to_varint64 value))
from_varint64-to_varint64 value rest h = elim (dec_lt value 128) [
  | yes small ↦ one_byte small
  | no big ↦ rw (many (omega arith)) (
      unfold from_varint64 in
      from_loop-to_loop 8 value 0 0 0 rest (omega arith) (omega arith) (omega arith) (omega arith)
        (omega arith)
      ∙ ground arith)
]
  where
    one : value < 128 → to_varint64 value ≡ value ∷ []
    one s = unfold to_varint64 in ground arith

    one_byte :
        value < 128
        → from_varint64 (to_varint64 value ++ rest) ≡ (value, length (to_varint64 value))
    one_byte s = rw (one s) (
        unfold from_varint64 in
        last_byte value 0 0 0 rest s (omega arith) (omega arith) (omega arith) ∙ ground arith)

    many : 128 ≤ value → to_varint64 value ≡ to_varint64_loop 9 value
    many b = unfold to_varint64 in ground arith
