-- ===== src/Go/Binary.antt =====
-- encoding/binary: LittleEndian.PutUint16, PutUint64, Uint16 and Uint64, with the size as argument.
use bitmarkd.Common.{
  ℕ, zero, suc, ◌+◌, ◌*◌, ◌/◌, ◌%◌, ◌^◌, ◌<◌, ◌≡◌, refl, ap, ◌∙◌, arith, List, [], ◌∷◌, ◌++◌,
  length,
}
use native.Mathlib.Nat.{pow-suc}
use mathlib.Core.List.{append-nil}

unfoldable pub le_bytes : ℕ → ℕ → List ℕ
le_bytes zero value = []
le_bytes (suc size) value = (value % 256) ∷ le_bytes size (value / 256)

unfoldable pub le_value : List ℕ → ℕ
le_value [] = 0
le_value (b ∷ bs) = b + le_value bs * 256

pub length-le_bytes : (size value : ℕ) → length (le_bytes size value) ≡ size
unfolding le_bytes
length-le_bytes zero value = refl
length-le_bytes (suc size) value = ap suc (length-le_bytes size (value / 256))

pub le_value-le_bytes :
    (size value : ℕ) → value < 256 ^ size → le_value (le_bytes size value) ≡ value
unfolding le_bytes le_value
le_value-le_bytes zero value h = omega arith
le_value-le_bytes (suc size) value h = omega (
  arith,
  pow-suc 256 size,
  le_value-le_bytes size (value / 256) (omega (arith, pow-suc 256 size)),
)

-- BigEndian: the same bytes in the reverse order.
abbrev reverse_onto : List ℕ → List ℕ → List ℕ
reverse_onto [] out = out
reverse_onto (b ∷ bs) out = reverse_onto bs (b ∷ out)

unfoldable pub be_bytes : ℕ → ℕ → List ℕ
unfolding le_bytes
be_bytes size value = reverse_onto (le_bytes size value) []

unfoldable pub be_value : List ℕ → ℕ
unfolding le_value
be_value bytes = le_value (reverse_onto bytes [])

reverse_onto-reverse_onto :
    (bs out rest : List ℕ) → reverse_onto (reverse_onto bs out) rest ≡ reverse_onto out (bs ++ rest)
reverse_onto-reverse_onto [] out rest = refl
reverse_onto-reverse_onto (b ∷ bs) out rest = reverse_onto-reverse_onto bs (b ∷ out) rest

length-reverse_onto : (bs out : List ℕ) → length (reverse_onto bs out) ≡ length bs + length out
length-reverse_onto [] out = omega arith
length-reverse_onto (b ∷ bs) out = omega (arith, length-reverse_onto bs (b ∷ out))

pub length-be_bytes : (size value : ℕ) → length (be_bytes size value) ≡ size
unfolding be_bytes
length-be_bytes size value =
    omega (arith, length-reverse_onto (le_bytes size value) [], length-le_bytes size value)

pub be_value-be_bytes :
    (size value : ℕ) → value < 256 ^ size → be_value (be_bytes size value) ≡ value
unfolding be_bytes be_value
be_value-be_bytes size value h =
    ap le_value
      (reverse_onto-reverse_onto (le_bytes size value) [] [] ∙ append-nil (le_bytes size value))
    ∙ le_value-le_bytes size value h
