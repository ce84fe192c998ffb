-- ===== src/Util/Base58.antt =====
-- util/base58.go: byte slices as base 58 text. A text is the list of its bytes, and a big.Int that
-- is never negative is a number.
pub mod Ascii
use bitmarkd.Common.{ℕ, zero, suc, ◌+◌, ◌*◌, ◌/◌, ◌%◌, Option, none, some, List, [], ◌∷◌, ◌++◌}
use bitmarkd.Common.{◌==◌, if◌then◌else◌, replicate}
use mathlib.Core.List.{reverse}
use Prim.Native.Char.{code}
use Prim.Native.String.{String}

abbrev codes : String → List ℕ
codes String.[] = []
codes (String.◌∷◌ c s) = code c ∷ codes s

abbrev alphabet : List ℕ
alphabet = codes "123456789ABCDEFGHJKLMNPQRSTUVWXYZabcdefghijkmnopqrstuvwxyz"

-- strings.IndexAny(alphabet, string(b)): a byte above 0x7f is a rune that the alphabet lacks.
unfoldable pub index_any : List ℕ → ℕ → Option ℕ
index_any [] b = none
index_any (c ∷ cs) b =
    if c == b then some 0 else elim (index_any cs b) [ none ↦ none | some i ↦ some (i + 1) ]

-- alphabet[i], for a remainder by 58.
unfoldable pub symbol : List ℕ → ℕ → ℕ
symbol [] i = 0
symbol (c ∷ cs) zero = c
symbol (c ∷ cs) (suc i) = symbol cs i

-- The loop of FromBase58 goes from the last byte to the first: over the reversed text.
unfoldable pub from_base58_loop : List ℕ → ℕ → ℕ → Option ℕ
from_base58_loop [] answer j = some answer
from_base58_loop (b ∷ bs) answer j = elim (index_any alphabet b) [
  | none ↦ none
  | some tmp ↦ from_base58_loop bs (answer + j * tmp) (j * 58)
]

-- big.Int.Bytes: big-endian, with no leading zero. `n` rounds are enough.
unfoldable pub big_bytes_loop : ℕ → ℕ → List ℕ → List ℕ
big_bytes_loop zero n bytes = bytes
big_bytes_loop (suc fuel) n bytes =
    let rest = big_bytes_loop fuel (n / 256) ((n % 256) ∷ bytes) in if n == 0 then bytes else rest

unfoldable pub big_bytes : ℕ → List ℕ
unfolding big_bytes_loop
big_bytes n = big_bytes_loop n n []

-- big.Int.SetBytes
unfoldable pub set_bytes : ℕ → List ℕ → ℕ
set_bytes x [] = x
set_bytes x (b ∷ bs) = set_bytes (x * 256 + b) bs

-- How many times `v` stands at the front.
unfoldable pub count_leading : ℕ → List ℕ → ℕ
count_leading v [] = 0
count_leading v (b ∷ bs) = let rest = count_leading v bs in if b == v then suc rest else 0

unfoldable pub from_base58 : List ℕ → List ℕ
unfolding from_base58_loop index_any big_bytes count_leading
from_base58 b = elim (from_base58_loop (reverse b) 0 1) [
  | none ↦ []
  | some answer ↦ replicate (count_leading b'1' b) 0 ++ big_bytes answer
]

-- The loop of ToBase58: the symbols, lowest first. `x` rounds are enough.
unfoldable pub to_base58_loop : ℕ → ℕ → List ℕ
to_base58_loop zero x = []
to_base58_loop (suc fuel) x =
    let rest = to_base58_loop fuel (x / 58) in
    if x == 0 then [] else symbol alphabet (x % 58) ∷ rest

unfoldable pub to_base58 : List ℕ → List ℕ
unfolding to_base58_loop symbol set_bytes count_leading
to_base58 b =
    let x = set_bytes 0 b in reverse (to_base58_loop x x ++ replicate (count_leading 0 b) b'1')
