-- ===== src/Util/Varint.antt =====
-- util/varint.go: 64-bit integers in 1 to 9 bytes, and the readers of a buffer's front.
-- A byte slice is the list of its bytes; a uint64 is a number below 2 ^ 64.
pub mod Encode
pub mod Decode
pub mod RoundTrip
use bitmarkd.Common.{ℕ, zero, suc, ◌+◌, ◌*◌, ◌/◌, ◌%◌, ◌^◌, bit_and, bit_or, Bool, ◌||◌}
use bitmarkd.Common.{List, [], ◌∷◌, ltb, ◌==◌, if◌then◌else◌}
use bitmarkd.Common.Int.{ℤ, pos, pos_part, ltℤ, leℤ, signed64}
use bitmarkd.Go.{Result, ok, panicked, ◌>>=◌}

abbrev pub varint64_maximum_bytes : ℕ
varint64_maximum_bytes = 9

-- The loop of ToVarint64, over the rounds left: `i` counts up to the maximum.
unfoldable pub to_varint64_loop : ℕ → ℕ → List ℕ
to_varint64_loop zero value = []
to_varint64_loop (suc rounds) value =
    let ext : ℕ = if ltb value 0x80 then 0x00 else 0x80 in
    let rest = to_varint64_loop rounds (value / 2 ^ 7) in
    if value == 0 then [] else (bit_or value ext % 256) ∷ rest

unfoldable pub to_varint64 : ℕ → List ℕ
unfolding to_varint64_loop
to_varint64 value =
    if ltb value 0x80 then (value % 256) ∷ [] else to_varint64_loop varint64_maximum_bytes value

-- The loop of FromVarint64, over the bytes that `count` has not reached.
unfoldable pub from_varint64_loop : List ℕ → ℕ → ℕ → ℕ → ℕ × ℕ
from_varint64_loop [] result shift count = (0, 0)
from_varint64_loop (curr_byte ∷ rest) result shift count =
    let low = bit_or result (bit_and curr_byte 0x7f * 2 ^ shift % 2 ^ 64) in
    let more = from_varint64_loop rest low (shift + 7) (count + 1) in
    if ltb (count + 1) varint64_maximum_bytes
    then (if bit_and curr_byte 0x80 == 0 then (low, count + 1) else more)
    else (bit_or result (curr_byte * 2 ^ shift % 2 ^ 64), count + 1)

-- The value and the number of bytes used: 0, 0 if the buffer is truncated.
unfoldable pub from_varint64 : List ℕ → ℕ × ℕ
unfolding from_varint64_loop
from_varint64 buffer = from_varint64_loop buffer 0 0 0

-- The loop of CopyVarint64; an index past the buffer panics.
unfoldable pub copy_varint64_loop : ℕ → List ℕ → Result (List ℕ)
copy_varint64_loop zero buffer = ok []
copy_varint64_loop (suc rounds) [] = panicked
copy_varint64_loop (suc rounds) (current_byte ∷ rest) =
    let more = copy_varint64_loop rounds rest in
    if bit_and current_byte 0x80 == 0
    then ok (current_byte ∷ [])
    else (do tail ← more; ok (current_byte ∷ tail))

unfoldable pub copy_varint64 : List ℕ → Result (List ℕ)
unfolding copy_varint64_loop
copy_varint64 buffer = copy_varint64_loop varint64_maximum_bytes buffer

-- The limits are signed. The value that is returned is never negative, so it is a number.
unfoldable pub clipped_varint64 : List ℕ → ℤ → ℤ → ℕ × ℕ
unfolding from_varint64
clipped_varint64 buffer minimum maximum =
    if ltℤ minimum (pos 0) || (ltℤ maximum (pos 0) || leℤ maximum minimum)
    then (0, 0)
    else (let (value, count) = from_varint64 buffer in
        let i_value = signed64 value in
        if count == 0
        then (0, 0)
        else if ltℤ i_value minimum || ltℤ maximum i_value
        then (0, 0)
        else (pos_part i_value, count))
