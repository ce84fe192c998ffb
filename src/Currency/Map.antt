-- ===== src/Currency/Map.antt =====
-- currency/mapped.go: addresses by currency, and their packed form.
-- A Go map is the list of its entries, in the order in which the run-time system happens to
-- iterate; the key of each entry is unique.
use bitmarkd.Common.{ℕ, zero, suc, ◌+◌, Bool, not, List, [], ◌∷◌, ◌++◌, ◌==◌, ltb}
use bitmarkd.Common.{if◌then◌else◌, length}
use bitmarkd.Common.Int.{pos}
use bitmarkd.Crypto.{Crypto}
use bitmarkd.Currency
use bitmarkd.Currency.{Currency, from_uint64}
use bitmarkd.Currency.Set.{Set, add, make_set}
use bitmarkd.Currency.Validate.{validate_address}
use bitmarkd.Fault.{invalid_currency, invalid_buffer, invalid_count}
use bitmarkd.Go.{Result, ok, exhausted, ◌>>=◌, ◌>>◌, refuse, Slice, slice_from, slice_range}
use bitmarkd.Util.Varint.{to_varint64, from_varint64, clipped_varint64}

abbrev pub Map : Type 0
Map = List (Currency × List ℕ)

-- m[currency]: the empty text if there is no such key.
unfoldable pub lookup : Currency → Map → List ℕ
lookup c [] = []
lookup c ((k, address) ∷ m) = if k == c then address else lookup c m

-- m[currency] = address
unfoldable pub insert : Currency → List ℕ → Map → Map
insert c address [] = (c, address) ∷ []
insert c address ((k, old) ∷ m) = if k == c then (k, address) ∷ m else (k, old) ∷ insert c address m

-- The loop of Pack from `currency` on, with `rounds` currencies left, on the buffer and on the
-- count of packed items.
unfoldable pub pack_loop : Crypto → Bool → Map → ℕ → Currency → List ℕ → ℕ → Result (List ℕ × ℕ)
unfolding lookup
pack_loop c testnet m zero currency buffer n = ok (buffer, n)
pack_loop c testnet m (suc rounds) currency buffer n =
    let address = lookup currency m in
    let item = to_varint64 currency ++ (to_varint64 (length address) ++ address) in
    let skipped = pack_loop c testnet m rounds (currency + 1) buffer n in
    let packed = pack_loop c testnet m rounds (currency + 1) (buffer ++ item) (n + 1) in
    if length address == 0
    then skipped
    else (do validate_address c currency address testnet; packed)

unfoldable pub pack : Crypto → Map → Bool → Result (List ℕ)
unfolding pack_loop
pack c m testnet = do
  (buffer, n) ← pack_loop c testnet m Currency.last Currency.first [] 0
  refuse (not (length m == n)) invalid_currency
  ok buffer

-- One item of UnpackMap at `n`: its currency, its address, and where the next item begins. The
-- address may lie beyond the buffer, up to its capacity.
unfoldable pub unpack_item : Crypto → Bool → Slice → ℕ → Result (Currency × List ℕ × ℕ)
unpack_item c testnet buffer n = do
  at_currency ← slice_from buffer n
  let currency_length = (from_varint64 at_currency).1
  refuse (currency_length == 0) invalid_currency
  currency ← from_uint64 (from_varint64 at_currency).0
  refuse (currency == Currency.nothing) invalid_currency
  let n = n + currency_length
  at_address ← slice_from buffer n
  let address_length = (clipped_varint64 at_address (pos 1) (pos 255)).0
  let address_offset = (clipped_varint64 at_address (pos 1) (pos 255)).1
  refuse (address_offset == 0) invalid_count
  let n = n + address_offset
  address ← slice_range buffer n address_length
  validate_address c currency address.visible testnet
  ok (currency, address.visible, n + address_length)

unfoldable pub unpack_loop : Crypto → Bool → Slice → ℕ → ℕ → Map → Set → Result (Map × Set)
unfolding unpack_item
unpack_loop c testnet buffer zero n m cs = exhausted
unpack_loop c testnet buffer (suc fuel) n m cs =
    let rest = (do
      (currency, address, next) ← unpack_item c testnet buffer n
      unpack_loop c testnet buffer fuel next (insert currency address m) (add cs currency).0) in
    if ltb n (length buffer.visible) then rest else ok (m, cs)

-- Each item takes a byte at least, so the length and one more rounds are enough.
unfoldable pub unpack_map : Crypto → Slice → Bool → Result (Map × Set)
unfolding unpack_loop
unpack_map c buffer testnet = do
  refuse (ltb (length buffer.visible) 2) invalid_buffer
  unpack_loop c testnet buffer (suc (length buffer.visible)) 0 [] (make_set [])
