-- ===== src/Currency/Payments.antt =====
-- Addresses and their packed map: what Pack writes, UnpackMap reads.
use bitmarkd.Common.{
  ℕ, zero, suc, ◌+◌, ◌≤◌, ◌<◌, ◌^◌, ◌≡◌, ◌≢◌, refl, sym, ap, ◌∙◌, arith, List, [], ◌∷◌, ◌++◌,
}
use bitmarkd.Common.{
  Bool, false, length, drop, ◌==◌, length-append, drop-append, drop-drop, le→ltb, lt→ltb,
}
use bitmarkd.Crypto.{Crypto}
use bitmarkd.Currency
use bitmarkd.Currency.{Currency, from_uint64}
use bitmarkd.Currency.Bitcoin
use bitmarkd.Currency.Litecoin
use bitmarkd.Currency.Set.{Set, add, make_set}
use bitmarkd.Currency.Validate.{validate_address}
use bitmarkd.Currency.Map.{Map, lookup, insert, pack, unpack_item, unpack_loop, unpack_map}
use bitmarkd.Fault.{invalid_bitcoin_address, invalid_litecoin_address}
use bitmarkd.Go.{ok, err, Slice}
use bitmarkd.Go.Slices.{slice_from-at, slice_range-at}
use bitmarkd.Util.Base58.{from_base58}
use bitmarkd.Util.Base58.Ascii.{rune_count-from_base58}
use bitmarkd.Util.Varint.{to_varint64}
use bitmarkd.Util.Varint.Encode.{to_varint64_shape, to_varint64_written}
use bitmarkd.Util.Varint.Decode.{clipped_varint64-to_varint64}
use bitmarkd.Util.Varint.RoundTrip.{from_varint64-to_varint64}
use mathlib.Core.List.{append_assoc, append-nil}

bitcoin_undecoded :
    (c : Crypto) (address : List ℕ)
    → from_base58 address ≡ []
    → Bitcoin.validate_address c address ≡ err invalid_bitcoin_address
unfolding Bitcoin.validate_address
bitcoin_undecoded c address e = rw (e, Bitcoin.validate_address) refl

litecoin_undecoded :
    (c : Crypto) (address : List ℕ)
    → from_base58 address ≡ []
    → Litecoin.validate_address c address ≡ err invalid_litecoin_address
unfolding Litecoin.validate_address
litecoin_undecoded c address e = rw (e, Litecoin.validate_address) refl

-- An address that ValidateAddress accepts for a currency proper decodes, and so has 64 bytes at
-- most.
decoded :
    (c : Crypto) (currency : ℕ) (address : List ℕ) (testnet : Bool)
    → 1 ≤ currency
    → validate_address c currency address testnet ≡ ok tt
    → from_base58 address ≢ []
unfolding validate_address
decoded c currency address testnet h v e =
    ground (arith, bitcoin_undecoded c address e, litecoin_undecoded c address e)

pub length-address :
    (c : Crypto) (currency : ℕ) (address : List ℕ) (testnet : Bool)
    → 1 ≤ currency
    → validate_address c currency address testnet ≡ ok tt
    → length address ≤ 64
unfolding validate_address
length-address c currency address testnet h v =
    ground (arith, rune_count-from_base58 address (decoded c currency address testnet h v))

-- The bytes of one item.
abbrev pub item : Currency → List ℕ → List ℕ
item currency address = to_varint64 currency ++ (to_varint64 (length address) ++ address)

item-at :
    (prefix bytes : List ℕ) (s : Slice) (n : ℕ) (tail : List ℕ)
    → drop n s.visible ≡ (prefix ++ bytes) ++ tail
    → n + length ((prefix ++ bytes) ++ tail) ≡ length s.visible
    → (drop n s.visible ≡ prefix ++ (bytes ++ tail))
      × (n + length (prefix ++ (bytes ++ tail)) ≡ length s.visible)
      × (drop (n + length prefix) s.visible ≡ bytes ++ tail)
      × (n + length prefix + length (bytes ++ tail) ≡ length s.visible)
item-at prefix bytes s n tail at fits =
    let here : drop n s.visible ≡ prefix ++ (bytes ++ tail) = at ∙ append_assoc prefix bytes tail in
    let fits' : n + length (prefix ++ (bytes ++ tail)) ≡ length s.visible =
      ap (λ (l : List ℕ). n + length l) (sym (append_assoc prefix bytes tail)) ∙ fits in
    (
      here,
      fits',
      drop-drop (length prefix) n s.visible
          ∙ ap (drop (length prefix)) here
          ∙ drop-append prefix (bytes ++ tail),
      omega (arith, length-append {0} prefix (bytes ++ tail)),
    )

-- UnpackMap reads one item back.
unpack_item-item :
    (c : Crypto) (testnet : Bool) (s : Slice) (n : ℕ) (currency : ℕ) (address tail : List ℕ)
    → 1 ≤ currency
    → currency < 3
    → 1 ≤ length address
    → validate_address c currency address testnet ≡ ok tt
    → drop n s.visible ≡ item currency address ++ tail
    → n + length (item currency address ++ tail) ≡ length s.visible
    → unpack_item c testnet s n ≡ ok (currency, address, n + length (item currency address))
unfolding unpack_item from_uint64
unpack_item-item c testnet s n currency address tail lo hi long valid at fits =
    let one = to_varint64 currency in
    let two = to_varint64 (length address) in
    let (at1, fits1, at2, fits2) = item-at one (two ++ address) s n tail at fits in
    let (at3, fits3, at4, fits4) = item-at two address s (n + length one) tail at2 fits2 in
    let short = length-address c currency address testnet lo valid in
    rw
      (
        slice_from-at s n _ at1 fits1,
        from_varint64-to_varint64 currency ((two ++ address) ++ tail) (omega arith),
        to_varint64_written currency (omega arith),
        lt→ltb currency 3 hi,
        positive currency lo,
        slice_from-at s (n + length one) _ at3 fits3,
        clipped_varint64-to_varint64 (length address) 1 255 (address ++ tail) long (omega arith)
            (omega arith) (omega arith),
        to_varint64_written (length address) (omega arith),
        slice_range-at s (n + length one + length two) address tail at4 fits4,
        valid,
      )
      (ap (λ (k : ℕ). ok (currency, address, k)) total)
  where
    positive : (k : ℕ) → 1 ≤ k → (k == 0) ≡ false
    positive k h = ground arith

    total :
        n + length (to_varint64 currency) + length (to_varint64 (length address)) + length address
        ≡ n + length (item currency address)
    total = omega (
      arith,
      length-append {0} (to_varint64 currency) (to_varint64 (length address) ++ address),
      length-append {0} (to_varint64 (length address)) address,
    )

-- One round of UnpackMap on an item, and its end.
loop_item :
    (c : Crypto) (testnet : Bool) (s : Slice) (fuel n next : ℕ) (currency : ℕ) (address : List ℕ)
    (m : Map) (cs : Set)
    → n < length s.visible
    → unpack_item c testnet s n ≡ ok (currency, address, next)
    → unpack_loop c testnet s (suc fuel) n m cs
      ≡ unpack_loop c testnet s fuel next (insert currency address m) (add cs currency).0
unfolding unpack_loop
loop_item c testnet s fuel n next currency address m cs h e =
    rw (lt→ltb n (length s.visible) h, e) refl

loop_end :
    (c : Crypto) (testnet : Bool) (s : Slice) (fuel n : ℕ) (m : Map) (cs : Set)
    → length s.visible ≤ n
    → unpack_loop c testnet s (suc fuel) n m cs ≡ ok (m, cs)
unfolding unpack_loop
loop_end c testnet s fuel n m cs h = rw (le→ltb n (length s.visible) h) refl

length-item :
    (currency : ℕ) (address : List ℕ) → currency < 2 ^ 64 → 1 ≤ length (item currency address)
length-item currency address h = omega (
  arith,
  to_varint64_shape currency h,
  length-append {0} (to_varint64 currency) (to_varint64 (length address) ++ address),
)

-- The entries that UnpackMap makes of the packed map of two addresses.
abbrev pub both : List ℕ → List ℕ → Map
both one two = (Currency.bitcoin, one) ∷ (Currency.litecoin, two) ∷ []

module _ (c : Crypto) (testnet : Bool) (one two : List ℕ) (one_long : 1 ≤ length one)
    (two_long : 1 ≤ length two)
    (one_valid : validate_address c Currency.bitcoin one testnet ≡ ok tt)
    (two_valid : validate_address c Currency.litecoin two testnet ≡ ok tt) where
  abbrev packed_two : List ℕ
  packed_two = item Currency.bitcoin one ++ item Currency.litecoin two

  abbrev whole : List ℕ → Slice
  whole spare = record { visible = packed_two; spare = spare }

  sizes :
      (1 ≤ length (item Currency.bitcoin one))
      × (1 ≤ length (item Currency.litecoin two))
      × (length packed_two
          ≡ length (item Currency.bitcoin one) + length (item Currency.litecoin two))
  sizes = (
    length-item Currency.bitcoin one (omega arith),
    length-item Currency.litecoin two (omega arith),
    length-append (item Currency.bitcoin one) (item Currency.litecoin two),
  )

  loop-both :
      (spare : List ℕ) (fuel : ℕ)
      → 3 ≤ fuel
      → unpack_loop c testnet (whole spare) fuel 0 [] (make_set [])
        ≡ ok (both one two, make_set (Currency.bitcoin ∷ Currency.litecoin ∷ []))
  unfolding insert make_set
  loop-both spare zero h = absurd (omega arith)
  loop-both spare (suc zero) h = absurd (omega arith)
  loop-both spare (suc (suc zero)) h = absurd (omega arith)
  loop-both spare (suc (suc (suc fuel))) h =
      let l1 : ℕ = length (item Currency.bitcoin one) in
      let l2 : ℕ = length (item Currency.litecoin two) in
      let first =
        unpack_item-item c testnet (whole spare) 0 Currency.bitcoin one (item Currency.litecoin two)
          (omega arith) (omega arith) one_long one_valid refl (omega arith) in
      let at : drop (0 + l1) packed_two ≡ item Currency.litecoin two ++ [] =
        drop-drop l1 0 packed_two
        ∙ drop-append (item Currency.bitcoin one) (item Currency.litecoin two)
        ∙ sym (append-nil (item Currency.litecoin two)) in
      let second =
        unpack_item-item c testnet (whole spare) (0 + l1) Currency.litecoin two [] (omega arith)
          (omega arith) two_long two_valid at
          (omega (arith, sizes, length-append {0} (item Currency.litecoin two) [])) in
      loop_item c testnet (whole spare) (suc (suc fuel)) 0 (0 + l1) Currency.bitcoin one []
        (make_set []) (omega (arith, sizes)) first
      ∙ loop_item c testnet (whole spare) (suc fuel) (0 + l1) (0 + l1 + l2) Currency.litecoin two _
          _ (omega (arith, sizes)) second
      ∙ loop_end c testnet (whole spare) fuel (0 + l1 + l2) _ _ (omega (arith, sizes))

  -- UnpackMap reads the packed form of the two addresses, whatever lies behind it in the array.
  pub unpack_map-both :
      (spare : List ℕ)
      → unpack_map c (whole spare) testnet
        ≡ ok (both one two, make_set (Currency.bitcoin ∷ Currency.litecoin ∷ []))
  unfolding unpack_map
  unpack_map-both spare =
      rw
        (
          le→ltb (length packed_two) 2 (omega (arith, sizes)),
          loop-both spare (suc (length packed_two)) (omega (arith, sizes)),
        )
        refl

-- What Pack of a map with two entries writes, and that both addresses are there.
pub pack-both :
    (c : Crypto) (m : Map) (testnet : Bool) {bytes : List ℕ}
    → length m ≡ 2
    → pack c m testnet ≡ ok bytes
    → (1 ≤ length (lookup Currency.bitcoin m))
      × (1 ≤ length (lookup Currency.litecoin m))
      × (validate_address c Currency.bitcoin (lookup Currency.bitcoin m) testnet ≡ ok tt)
      × (validate_address c Currency.litecoin (lookup Currency.litecoin m) testnet ≡ ok tt)
      × (item Currency.bitcoin (lookup Currency.bitcoin m)
            ++ item Currency.litecoin (lookup Currency.litecoin m)
          ≡ bytes)
unfolding pack
pack-both c m testnet h e = ground arith

-- Of a map with two entries, UnpackMap returns from what Pack wrote the two addresses in the order
-- of the currencies, with the set of both, whatever lies behind the packed map in its array.
pub unpack_map-pack :
    (c : Crypto) (m : Map) (testnet : Bool) (bytes spare : List ℕ)
    → length m ≡ 2
    → pack c m testnet ≡ ok bytes
    → unpack_map c (record { visible = bytes; spare = spare }) testnet
      ≡ ok (
        both (lookup Currency.bitcoin m) (lookup Currency.litecoin m),
        make_set (Currency.bitcoin ∷ Currency.litecoin ∷ []),
      )
unpack_map-pack c m testnet bytes spare h p =
    let (long1, long2, v1, v2, e) = pack-both c m testnet h p in
    rw (← e) (unpack_map-both c testnet _ _ long1 long2 v1 v2 spare)
