-- ===== src/TransactionRecord/Payments.antt =====
-- The payment map of a block's owner: what CheckPayments lets through is packed and read back.
use bitmarkd.Common.{ℕ, ◌+◌, ◌≤◌, ◌≡◌, refl, sym, arith, List, [], ◌∷◌, ◌++◌, Bool, false, length}
use bitmarkd.Common.{leb, ltb, ◌||◌, inl, inr, Bool-cases, length-append}
use bitmarkd.Crypto.{Crypto}
use bitmarkd.Currency
use bitmarkd.Currency.Map.{Map, lookup, pack}
use bitmarkd.Currency.Set.{Set, add, make_set}
use bitmarkd.Currency.Validate.{validate_address}
use bitmarkd.Currency.Payments.{item, both, unpack_map-both, pack-both, length-address}
use bitmarkd.Go.{ok, refuse, >>-eq-ok, >>=-eq-ok}
use bitmarkd.TransactionRecord.Check.{check_payments, check_payments_loop, versions, version_count}
use bitmarkd.Fault.{invalid_payment_version}
use mathlib.Core.List.{append-nil}
use bitmarkd.TransactionRecord.Fields.{field, read_field-at, Reads-uint64}
use bitmarkd.TransactionRecord.Reader.{read_version, read_payments}
use bitmarkd.TransactionRecord.Reads.{Reads, Reads-bind, Reads-check}
use bitmarkd.Util.Varint.{to_varint64}
use bitmarkd.Util.Varint.Encode.{to_varint64_shape}

-- Every entry that the loop passes adds one to the set.
loop_counts :
    (c : Crypto) (testnet : Bool) (m : Map) (cs : Set) {cs' : Set}
    → check_payments_loop c testnet m cs ≡ ok cs'
    → cs'.count ≡ cs.count + length m
unfolding check_payments_loop
loop_counts c testnet [] cs h = ground arith
loop_counts c testnet ((currency, address) ∷ m) cs {cs'} h =
    let (v, r) = >>-eq-ok (validate_address c currency address testnet) _ h in
    elim (Bool-cases (add cs currency).1) [
      | inl present ↦ absurd (ground arith)
      | inr new ↦ omega (
        arith,
        loop_counts c testnet m (add cs currency).0 {cs' = cs'} (ground arith),
        add_counts cs currency new,
      )
    ]
  where
    add_counts : (s : Set) (k : ℕ) → (add s k).1 ≡ false → (add s k).0.count ≡ s.count + 1
    add_counts s k e = unfold add in ground arith

-- What CheckPayments lets through has the version 1 and two entries.
pub check_payments_two :
    (c : Crypto) (version : ℕ) (testnet : Bool) (m : Map)
    → check_payments c version testnet m ≡ ok tt
    → (version ≡ 1) × (length m ≡ 2)
unfolding check_payments
check_payments_two c version testnet m h =
    let (v, r) =
      >>-eq-ok (refuse (ltb version 1 || leb version_count version) invalid_payment_version) _ h in
    let (cs, l, e) = >>=-eq-ok (check_payments_loop c testnet m (make_set [])) _ r in
    let one : version ≡ 1 = version_one v in
    (one, ground (arith, loop_counts c testnet m (make_set []) {cs' = cs} l))
  where
    version_one :
        refuse (ltb version 1 || leb version_count version) invalid_payment_version ≡ ok tt
        → version ≡ 1
    version_one v = ground arith

-- CheckPayments lets the two entries through that were read back.
pub check_payments-both :
    (c : Crypto) (testnet : Bool) (one two : List ℕ)
    → validate_address c Currency.bitcoin one testnet ≡ ok tt
    → validate_address c Currency.litecoin two testnet ≡ ok tt
    → check_payments c 1 testnet (both one two) ≡ ok tt
unfolding check_payments make_set add
check_payments-both c testnet one two h k = rw (h, k) refl

-- The packed map has 4 to 140 bytes.
length-items :
    (c : Crypto) (testnet : Bool) (one two : List ℕ)
    → validate_address c Currency.bitcoin one testnet ≡ ok tt
    → validate_address c Currency.litecoin two testnet ≡ ok tt
    → (1 ≤ length (item Currency.bitcoin one ++ item Currency.litecoin two))
      × (length (item Currency.bitcoin one ++ item Currency.litecoin two) ≤ 8192)
length-items c testnet one two h k =
    let s1 = length-address c Currency.bitcoin one testnet (omega arith) h in
    let s2 = length-address c Currency.litecoin two testnet (omega arith) k in
    let whole = length-append {0} (item Currency.bitcoin one) (item Currency.litecoin two) in
    let l1 = length-append {0} (to_varint64 1) (to_varint64 (length one) ++ one) in
    let l2 = length-append {0} (to_varint64 (length one)) one in
    let l3 = length-append {0} (to_varint64 2) (to_varint64 (length two) ++ two) in
    let l4 = length-append {0} (to_varint64 (length two)) two in
    let v1 = to_varint64_shape 1 (omega arith) in
    let v2 = to_varint64_shape (length one) (omega arith) in
    let v3 = to_varint64_shape 2 (omega arith) in
    let v4 = to_varint64_shape (length two) (omega arith) in (omega arith, omega arith)

-- The payment field is read back as the two entries.
pub Reads-payments :
    (c : Crypto) (testnet : Bool) (m : Map) {bytes : List ℕ}
    → length m ≡ 2
    → pack c m testnet ≡ ok bytes
    → Reads
        (read_payments c 1 testnet)
        (field bytes)
        (both (lookup Currency.bitcoin m) (lookup Currency.litecoin m))
unfolding read_payments versions
Reads-payments c testnet m {bytes} h p =
    let one = lookup Currency.bitcoin m in
    let two = lookup Currency.litecoin m in
    let (long1, long2, v1, v2, e) = pack-both c m testnet h p in
    let (lo, hi) = length-items c testnet one two v1 v2 in
    rw (← e) (record {
      reads = λ s n tail at fits.
          rw
            (
              read_field-at (item Currency.bitcoin one ++ item Currency.litecoin two) s n tail lo hi
                  at fits,
              unpack_map-both c testnet one two long1 long2 v1 v2 (tail ++ s.spare),
            )
            refl;
    })

pub Reads-version : Reads read_version (to_varint64 1) 1
unfolding read_version
Reads-version =
    rw (sym (append-nil (to_varint64 1)))
      (Reads-bind _ (Reads-uint64 1 (omega arith)) (Reads-check 1 refl))
