-- ===== src/Currency/Ends.antt =====
-- UnpackMap, Pack's checks and the address tests end, whatever they are given.
use bitmarkd.Common.{
  ℕ, zero, suc, ◌+◌, ◌<◌, ◌≤◌, ◌≡◌, refl, arith, Bool, false, List, [], length, ltb, Bool-cases,
  inl, inr,
}
use bitmarkd.Crypto.{Crypto}
use bitmarkd.Currency.{Currency, from_uint64}
use bitmarkd.Currency.Map.{Map, unpack_item, unpack_loop, unpack_map, insert}
use bitmarkd.Currency.Set.{Set, add, make_set}
use bitmarkd.Currency.Validate.{validate_address}
use bitmarkd.Currency.Bitcoin
use bitmarkd.Currency.Litecoin
use bitmarkd.Go.{ok, Slice}
use bitmarkd.Go.Ends.{
  exhausts, exhausts-chain, exhausts->>=, refuse-ends, slice_from-ends, slice_range-ends,
}

pub validate_address-ends :
    (c : Crypto) (currency : Currency) (address : List ℕ) (testnet : Bool)
    → exhausts (validate_address c currency address testnet) ≡ false
unfolding validate_address Bitcoin.validate_address Bitcoin.first_byte Litecoin.validate_address
    Litecoin.first_byte
validate_address-ends c currency address testnet = ground arith

pub from_uint64-ends : (n : ℕ) → exhausts (from_uint64 n) ≡ false
unfolding from_uint64
from_uint64-ends n = ground arith

unpack_item-ends :
    (c : Crypto) (testnet : Bool) (s : Slice) (n : ℕ) → exhausts (unpack_item c testnet s n) ≡ false
unfolding unpack_item
unpack_item-ends c testnet s n = exhausts->>= _ _ (slice_from-ends s n) (λ front.
    exhausts->>= _ _ (refuse-ends _ _) (λ u. exhausts->>= _ _ (from_uint64-ends _) (λ currency.
      exhausts->>= _ _ (refuse-ends _ _) (λ u'. exhausts->>= _ _ (slice_from-ends s _) (λ back.
        exhausts->>= _ _ (refuse-ends _ _) (λ u''.
          exhausts->>= _ _ (slice_range-ends s _ _) (λ address.
            exhausts->>= _ _ (validate_address-ends c currency address.visible testnet)
              (λ v. refl))))))))

unpack_item-advances :
    (c : Crypto) (testnet : Bool) (s : Slice) (n : ℕ) (currency : Currency) (address : List ℕ)
    (next : ℕ)
    → unpack_item c testnet s n ≡ ok (currency, address, next)
    → n < next
unfolding unpack_item
unpack_item-advances c testnet s n currency address next h = ground arith

-- Each round moves on by a byte at least.
unpack_loop-ends :
    (c : Crypto) (testnet : Bool) (s : Slice) (fuel n : ℕ) (m : Map) (cs : Set)
    → length s.visible < n + fuel
    → 1 ≤ fuel
    → exhausts (unpack_loop c testnet s fuel n m cs) ≡ false
unfolding unpack_loop
unpack_loop-ends c testnet s zero n m cs h one = absurd (omega arith)
unpack_loop-ends c testnet s (suc fuel) n m cs h one =
    let item = unpack_item c testnet s n in
    elim (Bool-cases (ltb n (length s.visible))) [
      | inl more ↦
          let within : n < length s.visible = ground arith in
          rw more (
            exhausts-chain item
              (λ (k, a, x). unpack_loop c testnet s fuel x (insert k a m) (add cs k).0)
              (unpack_item-ends c testnet s n)
              (λ (k, a, x) e.
                let further = unpack_item-advances c testnet s n k a x e in
                unpack_loop-ends c testnet s fuel x (insert k a m) (add cs k).0 (omega arith)
                  (omega arith)))
      | inr done ↦ rw done refl
    ]

-- UnpackMap returns a map, an error, or a panic: the rounds that it is given are always enough.
pub unpack_map-ends :
    (c : Crypto) (s : Slice) (testnet : Bool) → exhausts (unpack_map c s testnet) ≡ false
unfolding unpack_map
unpack_map-ends c s testnet = exhausts->>= _ _ (refuse-ends _ _) (λ u.
    unpack_loop-ends c testnet s (suc (length s.visible)) 0 [] (make_set []) (omega arith)
      (omega arith))
