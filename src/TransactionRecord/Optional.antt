-- ===== src/TransactionRecord/Optional.antt =====
-- The fields that may be absent or empty, and the escrow payment.
use bitmarkd.Common.{
  ℕ, zero, suc, ◌≤◌, ◌<◌, ◌^◌, ◌≡◌, refl, sym, ◌∙◌, arith, List, [], ◌∷◌, ◌++◌, Bool,
}
use bitmarkd.Common.{Option, none, some, length, drop, get_elem?, ◌==◌, false}
use bitmarkd.Common.Int.{pos}
use bitmarkd.Crypto.{Crypto}
use bitmarkd.Currency.{from_uint64}
use bitmarkd.Currency.Validate.{validate_address}
use bitmarkd.Go.{ok, Slice, slice_index, >>-eq-ok, ok-injective}
use bitmarkd.Go.Utf8.{length-rune_count}
use bitmarkd.TransactionRecord.Types.{Payment}
use bitmarkd.TransactionRecord.Append.{append_escrow, append_uint64, append_string}
use bitmarkd.TransactionRecord.Reader.{read_currency, read_byte, read_payment, read_escrow}
use bitmarkd.TransactionRecord.Reads.{Reads, Reads-bind, Reads-lift, Reads-pure}
use bitmarkd.TransactionRecord.Fields.{field, prefix-at, read_range-at, Reads-uint64, Reads-bytes}
use bitmarkd.Util.Varint.{to_varint64, clipped_varint64}
use bitmarkd.Util.Varint.Encode.{to_varint64_shape}
use bitmarkd.Util.Varint.Decode.{clipped_varint64-to_varint64}
use bitmarkd.TransactionRecord.Unpack.Single.{read_name, read_metadata}
use mathlib.Core.List.{append_assoc, append-nil}

get_elem?-drop {ℓ} :
    {A : Type ℓ} (n : ℕ) (xs : List A) {x : A} {rest : List A}
    → drop n xs ≡ x ∷ rest
    → get_elem? xs n ≡ some x
get_elem?-drop zero [] e = cc
get_elem?-drop zero (y ∷ ys) e = ground arith
get_elem?-drop (suc n) [] e = cc
get_elem?-drop (suc n) (y ∷ ys) e = get_elem?-drop n ys e

slice_index-at :
    (s : Slice) (n b : ℕ) {rest : List ℕ} → drop n s.visible ≡ b ∷ rest → slice_index s n ≡ ok b
unfolding slice_index
slice_index-at s n b e = rw (get_elem?-drop n s.visible e, slice_index) refl

pub Reads-byte : (b : ℕ) → Reads read_byte (b ∷ []) b
unfolding read_byte
Reads-byte b = record { reads = λ s n tail at fits. rw (slice_index-at s n b at) refl }

currency-ok : (c : ℕ) → c < 3 → from_uint64 c ≡ ok c
unfolding from_uint64
currency-ok c h = ground arith

pub Reads-currency : (c : ℕ) → c < 3 → Reads read_currency (to_varint64 c) c
unfolding read_currency
Reads-currency c h =
    rw (sym (append-nil (to_varint64 c)))
      (Reads-bind _ (Reads-uint64 c (omega arith)) (Reads-lift (currency-ok c h)))

-- The bytes that appendEscrow writes.
abbrev pub payment_bytes : Payment → List ℕ
payment_bytes p = to_varint64 p.currency ++ (field p.address ++ to_varint64 p.amount)

abbrev pub escrow_bytes : Option Payment → List ℕ
escrow_bytes none = 0 ∷ []
escrow_bytes (some p) = 1 ∷ payment_bytes p

-- An address that is not empty, and an amount of 64 bits.
abbrev pub EscrowFits : Option Payment → Type 0
EscrowFits none = Unit {0}
EscrowFits (some p) = (1 ≤ length p.address) × (p.amount < 2 ^ 64)

-- An address that ValidateAddress accepts has a currency of the enumeration and 256 bytes at most.
pub validate_address-bounds :
    (c : Crypto) (currency : ℕ) (address : List ℕ) (testnet : Bool)
    → validate_address c currency address testnet ≡ ok tt
    → (currency < 3) × (length address ≤ 256)
unfolding validate_address
validate_address-bounds c currency address testnet h =
    (ground arith, ground (arith, length-rune_count address))

Reads-payment :
    (p : Payment)
    → p.currency < 3
    → 1 ≤ length p.address
    → length p.address ≤ 8192
    → p.amount < 2 ^ 64
    → Reads read_payment (payment_bytes p) p
unfolding read_payment
Reads-payment p hc lo hi ha = rw (sym (append-nil (to_varint64 p.amount))) (
    Reads-bind _ (Reads-currency p.currency hc) (
      Reads-bind _ (Reads-bytes p.address lo hi)
        (Reads-bind _ (Reads-uint64 p.amount ha) (Reads-pure p))))

escrow_message :
    (buffer : List ℕ) (p : Payment)
    → append_uint64
        (append_string (append_uint64 (buffer ++ (1 ∷ [])) p.currency) p.address)
        p.amount
      ≡ buffer ++ (1 ∷ payment_bytes p)
unfolding append_uint64 append_string
escrow_message buffer p = simp append_assoc

pub append_escrow-ok :
    (c : Crypto) (buffer : List ℕ) (escrow : Option Payment) (testnet : Bool) {message : List ℕ}
    → append_escrow c buffer escrow testnet ≡ ok message
    → EscrowFits escrow
    → (buffer ++ escrow_bytes escrow ≡ message) × Reads read_escrow (escrow_bytes escrow) escrow
unfolding append_escrow read_escrow
append_escrow-ok c buffer none testnet h f = (cc, Reads-bind _ (Reads-byte 0) (Reads-pure none))
append_escrow-ok c buffer (some p) testnet h (f, g) =
    let (v, e) = >>-eq-ok (validate_address c p.currency p.address testnet) _ h in
    let (hc, hl) = validate_address-bounds c p.currency p.address testnet v in
    let payment = Reads-payment p hc f (omega arith) g in
    (
      sym (escrow_message buffer p) ∙ ok-injective e,
      rw (sym (append-nil (payment_bytes p)))
          (Reads-bind _ (Reads-byte 1) (Reads-bind _ payment (Reads-pure (some p)))),
    )

-- The name and the metadata of an asset may be empty.
optional_length :
    (bytes rest : List ℕ)
    → length bytes ≤ 8192
    → clipped_varint64 (to_varint64 (length bytes) ++ rest) (pos 0) (pos 8192)
      ≡ (length bytes, length (to_varint64 (length bytes)))
optional_length bytes rest h =
    clipped_varint64-to_varint64 (length bytes) 0 8192 rest (omega arith) h (omega arith)
      (omega arith)

pub Reads-name : (name : List ℕ) → length name ≤ 8192 → Reads read_name (field name) name
unfolding read_name
Reads-name name h = record {
  reads = λ s n tail at fits.
      let prefix = to_varint64 (length name) in
      rw
        (
          prefix-at prefix name s n tail at fits,
          optional_length name (name ++ tail) h,
          read_range-at prefix name s n tail at fits,
        )
        refl;
}

pub Reads-metadata :
    (metadata : List ℕ) → length metadata ≤ 8192 → Reads read_metadata (field metadata) metadata
unfolding read_metadata
Reads-metadata metadata h = record {
  reads = λ s n tail at fits.
      let prefix = to_varint64 (length metadata) in
      rw
        (
          prefix-at prefix metadata s n tail at fits,
          optional_length metadata (metadata ++ tail) h,
          written (length metadata) h,
          read_range-at prefix metadata s n tail at fits,
        )
        refl;
}
  where
    written : (k : ℕ) → k ≤ 8192 → (length (to_varint64 k) == 0) ≡ false
    written k h = ground (arith, to_varint64_shape k (omega arith))
