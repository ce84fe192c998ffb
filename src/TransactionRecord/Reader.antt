-- ===== src/TransactionRecord/Reader.antt =====
-- The steps that the cases of Packed.Unpack in transactionrecord/unpack.go share. A reader goes
-- over the record from the offset `n`, and returns a value with the offset behind it.
use bitmarkd.Common.{
  ℕ, ◌+◌, Bool, not, Option, none, some, List, ◌==◌, if◌then◌else◌, length, iff, ltb, leb, ◌||◌,
}
use bitmarkd.Common.Int.{pos}
use bitmarkd.Account.{Account, account_from_bytes, is_testing}
use bitmarkd.Currency.{from_uint64}
use bitmarkd.Fault.{
  invalid_currency_address, not_transaction_pack, wrong_network_for_public_key, not_link,
  not_asset_id,
}
use bitmarkd.Go.{
  Result, ok, err, panicked, exhausted, refuse, Slice, slice_from, slice_range, slice_index,
  Pointer,
}
use bitmarkd.TransactionRecord.Types.{Payment}
use bitmarkd.TransactionRecord.Check.{versions, version_count}
use bitmarkd.Crypto.{Crypto}
use bitmarkd.Currency.Map.{Map, unpack_map}
use bitmarkd.Currency.Set.{set_eq}
use bitmarkd.Util.Varint.{from_varint64, clipped_varint64}

abbrev pub Reader {ℓ} : Type ℓ → Type ℓ
Reader A = Slice → ℕ → Result (A × ℕ)

abbrev pub continue {ℓ κ} :
    {A : Type ℓ} {B : Type κ} → Result (A × ℕ) → (A → ℕ → Result (B × ℕ)) → Result (B × ℕ)
continue (ok (a, n)) f = f a n
continue (err e) f = err e
continue panicked f = panicked
continue exhausted f = exhausted

infixl 5 ◌>>=◌ ◌>>◌
abbrev pub ◌>>=◌ {ℓ κ} : {A : Type ℓ} {B : Type κ} → Reader A → (A → Reader B) → Reader B
◌>>=◌ m f s n = continue (m s n) (λ a n'. f a s n')

abbrev pub ◌>>◌ {ℓ} : {B : Type ℓ} → Reader (Unit {0}) → Reader B → Reader B
m >> k = m >>= λ _. k

-- A call that does not look at the record.
abbrev pub lift {ℓ} : {A : Type ℓ} → Result A → Reader A
lift (ok a) s n = ok (a, n)
lift (err e) s n = err e
lift panicked s n = panicked
lift exhausted s n = exhausted

abbrev pub pure {ℓ} : {A : Type ℓ} → A → Reader A
pure a s n = ok (a, n)

-- record[n:]
unfoldable pub remainder : Reader (List ℕ)
remainder s n = lift (slice_from s n) s n

-- n += k
abbrev pub advance : ℕ → Reader (Unit {0})
advance k s n = ok (tt, n + k)

-- The call of FromVarint64 on record[n:], with `break unpack_switch` on a count of 0.
unfoldable pub read_uint64 : Reader ℕ
unfolding remainder
read_uint64 = do
  buffer ← remainder
  let (value, count) = from_varint64 buffer
  lift (refuse (count == 0) not_transaction_pack)
  advance count
  pure value

-- The call of ClippedVarint64 on record[n:] with the limits 1 and 8192, and `break unpack_switch`.
unfoldable pub read_length : Reader ℕ
unfolding remainder
read_length = do
  buffer ← remainder
  let (size, offset) = clipped_varint64 buffer (pos 1) (pos 8192)
  lift (refuse (offset == 0) not_transaction_pack)
  advance offset
  pure size

-- record[n : n+k]
unfoldable pub read_range : ℕ → Reader Slice
read_range k = do range ← (λ s n. lift (slice_range s n k) s n); advance k; pure range

-- A field of bytes behind its length, such as a signature or a text.
unfoldable pub read_field : Reader Slice
unfolding read_length read_range
read_field = do size ← read_length; read_range size

unfoldable pub read_bytes : Reader (List ℕ)
unfolding read_field
read_bytes = do field ← read_field; pure field.visible

-- merkle.DigestFromBytes
unfoldable pub digest_from_bytes : List ℕ → Result (List ℕ)
digest_from_bytes buffer = if length buffer == 32 then ok buffer else err not_link

unfoldable pub read_digest : Reader (List ℕ)
unfolding read_bytes digest_from_bytes
read_digest = do buffer ← read_bytes; lift (digest_from_bytes buffer)

-- AssetIdentifierFromBytes
unfoldable pub asset_identifier_from_bytes : List ℕ → Result (List ℕ)
asset_identifier_from_bytes buffer = if length buffer == 64 then ok buffer else err not_asset_id

unfoldable pub read_asset_id : Reader (List ℕ)
unfolding read_bytes asset_identifier_from_bytes
read_asset_id = do buffer ← read_bytes; lift (asset_identifier_from_bytes buffer)

-- A public key of the right network, at a new place of the heap.
unfoldable pub read_account : ℕ → Bool → Reader (Pointer Account)
unfolding read_bytes
read_account location testnet = do
  buffer ← read_bytes
  owner ← lift (account_from_bytes buffer)
  lift (refuse (not (iff (is_testing owner) testnet)) wrong_network_for_public_key)
  pure (some (record { location = location; target = owner }))

unfoldable pub read_currency : Reader ℕ
unfolding read_uint64
read_currency = do value ← read_uint64; lift (from_uint64 value)

-- record[n]
unfoldable pub read_byte : Reader ℕ
read_byte s n = continue (lift (slice_index s n) s n) (λ b k. ok (b, k + 1))

unfoldable pub read_payment : Reader Payment
unfolding read_currency read_bytes
read_payment = do
  currency ← read_currency
  address ← read_bytes
  amount ← read_uint64
  pure (record { currency = currency; address = address; amount = amount })

-- unpackEscrow: a byte says whether there is a payment.
unfoldable pub read_escrow : Reader (Option Payment)
unfolding read_byte read_payment
read_escrow = do
  flag ← read_byte
  (if flag == 0
      then pure none
      else if flag == 1
      then (do payment ← read_payment; pure (some payment))
      else lift (err not_transaction_pack))

unfoldable pub read_version : Reader ℕ
unfolding read_uint64
read_version = do
  version ← read_uint64
  lift (refuse (ltb version 1 || leb version_count version) invalid_currency_address)
  pure version

-- The payment map, whose set of currencies must be that of the version.
unfoldable pub read_payments : Crypto → ℕ → Bool → Reader Map
unfolding read_field
read_payments c version testnet = do
  field ← read_field
  (payments, cs) ← lift (unpack_map c field testnet)
  lift (refuse (not (set_eq cs (versions version))) invalid_currency_address)
  pure payments
