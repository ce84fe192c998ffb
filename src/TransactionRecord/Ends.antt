-- ===== src/TransactionRecord/Ends.antt =====
-- The steps of Unpack and the checks end, whatever they are given.
use bitmarkd.Common.{ℕ, ◌≡◌, refl, arith, Bool, true, false, List, ◌==◌, some, none, if◌then◌else◌}
use bitmarkd.Account.{account_from_bytes, account_of_algorithm}
use bitmarkd.Crypto.{Crypto}
use bitmarkd.Currency.Ends.{unpack_map-ends, from_uint64-ends}
use bitmarkd.Fault.{Fault, not_transaction_pack}
use bitmarkd.Common.Int.{pos}
use bitmarkd.Util.Varint.{from_varint64, clipped_varint64}
use bitmarkd.Go.{Result, ok, err, panicked, exhausted, Slice, refuse}
use bitmarkd.Go.Ends.{exhausts, refuse-ends, slice_from-ends, slice_range-ends, slice_index-ends}
use bitmarkd.TransactionRecord.Reader.{
  Reader, continue, ◌>>=◌, lift, pure, advance, remainder, read_uint64, read_length, read_range,
  read_field, read_bytes, digest_from_bytes, read_digest, asset_identifier_from_bytes,
  read_asset_id, read_account, read_currency, read_byte, read_payment, read_escrow, read_version,
  read_payments,
}

-- A reader that never runs out of fuel.
pub record Ends {ℓ} {A : Type ℓ} (m : Reader A) : Type ℓ where
  pub ends : (s : Slice) (n : ℕ) → exhausts (m s n) ≡ false

module _ {ℓ κ} {A : Type ℓ} {B : Type κ} where
  continue-ends :
      (r : Result (A × ℕ)) (f : A → ℕ → Result (B × ℕ))
      → exhausts r ≡ false
      → ((a : A) (k : ℕ) → exhausts (f a k) ≡ false)
      → exhausts (continue r f) ≡ false
  continue-ends (ok (a, k)) f h q = q a k
  continue-ends (err e) f h q = refl
  continue-ends panicked f h q = refl
  continue-ends exhausted f h q = h

  pub Ends-bind :
      {m : Reader A} {f : A → Reader B} → Ends m → ((a : A) → Ends (f a)) → Ends (m >>= f)
  Ends-bind {m} {f} e g = record {
    ends = λ s n. continue-ends (m s n) (λ a k. f a s k) (e.ends s n) (λ a k. (g a).ends s k);
  }

module _ {ℓ} {A : Type ℓ} where
  lift-ends :
      (r : Result A) (s : Slice) (n : ℕ) → exhausts r ≡ false → exhausts (lift r s n) ≡ false
  lift-ends (ok a) s n h = refl
  lift-ends (err e) s n h = refl
  lift-ends panicked s n h = refl
  lift-ends exhausted s n h = h

  pub Ends-lift : (r : Result A) → exhausts r ≡ false → Ends (lift r)
  Ends-lift r h = record { ends = λ s n. lift-ends r s n h }

  pub Ends-pure : (a : A) → Ends (pure a)
  Ends-pure a = record { ends = λ s n. refl }

pub Ends-advance : (k : ℕ) → Ends (advance k)
Ends-advance k = record { ends = λ s n. refl }

pub Ends-refuse : (test : Bool) (e : Fault) → Ends (lift (refuse test e))
Ends-refuse test e = Ends-lift _ (refuse-ends test e)

pub Ends-remainder : Ends remainder
unfolding remainder
Ends-remainder = record { ends = λ s n. lift-ends _ s n (slice_from-ends s n) }

pub Ends-uint64 : Ends read_uint64
unfolding read_uint64
Ends-uint64 = Ends-bind Ends-remainder (λ b.
    Ends-bind (Ends-refuse _ _)
      (λ u. Ends-bind (Ends-advance (from_varint64 b).1) (λ u'. Ends-pure (from_varint64 b).0)))

Ends-length : Ends read_length
unfolding read_length
Ends-length = Ends-bind Ends-remainder (λ b. Ends-bind (Ends-refuse _ _) (λ u.
    Ends-bind (Ends-advance (clipped_varint64 b (pos 1) (pos 8192)).1)
      (λ u'. Ends-pure (clipped_varint64 b (pos 1) (pos 8192)).0)))

pub Ends-range : (k : ℕ) → Ends (read_range k)
unfolding read_range
Ends-range k =
    Ends-bind (record { ends = λ s n. lift-ends _ s n (slice_range-ends s n k) })
      (λ r. Ends-bind (Ends-advance k) (λ u. Ends-pure r))

Ends-field : Ends read_field
unfolding read_field
Ends-field = Ends-bind Ends-length Ends-range

pub Ends-bytes : Ends read_bytes
unfolding read_bytes
Ends-bytes = Ends-bind Ends-field (λ f. Ends-pure f.visible)

digest_from_bytes-ends : (b : List ℕ) → exhausts (digest_from_bytes b) ≡ false
unfolding digest_from_bytes
digest_from_bytes-ends b = ground arith

pub Ends-digest : Ends read_digest
unfolding read_digest
Ends-digest = Ends-bind Ends-bytes (λ b. Ends-lift _ (digest_from_bytes-ends b))

asset_identifier_from_bytes-ends : (b : List ℕ) → exhausts (asset_identifier_from_bytes b) ≡ false
unfolding asset_identifier_from_bytes
asset_identifier_from_bytes-ends b = ground arith

pub Ends-asset_id : Ends read_asset_id
unfolding read_asset_id
Ends-asset_id = Ends-bind Ends-bytes (λ b. Ends-lift _ (asset_identifier_from_bytes-ends b))

account_from_bytes-ends : (b : List ℕ) → exhausts (account_from_bytes b) ≡ false
unfolding account_from_bytes account_of_algorithm
account_from_bytes-ends b = ground arith

pub Ends-account : (location : ℕ) (testnet : Bool) → Ends (read_account location testnet)
unfolding read_account
Ends-account location testnet = Ends-bind Ends-bytes (λ b.
    Ends-bind (Ends-lift _ (account_from_bytes-ends b)) (λ a.
      Ends-bind (Ends-refuse _ _)
        (λ u. Ends-pure (some (record { location = location; target = a })))))

pub Ends-currency : Ends read_currency
unfolding read_currency
Ends-currency = Ends-bind Ends-uint64 (λ v. Ends-lift _ (from_uint64-ends v))

Ends-byte : Ends read_byte
unfolding read_byte
Ends-byte = record {
  ends = λ s n. continue-ends _ _ (lift-ends _ s n (slice_index-ends s n)) (λ b k. refl);
}

Ends-payment : Ends read_payment
unfolding read_payment
Ends-payment = Ends-bind Ends-currency (λ c. Ends-bind Ends-bytes (λ a.
    Ends-bind Ends-uint64 (λ v. Ends-pure (record { currency = c; address = a; amount = v }))))

pub Ends-if :
    {A : Type 0} (test : Bool) {m k : Reader A} → Ends m → Ends k → Ends (if test then m else k)
Ends-if true e q = e
Ends-if false e q = q

pub Ends-escrow : Ends read_escrow
unfolding read_escrow
Ends-escrow = Ends-bind Ends-byte (λ flag. Ends-if (flag == 0) (Ends-pure none) (
    Ends-if (flag == 1) (Ends-bind Ends-payment (λ p. Ends-pure (some p)))
      (Ends-lift (err not_transaction_pack) refl)))

pub Ends-version : Ends read_version
unfolding read_version
Ends-version = Ends-bind Ends-uint64 (λ v. Ends-bind (Ends-refuse _ _) (λ u. Ends-pure v))

pub Ends-payments :
    (c : Crypto) (version : ℕ) (testnet : Bool) → Ends (read_payments c version testnet)
unfolding read_payments
Ends-payments c version testnet = Ends-bind Ends-field (λ f.
    Ends-bind (Ends-lift _ (unpack_map-ends c f testnet))
      (λ p. Ends-bind (Ends-refuse _ _) (λ u. Ends-pure p.0)))
