-- ===== src/TransactionRecord/Fields.antt =====
-- The fields of a record: what the readers make of the bytes that Pack appends.
use bitmarkd.Common.{
  ℕ, ◌+◌, ◌≤◌, ◌<◌, ◌^◌, ◌≡◌, refl, sym, ap, ◌∙◌, arith, List, ◌++◌, Bool, some, true,
}
use bitmarkd.Common.{length, drop, drop-append, drop-drop, length-append, iff, false, not}
use bitmarkd.Account.{Account, ed25519_account, nothing_account, IsKey, account_bytes, is_testing}
use bitmarkd.Account.Codec.{account_from_bytes-account_bytes}
use bitmarkd.Go.{ok, Slice, slice_from, refuse}
use bitmarkd.Fault.{wrong_network_for_public_key}
use mathlib.Core.List.{append_assoc}
use bitmarkd.Go.Slices.{slice_from-at, slice_range-at}
use bitmarkd.TransactionRecord.Reader.{
  read_uint64, read_length, read_range, read_field, read_bytes, read_digest, read_asset_id,
  read_account, digest_from_bytes, asset_identifier_from_bytes,
}
use bitmarkd.TransactionRecord.Reads.{Reads}
use bitmarkd.Util.Varint.{to_varint64}
use bitmarkd.Util.Varint.Encode.{to_varint64_shape}
use bitmarkd.Util.Varint.Decode.{clipped_varint64-to_varint64}
use bitmarkd.Util.Varint.RoundTrip.{from_varint64-to_varint64}

-- The bytes of a field behind their length.
abbrev pub field : List ℕ → List ℕ
field bytes = to_varint64 (length bytes) ++ bytes

pub Reads-uint64 : (value : ℕ) → value < 2 ^ 64 → Reads read_uint64 (to_varint64 value) value
unfolding read_uint64
Reads-uint64 value h = record {
  reads = λ s n tail at fits.
      rw (slice_from-at s n _ at fits, from_varint64-to_varint64 value tail h)
        (ground (arith, to_varint64_shape value h));
}

Reads-length : (k : ℕ) → 1 ≤ k → k ≤ 8192 → Reads read_length (to_varint64 k) k
unfolding read_length
Reads-length k lo hi = record {
  reads = λ s n tail at fits.
      rw
        (
          slice_from-at s n _ at fits,
          clipped_varint64-to_varint64 k 1 8192 tail lo hi (omega arith) (omega arith),
        )
        (ground (arith, to_varint64_shape k (omega arith)));
}

-- The bytes behind a prefix at `n`, with what lies behind them as the spare part of the slice.
pub read_range-at :
    (prefix bytes : List ℕ) (s : Slice) (n : ℕ) (tail : List ℕ)
    → drop n s.visible ≡ (prefix ++ bytes) ++ tail
    → n + length ((prefix ++ bytes) ++ tail) ≡ length s.visible
    → read_range (length bytes) s (n + length prefix)
      ≡ ok (record { visible = bytes; spare = tail ++ s.spare }, n + length (prefix ++ bytes))
unfolding read_range
read_range-at prefix bytes s n tail at fits =
    let here : drop n s.visible ≡ prefix ++ (bytes ++ tail) = at ∙ append_assoc prefix bytes tail in
    let sizes : length ((prefix ++ bytes) ++ tail) ≡ length prefix + length (bytes ++ tail) =
      omega (
        arith,
        length-append {0} (prefix ++ bytes) tail,
        length-append {0} prefix bytes,
        length-append {0} bytes tail,
      ) in
    let next : drop (n + length prefix) s.visible ≡ bytes ++ tail =
      drop-drop (length prefix) n s.visible
      ∙ ap (drop (length prefix)) here
      ∙ drop-append prefix (bytes ++ tail) in
    let range = slice_range-at s (n + length prefix) bytes tail next (omega arith) in
    let total : n + length prefix + length bytes ≡ n + length (prefix ++ bytes) =
      omega (arith, length-append {0} prefix bytes) in
    rw (range, total) refl

-- What stands at `n` when the length is read.
pub prefix-at :
    (prefix bytes : List ℕ) (s : Slice) (n : ℕ) (tail : List ℕ)
    → drop n s.visible ≡ (prefix ++ bytes) ++ tail
    → n + length ((prefix ++ bytes) ++ tail) ≡ length s.visible
    → slice_from s n ≡ ok (prefix ++ (bytes ++ tail))
prefix-at prefix bytes s n tail at fits =
    rw (← append_assoc prefix bytes tail) (slice_from-at s n _ at fits)

-- A field at `n`.
pub read_field-at :
    (bytes : List ℕ) (s : Slice) (n : ℕ) (tail : List ℕ)
    → 1 ≤ length bytes
    → length bytes ≤ 8192
    → drop n s.visible ≡ field bytes ++ tail
    → n + length (field bytes ++ tail) ≡ length s.visible
    → read_field s n
      ≡ ok (record { visible = bytes; spare = tail ++ s.spare }, n + length (field bytes))
unfolding read_field
read_field-at bytes s n tail lo hi at fits =
    let prefix = to_varint64 (length bytes) in
    rw (length_read, read_range-at prefix bytes s n tail at fits) refl
  where
    length_read : read_length s n ≡ ok (length bytes, n + length (to_varint64 (length bytes)))
    length_read =
        (Reads-length (length bytes) lo hi).reads s n (bytes ++ tail)
          (at ∙ append_assoc (to_varint64 (length bytes)) bytes tail)
          (ap (λ (l : List ℕ). n + length l)
              (sym (append_assoc (to_varint64 (length bytes)) bytes tail))
            ∙ fits)

pub Reads-bytes :
    (bytes : List ℕ) → 1 ≤ length bytes → length bytes ≤ 8192 → Reads read_bytes (field bytes) bytes
unfolding read_bytes
Reads-bytes bytes lo hi = record {
  reads = λ s n tail at fits. rw (read_field-at bytes s n tail lo hi at fits) refl;
}

digest-ok : (d : List ℕ) → length d ≡ 32 → digest_from_bytes d ≡ ok d
unfolding digest_from_bytes
digest-ok d h = ground arith

pub Reads-digest : (d : List ℕ) → length d ≡ 32 → Reads read_digest (field d) d
unfolding read_digest
Reads-digest d h = record {
  reads = λ s n tail at fits.
      rw ((Reads-bytes d (omega arith) (omega arith)).reads s n tail at fits, digest-ok d h) refl;
}

asset_id-ok : (d : List ℕ) → length d ≡ 64 → asset_identifier_from_bytes d ≡ ok d
unfolding asset_identifier_from_bytes
asset_id-ok d h = ground arith

pub Reads-asset_id : (d : List ℕ) → length d ≡ 64 → Reads read_asset_id (field d) d
unfolding read_asset_id
Reads-asset_id d h = record {
  reads = λ s n tail at fits.
      rw ((Reads-bytes d (omega arith) (omega arith)).reads s n tail at fits, asset_id-ok d h) refl;
}

length-account_bytes : (a : Account) → IsKey a → length (account_bytes a) ≤ 33
unfolding account_bytes
length-account_bytes (ed25519_account t k) h = omega arith
length-account_bytes (nothing_account t k) h = omega arith

length-account_bytes_pos : (a : Account) → 1 ≤ length (account_bytes a)
unfolding account_bytes
length-account_bytes_pos (ed25519_account t k) = omega arith
length-account_bytes_pos (nothing_account t k) = omega arith

same_network : (b : Bool) → refuse (not (iff b b)) wrong_network_for_public_key ≡ ok tt
same_network true = refl
same_network false = refl

-- An account of the network is read back, at the new place.
pub Reads-account :
    (a : Account) (location : ℕ) (testnet : Bool)
    → IsKey a
    → is_testing a ≡ testnet
    → Reads
        (read_account location testnet)
        (field (account_bytes a))
        (some (record { location = location; target = a }))
unfolding read_account
Reads-account a location testnet key net = record {
  reads = λ s n tail at fits.
      let raw =
        Reads-bytes (account_bytes a) (length-account_bytes_pos a)
          (omega (arith, length-account_bytes a key)) in
      rw
        (
          raw.reads s n tail at fits,
          account_from_bytes-account_bytes a key,
          net,
          same_network testnet,
        )
        refl;
}
