-- ===== src/BlockRecord/Limits.antt =====
-- What the header that Unpack accepts must satisfy, whatever the bytes are.
use bitmarkd.Common.{
  ℕ, ◌+◌, ◌/◌, ◌%◌, ◌^◌, ◌<◌, ◌≤◌, ◌≡◌, ◌⊎◌, arith, List, length, take, drop, ltb,
}
use bitmarkd.Fault.{invalid_block_header_timestamp}
use bitmarkd.Go.{ok, refuse, >>=-eq-ok, >>-eq-ok, ok-injective}
use bitmarkd.Go.Binary.{le_value}
use bitmarkd.BlockRecord.Header.{
  Header, check_counts, header_digest, set_bits, unpack_header, one_uint64,
}
use mathlib.Core.Path.{subst}

-- The counts of the genesis block or of a valid block.
abbrev pub CountLimits : ℕ → ℕ → ℕ → Type 0
CountLimits version transaction_count number =
    ((version ≡ 1) × (transaction_count ≡ 1) × (number ≡ 1))
    ⊎ ((1 ≤ version) × (2 ≤ number) × (2 ≤ transaction_count) × (transaction_count ≤ 10000))

abbrev pub HeaderLimits : ℕ → Header → Type 0
HeaderLimits now h =
    CountLimits h.version h.transaction_count h.number
    × (h.timestamp ≤ now + 300)
    × (length h.previous_block ≡ 32)
    × (length h.merkle_root ≡ 32)
    × ((h.difficulty ≡ one_uint64) ⊎ (h.difficulty / 2 ^ 56 % 256 < 0xc0))

check_counts-ok :
    (version transaction_count number : ℕ)
    → check_counts version transaction_count number ≡ ok tt
    → CountLimits version transaction_count number
unfolding check_counts
check_counts-ok version transaction_count number h = ground arith

header_digest-ok : (b d : List ℕ) → header_digest b ≡ ok d → length d ≡ 32
unfolding header_digest
header_digest-ok b d h = ground arith

set_bits-ok : (u d : ℕ) → set_bits u ≡ ok d → (d ≡ one_uint64) ⊎ (d / 2 ^ 56 % 256 < 0xc0)
unfolding set_bits
set_bits-ok u d h = ground arith

not_late :
    (now timestamp : ℕ)
    → refuse (ltb (now + 300) timestamp) invalid_block_header_timestamp ≡ ok tt
    → timestamp ≤ now + 300
not_late now timestamp h = ground arith

-- What Unpack accepts is the genesis block's header, or one of a version from 1, a number from 2 and
-- 2 to 10000 transactions; it is at most 300 seconds ahead of the time of the call, its digests have
-- 32 bytes, and its difficulty is the smallest one or has an exponent below 0xc0.
pub unpack_header-limits :
    (now : ℕ) (packed : List ℕ) (h : Header) → unpack_header now packed ≡ ok h → HeaderLimits now h
unfolding unpack_header
unpack_header-limits now packed h e =
    let version = le_value (take 2 packed) in
    let transaction_count = le_value (take 2 (drop 2 packed)) in
    let number = le_value (take 8 (drop 4 packed)) in
    let timestamp = le_value (take 8 (drop 76 packed)) in
    let previous = take 32 (drop 12 packed) in
    let root = take 32 (drop 44 packed) in
    let bits = le_value (take 8 (drop 84 packed)) in
    let (k, e1) = >>-eq-ok (check_counts version transaction_count number) _ e in
    let (p, ep, e2) = >>=-eq-ok (header_digest previous) _ e1 in
    let (m, em, e3) = >>=-eq-ok (header_digest root) _ e2 in
    let (l, e4) =
      >>-eq-ok (refuse (ltb (now + 300) timestamp) invalid_block_header_timestamp) _ e3 in
    let (d, ed, e5) = >>=-eq-ok (set_bits bits) _ e4 in
    subst (HeaderLimits now) (ok-injective e5) (
      check_counts-ok version transaction_count number k,
      not_late now timestamp l,
      header_digest-ok previous p ep,
      header_digest-ok root m em,
      set_bits-ok bits d ed,
    )
