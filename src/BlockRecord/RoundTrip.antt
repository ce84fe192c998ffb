-- ===== src/BlockRecord/RoundTrip.antt =====
-- What is read of a packed header: its fields stand one behind another.
use bitmarkd.Common.{
  ℕ, ◌+◌, ◌/◌, ◌%◌, ◌^◌, ◌<◌, ◌≤◌, ◌≡◌, refl, sym, ◌∙◌, arith, List, [], ◌++◌, length, take, drop,
}
use bitmarkd.Common.{
  part, take-append, drop-append, length-append, le→ltb, Option, Bool, true, false, if◌then◌else◌,
  not, bytes_eq, replicate, Bool-cases, inl, inr, ltb,
}
use bitmarkd.Go.{Result, ok, panicked, ◌>>=◌}
use bitmarkd.Go.Binary.{le_bytes, length-le_bytes, le_value-le_bytes}
use bitmarkd.BlockRecord.Header.{
  Header, check_counts, header_digest, set_bits, unpack_header, pack_header, extract_header,
  valid_next_height, digest_from_hash_pool, total_block_size,
}
use mathlib.Core.List.{append-nil}

-- A header as it may stand in a block at the time `now`: the fields in the ranges of their types,
-- the counts of a valid block, and a time that is at most 300 seconds ahead.
pub record HeaderFits (now : ℕ) (h : Header) : Type 0 where
  pub version_fits : h.version < 2 ^ 16
  pub transaction_count_fits : h.transaction_count < 2 ^ 16
  pub number_fits : h.number < 2 ^ 64
  pub previous_block_fits : length h.previous_block ≡ 32
  pub merkle_root_fits : length h.merkle_root ≡ 32
  pub timestamp_fits : h.timestamp < 2 ^ 64
  pub difficulty_fits : h.difficulty < 2 ^ 64
  pub nonce_fits : h.nonce < 2 ^ 64
  pub counts : check_counts h.version h.transaction_count h.number ≡ ok tt
  pub in_time : h.timestamp ≤ now + 300

header_digest-fits : (b : List ℕ) → length b ≡ 32 → header_digest b ≡ ok b
unfolding header_digest
header_digest-fits b h = ground arith

-- All that Unpack leaves to be checked is the exponent of the difficulty.
unpack_header-fields :
    (now : ℕ) (h : Header)
    → HeaderFits now h
    → unpack_header now (pack_header h)
      ≡ (set_bits h.difficulty >>= λ d. ok (record h { difficulty = d }))
unfolding pack_header unpack_header
unpack_header-fields now h f =
    let whole = pack_header h in
    let (a, at_count) = part 0 2 whole (le_bytes 2 h.version) _ refl (length-le_bytes 2 _) in
    let (b, at_number) =
      part 2 2 whole (le_bytes 2 h.transaction_count) _ at_count (length-le_bytes 2 _) in
    let (c, at_previous) = part 4 8 whole (le_bytes 8 h.number) _ at_number (length-le_bytes 8 _) in
    let (d, at_root) = part 12 32 whole h.previous_block _ at_previous f.previous_block_fits in
    let (e, at_time) = part 44 32 whole h.merkle_root _ at_root f.merkle_root_fits in
    let (t, at_bits) = part 76 8 whole (le_bytes 8 h.timestamp) _ at_time (length-le_bytes 8 _) in
    let (u, at_nonce) = part 84 8 whole (le_bytes 8 h.difficulty) _ at_bits (length-le_bytes 8 _) in
    let (v, end) =
      part 92 8 whole (le_bytes 8 h.nonce) [] (at_nonce ∙ sym (append-nil _))
        (length-le_bytes 8 _) in
    rw
      (
        a,
        b,
        c,
        d,
        e,
        t,
        u,
        v,
        le_value-le_bytes 2 h.version f.version_fits,
        le_value-le_bytes 2 h.transaction_count f.transaction_count_fits,
        le_value-le_bytes 8 h.number f.number_fits,
        le_value-le_bytes 8 h.timestamp f.timestamp_fits,
        le_value-le_bytes 8 h.difficulty f.difficulty_fits,
        le_value-le_bytes 8 h.nonce f.nonce_fits,
        f.counts,
        header_digest-fits h.previous_block f.previous_block_fits,
        header_digest-fits h.merkle_root f.merkle_root_fits,
        le→ltb (now + 300) h.timestamp f.in_time,
      )
      refl

-- Unpack reads back every header that fits, as Pack wrote it, when the exponent of its difficulty is
-- below 0xc0.
pub unpack_header-pack_header :
    (now : ℕ) (h : Header)
    → HeaderFits now h
    → h.difficulty / 2 ^ 56 % 256 < 0xc0
    → unpack_header now (pack_header h) ≡ ok h
unfolding set_bits
unpack_header-pack_header now h f e = unpack_header-fields now h f ∙ ground arith

-- Unpack of a packed header that fits panics when the exponent of its difficulty is 0xc0 or more.
pub unpack_header-panics :
    (now : ℕ) (h : Header)
    → HeaderFits now h
    → 0xc0 ≤ h.difficulty / 2 ^ 56 % 256
    → unpack_header now (pack_header h) ≡ panicked
unfolding set_bits
unpack_header-panics now h f e = unpack_header-fields now h f ∙ ground arith

length-pack_header :
    (now : ℕ) (h : Header) → HeaderFits now h → length (pack_header h) ≡ total_block_size
unfolding pack_header
length-pack_header now h f =
    simp (length-append, length-le_bytes)
      (ground (arith, f.previous_block_fits, f.merkle_root_fits))

own_height : (n : ℕ) → 1 ≤ n → n < 2 ^ 64 → valid_next_height n n ≡ ok tt
unfolding valid_next_height
own_height n lo hi = ground arith

own_height_checked :
    (n : ℕ) → n < 2 ^ 64 → (if ltb 1 n then valid_next_height n n else ok tt) ≡ ok tt
own_height_checked n hi = ground (arith, own_height n)

-- Of a block that starts with a packed header that fits, with an exponent of the difficulty below
-- 0xc0, extractHeader with the header's own height returns the header, the rest of the block, and a
-- digest. That is the empty one where the digest is to be skipped; otherwise it is what the pool
-- holds for the number, if that is a digest other than the empty one, and else the hash of the
-- packed header.
pub extract_header-pack_header :
    (new_digest : List ℕ → List ℕ) (stored : ℕ → Option (List ℕ)) (now : ℕ) (h : Header)
    (rest : List ℕ) (skip_digest : Bool)
    → HeaderFits now h
    → h.difficulty / 2 ^ 56 % 256 < 0xc0
    → extract_header new_digest stored now (pack_header h ++ rest) h.number skip_digest
      ≡ ok (
        h,
        (if skip_digest
            then replicate 32 0
            else if not (bytes_eq (digest_from_hash_pool stored h.number) (replicate 32 0))
            then digest_from_hash_pool stored h.number
            else new_digest (pack_header h)),
        rest,
      )
unfolding extract_header
extract_header-pack_header new_digest stored now h rest skip_digest f e =
    let size = length-pack_header now h f in
    let front : take 100 (pack_header h ++ rest) ≡ pack_header h =
      rw (← size) (take-append (pack_header h) rest) in
    let back : drop 100 (pack_header h ++ rest) ≡ rest =
      rw (← size) (drop-append (pack_header h) rest) in
    rw
      (
        front,
        back,
        le→ltb (length (pack_header h ++ rest)) 100
            (omega (arith, length-append {0} (pack_header h) rest)),
        unpack_header-pack_header now h f e,
        own_height_checked h.number f.number_fits,
      )
      (digest_choice skip_digest (digest_from_hash_pool stored h.number))
  where
    digest_choice :
        (skip : Bool) (digest : List ℕ)
        → if◌then◌else◌ {A = Result (Header × List ℕ × List ℕ)} skip
            (ok (h, replicate 32 0, rest))
            (if not (bytes_eq digest (replicate 32 0))
              then ok (h, digest, rest)
              else ok (h, new_digest (pack_header h), rest))
          ≡ ok (
            h,
            (if skip
                then replicate 32 0
                else if not (bytes_eq digest (replicate 32 0))
                then digest
                else new_digest (pack_header h)),
            rest,
          )
    digest_choice true digest = refl
    digest_choice false digest = elim (Bool-cases (not (bytes_eq digest (replicate 32 0)))) [
      | inl e ↦ rw e refl
      | inr e ↦ rw e refl
    ]
