-- ===== src/Tests/Blocks.antt =====
-- Runs of the code of blockrecord.
use bitmarkd.Common.{ℕ, ◌⊎◌, ◌≡◌, refl, arith, [], ◌∷◌, ◌++◌, replicate, take, none, false}
use bitmarkd.Go.{ok, panicked}
use bitmarkd.BlockRecord.Header.{
  Header, valid_next_height, check_counts, unpack_header, pack_header, extract_header,
  digest_from_hash_pool,
}
use bitmarkd.BlockRecord.RoundTrip.{
  HeaderFits, unpack_header-pack_header, unpack_header-panics, extract_header-pack_header,
}
use bitmarkd.BlockRecord.Sequence.{valid_next_height_iff}
use bitmarkd.BlockRecord.Limits.{HeaderLimits, unpack_header-limits}

abbrev header : Header
header = record {
  version = 5;
  transaction_count = 300;
  number = 70000;
  previous_block = replicate 32 17;
  merkle_root = replicate 32 200;
  timestamp = 1_600_000_000;
  difficulty = 0x04ab_cdef_0123_4567;
  nonce = 0xffff_ffff_ffff_fff0;
}

abbrev overflowing : Header
overflowing = record header { difficulty = 0xc0ab_cdef_0123_4567 }

header_counts : check_counts 5 300 70000 ≡ ok tt
unfolding check_counts
header_counts = refl

header-HeaderFits : HeaderFits 1_600_000_000 header
header-HeaderFits = record {
  version_fits = omega arith;
  transaction_count_fits = omega arith;
  number_fits = omega arith;
  previous_block_fits = refl;
  merkle_root_fits = refl;
  timestamp_fits = omega arith;
  difficulty_fits = omega arith;
  nonce_fits = omega arith;
  counts = header_counts;
  in_time = omega arith;
}

overflowing-HeaderFits : HeaderFits 1_600_000_000 overflowing
overflowing-HeaderFits = record {
  version_fits = omega arith;
  transaction_count_fits = omega arith;
  number_fits = omega arith;
  previous_block_fits = refl;
  merkle_root_fits = refl;
  timestamp_fits = omega arith;
  difficulty_fits = omega arith;
  nonce_fits = omega arith;
  counts = header_counts;
  in_time = omega arith;
}

unpack_header-pack_header_example : unpack_header 1_600_000_000 (pack_header header) ≡ ok header
unpack_header-pack_header_example =
    unpack_header-pack_header 1_600_000_000 header header-HeaderFits (omega arith)

unpack_header-panics_example : unpack_header 1_600_000_000 (pack_header overflowing) ≡ panicked
unpack_header-panics_example =
    unpack_header-panics 1_600_000_000 overflowing overflowing-HeaderFits (omega arith)

unpack_header-limits_example : HeaderLimits 1_600_000_000 header
unpack_header-limits_example =
    unpack_header-limits 1_600_000_000 (pack_header header) header unpack_header-pack_header_example

-- The stand-in for the hash takes the first 32 bytes.
extract_header-pack_header_example :
    extract_header
      (take 32)
      (λ n. none)
      1_600_000_000
      (pack_header header ++ (8 ∷ 9 ∷ []))
      70000
      false
    ≡ ok (header, take 32 (pack_header header), 8 ∷ 9 ∷ [])
unfolding digest_from_hash_pool
extract_header-pack_header_example =
    extract_header-pack_header (take 32) (λ n. none) 1_600_000_000 header (8 ∷ 9 ∷ []) false
      header-HeaderFits (omega arith)

valid_next_height_iff_example :
    (valid_next_height 70000 69999 ≡ ok tt → (◌≡◌ {A = ℕ} 69999 70000) ⊎ (◌≡◌ {A = ℕ} 70000 70000))
    × ((◌≡◌ {A = ℕ} 69999 70000) ⊎ (◌≡◌ {A = ℕ} 70000 70000)
        → valid_next_height 70000 69999 ≡ ok tt)
valid_next_height_iff_example =
    valid_next_height_iff 70000 69999 (omega arith) (omega arith) (omega arith)
