-- ===== src/BlockRecord/Header.antt =====
-- blockrecord/header.go and blockrecord/validator.go: a header's fields and its packed form.
-- A packed header is an array of 100 bytes. Of a difficulty, the header keeps the packed bits.
use bitmarkd.Common.{
  ℕ, ◌+◌, ◌-◌, ◌/◌, ◌%◌, ◌^◌, Bool, not, ◌&&◌, ◌||◌, List, ◌++◌, length, take, drop,
}
use bitmarkd.Common.{◌==◌, ltb, leb, if◌then◌else◌, bytes_eq, replicate, Option, none, some, ◌*◌}
use bitmarkd.Fault.{
  invalid_block_header_size, invalid_block_header_version, invalid_block_header_timestamp,
  transaction_count_out_of_range, height_out_of_sequence, not_link, block_version_must_not_decrease,
  previous_block_digest_does_not_match,
}
use bitmarkd.Go.{Result, ok, err, panicked, ◌>>=◌, ◌>>◌, refuse}
use bitmarkd.Go.Binary.{le_bytes, le_value}

pub record Header : Type 0 where
  pub version : ℕ
  pub transaction_count : ℕ
  pub number : ℕ
  pub previous_block : List ℕ
  pub merkle_root : List ℕ
  pub timestamp : ℕ
  pub difficulty : ℕ
  pub nonce : ℕ

abbrev pub minimum_version : ℕ
minimum_version = 1

abbrev pub minimum_block_number : ℕ
minimum_block_number = 2

abbrev pub minimum_transactions : ℕ
minimum_transactions = 2

abbrev pub maximum_transactions : ℕ
maximum_transactions = 10000

abbrev pub total_block_size : ℕ
total_block_size = 100

-- difficulty.OneUint64
abbrev pub one_uint64 : ℕ
one_uint64 = 0x00ff_ffff_ffff_ffff

-- Difficulty.SetBits, for the bits that it keeps: an exponent from 0xc0 on panics.
unfoldable pub set_bits : ℕ → Result ℕ
set_bits u =
    if u == one_uint64 then ok u else if leb 0xc0 (u / 2 ^ 56 % 256) then panicked else ok u

-- blockdigest.DigestFromBytes and merkle.DigestFromBytes
unfoldable pub header_digest : List ℕ → Result (List ℕ)
header_digest buffer = if length buffer == 32 then ok buffer else err not_link

-- The genesis block, or the limits of any other block.
unfoldable pub check_counts : ℕ → ℕ → ℕ → Result (Unit {0})
check_counts version transaction_count number =
    if (number == 1) && ((transaction_count == 1) && (version == 1)) then ok tt else (do
      refuse (ltb version minimum_version || ltb number minimum_block_number)
          invalid_block_header_version
      refuse
          (ltb transaction_count minimum_transactions || ltb maximum_transactions transaction_count)
          transaction_count_out_of_range)

-- PackedHeader.Unpack. `now` is the time of the call in seconds.
unfoldable pub unpack_header : ℕ → List ℕ → Result Header
unfolding check_counts header_digest set_bits
unpack_header now packed = do
  let version = le_value (take 2 packed)
  let transaction_count = le_value (take 2 (drop 2 packed))
  let number = le_value (take 8 (drop 4 packed))
  check_counts version transaction_count number
  previous_block ← header_digest (take 32 (drop 12 packed))
  merkle_root ← header_digest (take 32 (drop 44 packed))
  let timestamp = le_value (take 8 (drop 76 packed))
  refuse (ltb (now + 300) timestamp) invalid_block_header_timestamp
  difficulty ← set_bits (le_value (take 8 (drop 84 packed)))
  ok (record {
    version = version;
    transaction_count = transaction_count;
    number = number;
    previous_block = previous_block;
    merkle_root = merkle_root;
    timestamp = timestamp;
    difficulty = difficulty;
    nonce = le_value (take 8 (drop 92 packed));
  })

-- Header.Pack: the fields fill the array from its front to its end.
unfoldable pub pack_header : Header → List ℕ
pack_header header =
    le_bytes 2 header.version
    ++ (le_bytes 2 header.transaction_count
        ++ (le_bytes 8 header.number
            ++ (header.previous_block
                ++ (header.merkle_root
                    ++ (le_bytes 8 header.timestamp
                        ++ (le_bytes 8 header.difficulty ++ le_bytes 8 header.nonce))))))

-- validNextHeightFromExpected; the subtraction of uint64 wraps.
unfoldable pub valid_next_height : ℕ → ℕ → Result (Unit {0})
valid_next_height expected next =
    refuse (ltb next ((expected + (2 ^ 64 - 1)) % 2 ^ 64) || ltb expected next)
      height_out_of_sequence

-- DigestFromHashPool: `stored` is what the pool holds at the number, and nothing where there is no
-- pool or it is not ready. The empty digest stands for none.
unfoldable pub digest_from_hash_pool : (ℕ → Option (List ℕ)) → ℕ → List ℕ
digest_from_hash_pool stored number = elim (stored number) [
  | none ↦ replicate 32 0
  | some bytes ↦ if length bytes == 32 then bytes else replicate 32 0
]

-- extractHeader. The hash of a header is a parameter, and the block's number its key in the pool.
unfoldable pub extract_header :
    (List ℕ → List ℕ)
    → (ℕ → Option (List ℕ))
    → ℕ
    → List ℕ
    → ℕ
    → Bool
    → Result (Header × List ℕ × List ℕ)
unfolding unpack_header valid_next_height digest_from_hash_pool
extract_header new_digest stored now block check_height skip_digest = do
  refuse (ltb (length block) total_block_size) invalid_block_header_size
  let packed_header = take total_block_size block
  let rest = drop total_block_size block
  header ← unpack_header now packed_header
  (if ltb 1 check_height then valid_next_height check_height header.number else ok tt)
  let digest = digest_from_hash_pool stored header.number
  (if skip_digest
      then ok (header, replicate 32 0, rest)
      else if not (bytes_eq digest (replicate 32 0))
      then ok (header, digest, rest)
      else ok (header, new_digest packed_header, rest))

-- ValidHeaderVersion
unfoldable pub valid_header_version : ℕ → ℕ → Result (Unit {0})
valid_header_version current_version incoming_version = do
  refuse (ltb incoming_version 1) invalid_block_header_version
  refuse (ltb incoming_version current_version) block_version_must_not_decrease

-- ValidBlockLinkage
unfoldable pub valid_block_linkage : List ℕ → List ℕ → Result (Unit {0})
valid_block_linkage current_digest incoming_digest_of_previous_block =
    refuse (not (bytes_eq current_digest incoming_digest_of_previous_block))
      previous_block_digest_does_not_match

-- ValidBlockTimeSpacingAtVersion
unfoldable pub valid_block_time_spacing : ℕ → ℕ → Result (Unit {0})
valid_block_time_spacing version time_spacing = do
  refuse ((version == 1) && ltb (240 * 60) time_spacing) invalid_block_header_timestamp
  refuse (leb 2 version && ltb (10 * 60) time_spacing) invalid_block_header_timestamp
