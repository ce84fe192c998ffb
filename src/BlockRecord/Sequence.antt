-- ===== src/BlockRecord/Sequence.antt =====
-- blockrecord/validator.go: which header may follow which.
use bitmarkd.Common.{ℕ, ◌+◌, ◌^◌, ◌<◌, ◌≤◌, ◌≡◌, ◌⊎◌, arith}
use bitmarkd.Go.{ok}
use bitmarkd.BlockRecord.Header.{valid_next_height}

-- For an expected height from 1, validNextHeightFromExpected accepts that height and the one before
-- it, and no other uint64.
pub valid_next_height_iff :
    (expected next : ℕ)
    → 1 ≤ expected
    → expected < 2 ^ 64
    → next < 2 ^ 64
    → (valid_next_height expected next ≡ ok tt → (next ≡ expected) ⊎ (next + 1 ≡ expected))
      × ((next ≡ expected) ⊎ (next + 1 ≡ expected) → valid_next_height expected next ≡ ok tt)
unfolding valid_next_height
valid_next_height_iff expected next lo he hn = (λ h. ground arith, λ h. ground arith)
