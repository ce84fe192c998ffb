-- ===== src/Merkle/Tree.antt =====
-- merkle/merkle.go: FullMerkleTree. The hash of NewDigest is a parameter.
-- The array has a fixed length, and is filled from its front on: it is the list of what is filled,
-- with zeros behind it up to that length. An index from the length on panics.
use bitmarkd.Common.{
  ℕ, zero, suc, ◌+◌, ◌-◌, ◌/◌, List, [], ◌∷◌, ◌++◌, length, replicate, get_elem?, Option, none,
  some, leb, ltb, if◌then◌else◌,
}
use bitmarkd.Go.{Result, ok, panicked, exhausted, ◌>>=◌}

abbrev zero_digest : List ℕ
zero_digest = replicate 32 0

abbrev pub or_zero : Option (List ℕ) → List ℕ
or_zero none = zero_digest
or_zero (some digest) = digest

-- `tree[j]`, of an array of `size` digests.
unfoldable pub at : ℕ → List (List ℕ) → ℕ → Result (List ℕ)
at size tree j = if ltb j size then ok (or_zero (get_elem? tree j)) else panicked

-- `tree[n] = digest; n += 1`, where n is the first place that is not filled.
unfoldable pub fill : ℕ → List (List ℕ) → List ℕ → Result (List (List ℕ))
fill size tree digest = if ltb (length tree) size then ok (tree ++ (digest ∷ [])) else panicked

-- The length of all levels, with the root.
unfoldable pub total_length : ℕ → ℕ → ℕ
total_length zero n = 1
total_length (suc fuel) n =
    let rest = total_length fuel ((n + 1) / 2) in if leb n 1 then 1 else n + rest

module _ (new_digest : List ℕ → List ℕ) (size : ℕ) where
  -- The loop over a level, over workLength - i: the position in the tree after it, and the tree.
  unfoldable pub level_loop : ℕ → ℕ → List (List ℕ) → Result (ℕ × List (List ℕ))
  unfolding at fill
  level_loop zero j tree = ok (j, tree)
  level_loop (suc zero) j tree = do
    last ← at size tree j
    tree' ← fill size tree (new_digest (last ++ last))
    ok (j + 1, tree')
  level_loop (suc (suc left)) j tree = do
    first ← at size tree j
    second ← at size tree (j + 1)
    tree' ← fill size tree (new_digest (first ++ second))
    level_loop left (j + 2) tree'

  -- The loop over the levels, with a round for each leaf and one more.
  unfoldable pub tree_loop : ℕ → ℕ → ℕ → List (List ℕ) → Result (List (List ℕ))
  unfolding level_loop
  tree_loop zero work_length j tree = exhausted
  tree_loop (suc fuel) work_length j tree =
      let rest = level_loop work_length j tree >>= λ (next : ℕ × List (List ℕ)).
      tree_loop fuel ((work_length + 1) / 2) next.0 next.1 in
      if leb work_length 1 then ok tree else rest

unfoldable pub full_merkle_tree : (List ℕ → List ℕ) → List (List ℕ) → Result (List (List ℕ))
unfolding total_length tree_loop
full_merkle_tree new_digest tx_ids =
    let n = length tx_ids in
    let size = total_length (n + 1) n in
    tree_loop new_digest size (n + 1) n 0 tx_ids >>= λ (tree : List (List ℕ)).
    ok (tree ++ replicate (size - length tree) zero_digest)
