-- ===== src/Tests/Merkle.antt =====
-- The tree of three leaves, with the identity for a hash.
use bitmarkd.Common.{ℕ, ◌≡◌, refl, arith, List, [], ◌∷◌}
use bitmarkd.Go.{ok}
use bitmarkd.Merkle.Tree.{full_merkle_tree, tree_loop, level_loop, at, fill, total_length}
use bitmarkd.Merkle.Levels.{LevelsOf, full_merkle_tree-LevelsOf}

abbrev three : List (List ℕ)
three = (1 ∷ []) ∷ (2 ∷ []) ∷ (3 ∷ []) ∷ []

full_merkle_tree-three :
    full_merkle_tree (λ bytes. bytes) three
    ≡ ok ((1 ∷ []) ∷ (2 ∷ []) ∷ (3 ∷ []) ∷ (1 ∷ 2 ∷ []) ∷ (3 ∷ 3 ∷ []) ∷ (1 ∷ 2 ∷ 3 ∷ 3 ∷ []) ∷ [])
unfolding full_merkle_tree tree_loop level_loop at fill total_length
full_merkle_tree-three = refl

full_merkle_tree-LevelsOf_example :
    (all : List (List ℕ)) × (full_merkle_tree (λ bytes. bytes) three ≡ ok all)
    × LevelsOf (λ bytes. bytes) three all
full_merkle_tree-LevelsOf_example = full_merkle_tree-LevelsOf (λ bytes. bytes) three (omega arith)
