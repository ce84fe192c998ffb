-- ===== src/Merkle/Levels.antt =====
-- The levels of a full merkle tree.
use bitmarkd.Common.{
  ℕ, zero, suc, ◌+◌, ◌-◌, ◌/◌, ◌≤◌, ◌<◌, ◌≡◌, refl, sym, ap, ap₂, ◌∙◌, arith, List, [], ◌∷◌, ◌++◌,
  length, replicate, drop, drop-append, drop-append_le, length-append, leb, ltb, true, false,
  if◌then◌else◌, get_elem?,
}
use bitmarkd.Go.{ok, panicked, ◌>>=◌}
use bitmarkd.Merkle.Tree.{at, or_zero, fill, total_length, level_loop, tree_loop, full_merkle_tree}
use mathlib.Core.List.{append-nil, append_assoc}

get_elem?-drop :
    (tree : List (List ℕ)) (j : ℕ) (a : List ℕ) (rest : List (List ℕ))
    → drop j tree ≡ a ∷ rest
    → (or_zero (get_elem? tree j) ≡ a) × (drop (j + 1) tree ≡ rest) × (j < length tree)
get_elem?-drop [] zero a rest h = cc
get_elem?-drop [] (suc j) a rest h = cc
get_elem?-drop (x ∷ tree) zero a rest h = (cc, cc, omega arith)
get_elem?-drop (x ∷ tree) (suc j) a rest h =
    let (p, q, r) = get_elem?-drop tree j a rest h in
    let e : suc j + 1 ≡ suc (j + 1) = omega arith in (p, rw e q, omega (arith, r))

-- A place that is filled is read, and there is a place to fill.
at-drop :
    (size : ℕ) (tree : List (List ℕ)) (j : ℕ) (a : List ℕ) (rest : List (List ℕ))
    → drop j tree ≡ a ∷ rest
    → length tree ≤ size
    → (at size tree j ≡ ok a) × (drop (j + 1) tree ≡ rest) × (j < length tree)
unfolding at
at-drop size tree j a rest h fits =
    let (p, q, r) = get_elem?-drop tree j a rest h in
    let inside : ltb j size ≡ true = ground (arith, r) in
    (ap₂ (λ t d. if t then ok d else panicked) inside p, q, r)

fill-lt :
    (size : ℕ) (tree : List (List ℕ)) (digest : List ℕ)
    → length tree < size
    → fill size tree digest ≡ ok (tree ++ (digest ∷ []))
unfolding fill
fill-lt size tree digest h =
    let inside : ltb (length tree) size ≡ true = ground (arith, h) in
    ap (λ t. if t then ok (tree ++ (digest ∷ [])) else panicked) inside

module _ (new_digest : List ℕ → List ℕ) where
  -- The level above a level: the digests of its pairs, the last one of an odd number paired with itself.
  abbrev pub pair_up : List (List ℕ) → List (List ℕ)
  pair_up [] = []
  pair_up (a ∷ []) = new_digest (a ++ a) ∷ []
  pair_up (a ∷ b ∷ rest) = new_digest (a ++ b) ∷ pair_up rest

  -- All levels of a tree, one behind another, from the leaves to the root.
  pub data LevelsOf : List (List ℕ) → List (List ℕ) → Type 0 where
    root : {digest : List ℕ} → LevelsOf (digest ∷ []) (digest ∷ [])
    level :
        {leaves above : List (List ℕ)}
        → 2 ≤ length leaves
        → LevelsOf (pair_up leaves) above
        → LevelsOf leaves (leaves ++ above)

  length-pair_up : (leaves : List (List ℕ)) → length (pair_up leaves) ≡ (length leaves + 1) / 2
  length-pair_up [] = refl
  length-pair_up (a ∷ []) = refl
  length-pair_up (a ∷ b ∷ rest) = omega (arith, length-pair_up rest)

  level_loop-pair_up :
      (size : ℕ) (leaves : List (List ℕ)) (j : ℕ) (tree out : List (List ℕ))
      → drop j tree ≡ leaves ++ out
      → length tree + length (pair_up leaves) ≤ size
      → level_loop new_digest size (length leaves) j tree
        ≡ ok (j + length leaves, tree ++ pair_up leaves)
  unfolding level_loop
  level_loop-pair_up size [] j tree out h fits =
      ap₂ (λ u v. ok (u, v)) (omega arith) (sym (append-nil tree))
  level_loop-pair_up size (a ∷ []) j tree out h fits =
      let (p, q, r) = at-drop size tree j a out h (omega (arith, fits)) in
      rw (p, fill-lt size tree (new_digest (a ++ a)) (omega (arith, fits))) refl
  level_loop-pair_up size (a ∷ b ∷ rest) j tree out h fits =
      let (p, q, r) = at-drop size tree j a (b ∷ (rest ++ out)) h (omega (arith, fits)) in
      let (p', q', r') = at-drop size tree (j + 1) b (rest ++ out) q (omega (arith, fits)) in
      let two : j + 1 + 1 ≡ j + 2 = omega arith in
      let next = new_digest (a ++ b) ∷ [] in
      let behind : drop (j + 2) (tree ++ next) ≡ rest ++ (out ++ next) =
        drop-append_le (j + 2) tree next (omega (arith, r'))
        ∙ ap (λ t. t ++ next) (ap (λ n. drop n tree) (sym two) ∙ q')
        ∙ append_assoc rest out next in
      let filled = fill-lt size tree (new_digest (a ++ b)) (omega (arith, fits)) in
      rw (p, p', filled)
        (level_loop-pair_up size rest (j + 2) (tree ++ next) (out ++ next) behind
            (omega (arith, fits, length-append tree next))
          ∙ ap₂ (λ u v. ok (u, v)) (omega arith) (append_assoc tree next (pair_up rest)))

  tree_loop-step :
      (size fuel work_length j : ℕ) (tree : List (List ℕ))
      → leb work_length 1 ≡ false
      → tree_loop new_digest size (suc fuel) work_length j tree ≡ (
          level_loop new_digest size work_length j tree >>= λ (next : ℕ × List (List ℕ)).
          tree_loop new_digest size fuel ((work_length + 1) / 2) next.0 next.1)
  unfolding tree_loop
  tree_loop-step size fuel work_length j tree e =
      ap
        (λ t.
          if t
          then ok tree
          else (level_loop new_digest size work_length j tree >>= λ (next : ℕ × List (List ℕ)).
              tree_loop new_digest size fuel ((work_length + 1) / 2) next.0 next.1))
        e

  total_length-step :
      (fuel n : ℕ)
      → leb n 1 ≡ false
      → total_length (suc fuel) n ≡ n + total_length fuel ((n + 1) / 2)
  unfolding total_length
  total_length-step fuel n e = ap (λ t. if t then 1 else n + total_length fuel ((n + 1) / 2)) e

  total_length-le : (fuel n : ℕ) → n ≤ fuel → n ≤ total_length fuel n
  unfolding total_length
  total_length-le zero n h = omega (arith, h)
  total_length-le (suc fuel) n h = ground arith

  tree_loop-LevelsOf :
      (size fuel : ℕ) (leaves front : List (List ℕ))
      → 1 ≤ length leaves
      → length leaves ≤ fuel
      → length front + total_length fuel (length leaves) ≤ size
      → (all : List (List ℕ)) × LevelsOf leaves all
        × (tree_loop new_digest size fuel (length leaves) (length front) (front ++ leaves)
            ≡ ok (front ++ all))
        × (total_length fuel (length leaves) ≡ length all)
  unfolding tree_loop total_length
  tree_loop-LevelsOf size zero leaves front some_leaf enough fits =
      let f : ⊥ = omega (arith, some_leaf, enough) in elim f [ ]
  tree_loop-LevelsOf size (suc fuel) [] front some_leaf enough fits =
      let f : ⊥ = omega (arith, some_leaf) in elim f [ ]
  tree_loop-LevelsOf size (suc fuel) (a ∷ []) front some_leaf enough fits =
      (a ∷ [], root, refl, refl)
  tree_loop-LevelsOf size (suc fuel) (a ∷ b ∷ rest) front some_leaf enough fits =
      let leaves = a ∷ b ∷ rest in
      let half = length-pair_up leaves in
      let many : leb (length leaves) 1 ≡ false = ground arith in
      let below : length (pair_up leaves) ≤ fuel = omega (arith, half, enough) in
      let tree_size = length-append front leaves in
      let total_size =
        total_length-step fuel (length leaves) many
        ∙ ap (λ k. length leaves + total_length fuel k) (sym half) in
      let room : length (front ++ leaves) + total_length fuel (length (pair_up leaves)) ≤ size =
        omega (arith, fits, total_size, tree_size) in
      let (all, levels, looped, total) =
        tree_loop-LevelsOf size fuel (pair_up leaves) (front ++ leaves) (omega (arith, half)) below
          room in
      let next =
        level_loop-pair_up size leaves (length front) (front ++ leaves) []
          (drop-append front leaves ∙ sym (append-nil leaves))
          (omega (arith, room, total_length-le fuel (length (pair_up leaves)) below)) in
      (
        leaves ++ all,
        level (omega arith) levels,
        tree_loop-step size fuel (length leaves) (length front) (front ++ leaves) many
            ∙ ap
                (λ r. r >>= λ (p : ℕ × List (List ℕ)).
                  tree_loop new_digest size fuel ((length leaves + 1) / 2) p.0 p.1)
                next
            ∙ ap₂ (λ w j. tree_loop new_digest size fuel w j ((front ++ leaves) ++ pair_up leaves))
                (sym half) (sym tree_size)
            ∙ looped
            ∙ ap ok (append_assoc front leaves all),
        total_size ∙ ap (λ k. length leaves + k) total ∙ sym (length-append leaves all),
      )

  -- FullMerkleTree of at least one leaf returns, without a panic, the leaves with the levels above
  -- them, one behind another: each level has the digests of the pairs of the one below, the last
  -- digest of an odd number paired with itself, and the last level is the root alone.
  pub full_merkle_tree-LevelsOf :
      (leaves : List (List ℕ))
      → 1 ≤ length leaves
      → (all : List (List ℕ)) × (full_merkle_tree new_digest leaves ≡ ok all) × LevelsOf leaves all
  unfolding full_merkle_tree
  full_merkle_tree-LevelsOf leaves some_leaf =
      let n = length leaves in
      let size = total_length (n + 1) n in
      let (all, levels, looped, total) =
        tree_loop-LevelsOf size (n + 1) leaves [] some_leaf (omega arith) (omega arith) in
      let none_left : size - length all ≡ 0 = omega (arith, total) in
      (
        all,
        ap
              (λ r. r >>= λ (tree : List (List ℕ)).
                ok (tree ++ replicate (size - length tree) (replicate 32 0)))
              looped
            ∙ ap (λ k. ok (all ++ replicate k (replicate 32 0))) none_left
            ∙ ap ok (append-nil all),
        levels,
      )
