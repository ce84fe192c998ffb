-- ===== src/Avl/Counts.antt =====
-- What CheckCounts checks.
use bitmarkd.Common.{ℕ, ◌≡◌, refl, sym, ◌∙◌, ◌==◌, ◌&&◌, arith, Bool, true, false, if◌then◌else◌}
use bitmarkd.Avl.Node.{Node, nil, node}
use bitmarkd.Avl.Search.{is_nil, check_counts}
use bitmarkd.Avl.Invariant.{size}

both_true : (a b : Bool) → (a && b) ≡ true → (a ≡ true) × (b ≡ true)
both_true true b h = (refl, h)
both_true false b h = cc

true_both : (a b : Bool) → a ≡ true → b ≡ true → (a && b) ≡ true
true_both true b h h' = h'
true_both false b h h' = cc

==-true : (n m : ℕ) → (n == m) ≡ true → n ≡ m
==-true n m h = ground (arith, h)

true-== : (n m : ℕ) → n ≡ m → (n == m) ≡ true
true-== n m h = ground (arith, h)

module _ {ℓ κ} {K : Type ℓ} {V : Type κ} where
  -- The count that a node keeps of a branch is the number of its nodes; that of a missing branch may
  -- be any.
  abbrev pub CountsBranch : Node K V → ℕ → Type 0
  CountsBranch nil n = Unit
  CountsBranch (node l r k v nl nr b) n = n ≡ size (node l r k v nl nr b)

  -- Both counts of every node are right.
  abbrev pub HasCounts : Node K V → Type 0
  HasCounts nil = Unit
  HasCounts (node l r k v nl nr b) =
      CountsBranch l nl × CountsBranch r nr × HasCounts l × HasCounts r

  check_counts-size : (t : Node K V) → (check_counts t).1 ≡ size t
  unfolding check_counts
  check_counts-size nil = refl
  check_counts-size (node l r k v nl nr b) = omega (arith, check_counts-size l, check_counts-size r)

  -- What is checked of a branch, by the results for the branch.
  branch_iff :
      (t : Node K V) (n count : ℕ) (ok' : Bool)
      → count ≡ size t
      → (ok' ≡ true → HasCounts t)
      → (HasCounts t → ok' ≡ true)
      → ((if is_nil t then true else ((n == count) && ok')) ≡ true → CountsBranch t n × HasCounts t)
        × (CountsBranch t n × HasCounts t
            → (if is_nil t then true else ((n == count) && ok')) ≡ true)
  branch_iff nil n count ok' e to from = (λ h. (tt, tt), λ h. refl)
  branch_iff (node l r k v nl nr b) n count ok' e to from = (
    λ h.
        let (same, checked) = both_true (n == count) ok' h in
        (==-true n count same ∙ e, to checked),
    λ h. true_both (n == count) ok' (true-== n count (h.0 ∙ sym e)) (from h.1),
  )

  counts_lem :
      (t : Node K V)
      → ((check_counts t).0 ≡ true → HasCounts t) × (HasCounts t → (check_counts t).0 ≡ true)
  unfolding check_counts
  counts_lem nil = (λ h. tt, λ h. refl)
  counts_lem (node l r k v nl nr b) =
      let (to_l, from_l) = counts_lem l in
      let (to_r, from_r) = counts_lem r in
      let left_side =
        branch_iff l nl (check_counts l).1 (check_counts l).0 (check_counts-size l) to_l from_l in
      let right_side =
        branch_iff r nr (check_counts r).1 (check_counts r).0 (check_counts-size r) to_r from_r in
      (
        λ h.
            let (h_l, h_r) = both_true _ _ h in
            let (count_l, all_l) = left_side.0 h_l in
            let (count_r, all_r) = right_side.0 h_r in (count_l, count_r, all_l, all_r),
        λ h. true_both _ _ (left_side.1 (h.0, h.2)) (right_side.1 (h.1, h.3)),
      )

  -- CheckCounts reports success exactly for the trees in which every count that a node keeps of a
  -- branch that is there is the number of nodes of that branch; and it returns the number of nodes
  -- of any tree.
  pub check_counts_iff :
      (t : Node K V)
      → ((check_counts t).0 ≡ true → HasCounts t)
        × (HasCounts t → (check_counts t).0 ≡ true)
        × ((check_counts t).1 ≡ size t)
  check_counts_iff t = let (to, from) = counts_lem t in (to, from, check_counts-size t)
