-- ===== src/Avl/Entries.antt =====
-- Rotations and rebalancing keep the entries of a tree, from left to right.
use bitmarkd.Common.{◌≡◌, refl, Bool, true, false, List}
use bitmarkd.Go.{Result, ok, ◌>>=◌}
use bitmarkd.Avl.Node.{left_high, even, right_high, Node, nil, node}
use bitmarkd.Avl.Rotate.{rotate_ll, rotate_lr, rotate_rr, rotate_rl}
use bitmarkd.Avl.Insert.{left_grown, right_grown, after_growth}
use bitmarkd.Avl.Delete.{balance_left, balance_right, after_shrinking}
use bitmarkd.Avl.Invariant.{entries, Ensures, Ensures-bind}
use mathlib.Core.List.{append_assoc}

module _ {ℓ κ} {K : Type ℓ} {V : Type κ} where
  -- What a rotation or a rebalancing ensures.
  abbrev Same : List (K × V) → Node K V → Type (ℓ ⊔ κ)
  Same xs t = entries t ≡ xs

  abbrev pub SameFirst : List (K × V) → Node K V × Bool → Type (ℓ ⊔ κ)
  SameFirst xs (t, h) = entries t ≡ xs

  rotate_ll-Same : (t : Node K V) → Ensures (Same (entries t)) (rotate_ll t)
  unfolding rotate_ll
  rotate_ll-Same nil = tt
  rotate_ll-Same (node nil r k v nl nr b) = tt
  rotate_ll-Same (node (node l1 r1 k1 v1 nl1 nr1 b1) r k v nl nr b) = simp append_assoc

  rotate_rr-Same : (t : Node K V) → Ensures (Same (entries t)) (rotate_rr t)
  unfolding rotate_rr
  rotate_rr-Same nil = tt
  rotate_rr-Same (node l nil k v nl nr b) = tt
  rotate_rr-Same (node l (node l1 r1 k1 v1 nl1 nr1 b1) k v nl nr b) = simp append_assoc

  rotate_lr-Same : (t : Node K V) → Ensures (Same (entries t)) (rotate_lr t)
  unfolding rotate_lr
  rotate_lr-Same nil = tt
  rotate_lr-Same (node nil r k v nl nr b) = tt
  rotate_lr-Same (node (node l1 nil k1 v1 nl1 nr1 b1) r k v nl nr b) = tt
  rotate_lr-Same (node (node l1 (node l2 r2 k2 v2 nl2 nr2 b2) k1 v1 nl1 nr1 b1) r k v nl nr b) =
      simp append_assoc

  rotate_rl-Same : (t : Node K V) → Ensures (Same (entries t)) (rotate_rl t)
  unfolding rotate_rl
  rotate_rl-Same nil = tt
  rotate_rl-Same (node l nil k v nl nr b) = tt
  rotate_rl-Same (node l (node nil r1 k1 v1 nl1 nr1 b1) k v nl nr b) = tt
  rotate_rl-Same (node l (node (node l2 r2 k2 v2 nl2 nr2 b2) r1 k1 v1 nl1 nr1 b1) k v nl nr b) =
      simp append_assoc

  then-Same :
      (xs : List (K × V)) (m : Result (Node K V)) (h : Bool)
      → Ensures (Same xs) m
      → Ensures (SameFirst xs) (m >>= λ p. ok (p, h))
  then-Same xs m h e = Ensures-bind (Same xs) (SameFirst xs) m _ e (λ p q. q)

  pub left_grown-Same : (t : Node K V) → Ensures (SameFirst (entries t)) (left_grown t)
  unfolding left_grown
  left_grown-Same nil = tt
  left_grown-Same (node l r k v nl nr right_high) = refl
  left_grown-Same (node l r k v nl nr even) = refl
  left_grown-Same (node nil r k v nl nr left_high) = tt
  left_grown-Same (node (node l1 r1 k1 v1 nl1 nr1 left_high) r k v nl nr left_high) =
      then-Same _ _ false
        (rotate_ll-Same (node (node l1 r1 k1 v1 nl1 nr1 left_high) r k v nl nr left_high))
  left_grown-Same (node (node l1 r1 k1 v1 nl1 nr1 even) r k v nl nr left_high) =
      then-Same _ _ false
        (rotate_lr-Same (node (node l1 r1 k1 v1 nl1 nr1 even) r k v nl nr left_high))
  left_grown-Same (node (node l1 r1 k1 v1 nl1 nr1 right_high) r k v nl nr left_high) =
      then-Same _ _ false
        (rotate_lr-Same (node (node l1 r1 k1 v1 nl1 nr1 right_high) r k v nl nr left_high))

  pub right_grown-Same : (t : Node K V) → Ensures (SameFirst (entries t)) (right_grown t)
  unfolding right_grown
  right_grown-Same nil = tt
  right_grown-Same (node l r k v nl nr left_high) = refl
  right_grown-Same (node l r k v nl nr even) = refl
  right_grown-Same (node l nil k v nl nr right_high) = tt
  right_grown-Same (node l (node l1 r1 k1 v1 nl1 nr1 right_high) k v nl nr right_high) =
      then-Same _ _ false
        (rotate_rr-Same (node l (node l1 r1 k1 v1 nl1 nr1 right_high) k v nl nr right_high))
  right_grown-Same (node l (node l1 r1 k1 v1 nl1 nr1 even) k v nl nr right_high) =
      then-Same _ _ false
        (rotate_rl-Same (node l (node l1 r1 k1 v1 nl1 nr1 even) k v nl nr right_high))
  right_grown-Same (node l (node l1 r1 k1 v1 nl1 nr1 left_high) k v nl nr right_high) =
      then-Same _ _ false
        (rotate_rl-Same (node l (node l1 r1 k1 v1 nl1 nr1 left_high) k v nl nr right_high))

  pub balance_left-Same : (t : Node K V) → Ensures (SameFirst (entries t)) (balance_left t)
  unfolding balance_left
  balance_left-Same nil = tt
  balance_left-Same (node l r k v nl nr left_high) = refl
  balance_left-Same (node l r k v nl nr even) = refl
  balance_left-Same (node l nil k v nl nr right_high) = tt
  balance_left-Same (node l (node l1 r1 k1 v1 nl1 nr1 left_high) k v nl nr right_high) =
      then-Same _ _ true
        (rotate_rl-Same (node l (node l1 r1 k1 v1 nl1 nr1 left_high) k v nl nr right_high))
  balance_left-Same (node l (node l1 r1 k1 v1 nl1 nr1 even) k v nl nr right_high) =
      then-Same _ _ false
        (rotate_rr-Same (node l (node l1 r1 k1 v1 nl1 nr1 even) k v nl nr right_high))
  balance_left-Same (node l (node l1 r1 k1 v1 nl1 nr1 right_high) k v nl nr right_high) =
      then-Same _ _ true
        (rotate_rr-Same (node l (node l1 r1 k1 v1 nl1 nr1 right_high) k v nl nr right_high))

  pub balance_right-Same : (t : Node K V) → Ensures (SameFirst (entries t)) (balance_right t)
  unfolding balance_right
  balance_right-Same nil = tt
  balance_right-Same (node l r k v nl nr right_high) = refl
  balance_right-Same (node l r k v nl nr even) = refl
  balance_right-Same (node nil r k v nl nr left_high) = tt
  balance_right-Same (node (node l1 r1 k1 v1 nl1 nr1 right_high) r k v nl nr left_high) =
      then-Same _ _ true
        (rotate_lr-Same (node (node l1 r1 k1 v1 nl1 nr1 right_high) r k v nl nr left_high))
  balance_right-Same (node (node l1 r1 k1 v1 nl1 nr1 even) r k v nl nr left_high) =
      then-Same _ _ false
        (rotate_ll-Same (node (node l1 r1 k1 v1 nl1 nr1 even) r k v nl nr left_high))
  balance_right-Same (node (node l1 r1 k1 v1 nl1 nr1 left_high) r k v nl nr left_high) =
      then-Same _ _ true
        (rotate_ll-Same (node (node l1 r1 k1 v1 nl1 nr1 left_high) r k v nl nr left_high))

  pub after_growth-Same :
      (rebalance : Node K V → Result (Node K V × Bool)) (p : Node K V) (added h : Bool)
      → Ensures (SameFirst (entries p)) (rebalance p)
      → Ensures (λ (t, a, g). entries t ≡ entries p) (after_growth rebalance p added h)
  after_growth-Same rebalance p added false e = refl
  after_growth-Same rebalance p added true e =
      Ensures-bind (SameFirst (entries p)) (λ (t, a, g). entries t ≡ entries p) _ _ e
        (λ (t, g) q. q)

  pub after_shrinking-Same :
      (rebalance : Node K V → Result (Node K V × Bool)) (p : Node K V) (h : Bool)
      → Ensures (SameFirst (entries p)) (rebalance p)
      → Ensures (SameFirst (entries p)) (after_shrinking rebalance p h)
  after_shrinking-Same rebalance p false e = refl
  after_shrinking-Same rebalance p true e = e
