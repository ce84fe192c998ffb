-- ===== src/Avl/Rotate.antt =====
-- The four rotations of avl/insert.go and avl/delete.go, on the node `p` that is out of balance.
-- A missing child that the code reads through is a panic.
use bitmarkd.Common.{◌+◌}
use bitmarkd.Go.{Result, ok, panicked}
use bitmarkd.Avl.Node.{Balance, left_high, even, right_high, Node, nil, node}

-- The balances of the two nodes of a single rotation, by that of the child before: both are 0,
-- except where a deletion meets a child whose balance was 0.
abbrev pub single_lower : Balance → Balance → Balance
single_lower even kept = kept
single_lower left_high kept = even
single_lower right_high kept = even

-- The balances of the outer nodes of a double rotation, by that of the grandchild.
abbrev pub double_left : Balance → Balance
double_left right_high = left_high
double_left even = even
double_left left_high = even

abbrev pub double_right : Balance → Balance
double_right left_high = right_high
double_right even = even
double_right right_high = even

module _ {ℓ κ} {K : Type ℓ} {V : Type κ} where
  unfoldable pub rotate_ll : Node K V → Result (Node K V)
  rotate_ll nil = panicked
  rotate_ll (node nil r k v nl nr b) = panicked
  rotate_ll (node (node l1 r1 k1 v1 nl1 nr1 b1) r k v nl nr b) = ok (
      node l1 (node r1 r k v nr1 nr (single_lower b1 left_high)) k1 v1 nl1 (1 + nr1 + nr)
        (single_lower b1 right_high))

  unfoldable pub rotate_rr : Node K V → Result (Node K V)
  rotate_rr nil = panicked
  rotate_rr (node l nil k v nl nr b) = panicked
  rotate_rr (node l (node l1 r1 k1 v1 nl1 nr1 b1) k v nl nr b) = ok (
      node (node l l1 k v nl nl1 (single_lower b1 right_high)) r1 k1 v1 (1 + nl + nl1) nr1
        (single_lower b1 left_high))

  unfoldable pub rotate_lr : Node K V → Result (Node K V)
  rotate_lr nil = panicked
  rotate_lr (node nil r k v nl nr b) = panicked
  rotate_lr (node (node l1 nil k1 v1 nl1 nr1 b1) r k v nl nr b) = panicked
  rotate_lr (node (node l1 (node l2 r2 k2 v2 nl2 nr2 b2) k1 v1 nl1 nr1 b1) r k v nl nr b) = ok (
      node (node l1 l2 k1 v1 nl1 nl2 (double_left b2)) (node r2 r k v nr2 nr (double_right b2)) k2
        v2 (1 + nl1 + nl2) (1 + nr2 + nr) even)

  unfoldable pub rotate_rl : Node K V → Result (Node K V)
  rotate_rl nil = panicked
  rotate_rl (node l nil k v nl nr b) = panicked
  rotate_rl (node l (node nil r1 k1 v1 nl1 nr1 b1) k v nl nr b) = panicked
  rotate_rl (node l (node (node l2 r2 k2 v2 nl2 nr2 b2) r1 k1 v1 nl1 nr1 b1) k v nl nr b) = ok (
      node (node l l2 k v nl nl2 (double_left b2)) (node r2 r1 k1 v1 nr2 nr1 (double_right b2)) k2
        v2 (1 + nl + nl2) (1 + nr2 + nr1) even)
