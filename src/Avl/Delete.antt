-- ===== src/Avl/Delete.antt =====
-- avl/delete.go: Delete.
-- A count that is taken down by 1 is at least 1 in every tree whose counts are right.
use bitmarkd.Common.{ℕ, ◌-◌, Bool, true, false, if◌then◌else◌, Option, none, some}
use bitmarkd.Go.{Result, ok, panicked, ◌>>=◌}
use bitmarkd.Avl.Key.{Item}
use bitmarkd.Avl.Node.{left_high, even, right_high, Node, nil, node, Tree}
use bitmarkd.Avl.Rotate.{rotate_ll, rotate_lr, rotate_rr, rotate_rl}
use Prim.Native.Nat.Ordering.{lt, eq, gt}

module _ {ℓ κ} {K : Type ℓ} {V : Type κ} where
  -- balanceLeft, where the left branch has shrunk: the node, and whether it has shrunk too.
  unfoldable pub balance_left : Node K V → Result (Node K V × Bool)
  balance_left nil = panicked
  balance_left (node l r k v nl nr left_high) = ok (node l r k v nl nr even, true)
  balance_left (node l r k v nl nr even) = ok (node l r k v nl nr right_high, false)
  balance_left (node l nil k v nl nr right_high) = panicked
  balance_left (node l (node l1 r1 k1 v1 nl1 nr1 left_high) k v nl nr right_high) = do
    p ← rotate_rl (node l (node l1 r1 k1 v1 nl1 nr1 left_high) k v nl nr right_high)
    ok (p, true)
  balance_left (node l (node l1 r1 k1 v1 nl1 nr1 even) k v nl nr right_high) = do
    p ← rotate_rr (node l (node l1 r1 k1 v1 nl1 nr1 even) k v nl nr right_high)
    ok (p, false)
  balance_left (node l (node l1 r1 k1 v1 nl1 nr1 right_high) k v nl nr right_high) = do
    p ← rotate_rr (node l (node l1 r1 k1 v1 nl1 nr1 right_high) k v nl nr right_high)
    ok (p, true)

  -- balanceRight, where the right branch has shrunk.
  unfoldable pub balance_right : Node K V → Result (Node K V × Bool)
  balance_right nil = panicked
  balance_right (node l r k v nl nr right_high) = ok (node l r k v nl nr even, true)
  balance_right (node l r k v nl nr even) = ok (node l r k v nl nr left_high, false)
  balance_right (node nil r k v nl nr left_high) = panicked
  balance_right (node (node l1 r1 k1 v1 nl1 nr1 right_high) r k v nl nr left_high) = do
    p ← rotate_lr (node (node l1 r1 k1 v1 nl1 nr1 right_high) r k v nl nr left_high)
    ok (p, true)
  balance_right (node (node l1 r1 k1 v1 nl1 nr1 even) r k v nl nr left_high) = do
    p ← rotate_ll (node (node l1 r1 k1 v1 nl1 nr1 even) r k v nl nr left_high)
    ok (p, false)
  balance_right (node (node l1 r1 k1 v1 nl1 nr1 left_high) r k v nl nr left_high) = do
    p ← rotate_ll (node (node l1 r1 k1 v1 nl1 nr1 left_high) r k v nl nr left_high)
    ok (p, true)

  -- `if h { h = balance...(pp) }`
  abbrev pub after_shrinking :
      (Node K V → Result (Node K V × Bool)) → Node K V → Bool → Result (Node K V × Bool)
  after_shrinking rebalance p true = rebalance p
  after_shrinking rebalance p false = ok (p, false)

  -- del, which takes the last node out of a branch: its key and value, what is left of the branch,
  -- and whether that has shrunk.
  unfoldable pub del : Node K V → Result (K × V × Node K V × Bool)
  unfolding balance_right
  del nil = panicked
  del (node l nil k v nl nr b) = ok (k, v, l, true)
  del (node l (node l1 r1 k1 v1 nl1 nr1 b1) k v nl nr b) = do
    (key, value, r', h) ← del (node l1 r1 k1 v1 nl1 nr1 b1)
    (p, h') ← after_shrinking balance_right (node l r' k v nl (nr - 1) b) h
    ok (key, value, p, h')

  -- leftNodes of the node that takes the place of a deleted one: its own count if it was the left
  -- child, and otherwise that of the deleted node less 1.
  unfoldable pub left_nodes_after : Node K V → ℕ → ℕ
  left_nodes_after nil nl = nl - 1
  left_nodes_after (node l1 nil k1 v1 nl1 nr1 b1) nl = nl1
  left_nodes_after (node l1 (node l2 r2 k2 v2 nl2 nr2 b2) k1 v1 nl1 nr1 b1) nl = nl - 1

  -- The node that is found: it goes, and the last node of its left branch takes its place.
  unfoldable pub unlink : Node K V → Result (Node K V × Bool)
  unfolding del balance_left left_nodes_after
  unlink nil = panicked
  unlink (node l nil k v nl nr b) = ok (l, true)
  unlink (node nil (node l1 r1 k1 v1 nl1 nr1 b1) k v nl nr b) =
      ok (node l1 r1 k1 v1 nl1 nr1 b1, true)
  unlink (node (node l2 r2 k2 v2 nl2 nr2 b2) (node l1 r1 k1 v1 nl1 nr1 b1) k v nl nr b) = do
    (key, value, l', h) ← del (node l2 r2 k2 v2 nl2 nr2 b2)
    let left_nodes = left_nodes_after (node l2 r2 k2 v2 nl2 nr2 b2) nl
    after_shrinking balance_left (node l' (node l1 r1 k1 v1 nl1 nr1 b1) key value left_nodes nr b) h

module _ {ℓ κ} {K : Type ℓ} {V : Type κ} (item : Item K) where
  -- The value that was stored (nil if there was none), whether a node was removed, the node, and
  -- whether the branch has shrunk.
  unfoldable pub delete : K → Node K V → Result (Option V × Bool × Node K V × Bool)
  unfolding unlink balance_left balance_right
  delete key nil = ok (none, false, nil, false)
  delete key (node l r k v nl nr b) = elim (item.compare k key) [
    | gt ↦ do
      (value, removed, l', h) ← delete key l
      (p, h') ← after_shrinking balance_left (node l' r k v (if removed then nl - 1 else nl) nr b) h
      ok (value, removed, p, h')
    | lt ↦ do
      (value, removed, r', h) ← delete key r
      (p, h') ←
          after_shrinking balance_right (node l r' k v nl (if removed then nr - 1 else nr) b) h
      ok (value, removed, p, h')
    | eq ↦ do (p, h) ← unlink (node l r k v nl nr b); ok (some v, true, p, h)
  ]

  -- Delete: the value and the tree.
  unfoldable pub delete_tree : K → Tree K V → Result (Option V × Tree K V)
  unfolding delete
  delete_tree key tree = do
    (value, removed, root, h) ← delete key tree.root
    ok (value, record { root = root; count = if removed then tree.count - 1 else tree.count })
