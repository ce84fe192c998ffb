-- ===== src/Avl/Insert.antt =====
-- avl/insert.go: Insert.
use bitmarkd.Common.{◌+◌, Bool, true, false, if◌then◌else◌}
use bitmarkd.Go.{Result, ok, panicked, ◌>>=◌}
use bitmarkd.Avl.Key.{Item}
use bitmarkd.Avl.Node.{left_high, even, right_high, Node, nil, node, Tree}
use bitmarkd.Avl.Rotate.{rotate_ll, rotate_lr, rotate_rr, rotate_rl}
use Prim.Native.Nat.Ordering.{lt, eq, gt}

module _ {ℓ κ} {K : Type ℓ} {V : Type κ} where
  -- The left branch has grown: the node, and whether it has grown too.
  unfoldable pub left_grown : Node K V → Result (Node K V × Bool)
  left_grown nil = panicked
  left_grown (node l r k v nl nr right_high) = ok (node l r k v nl nr even, false)
  left_grown (node l r k v nl nr even) = ok (node l r k v nl nr left_high, true)
  left_grown (node nil r k v nl nr left_high) = panicked
  left_grown (node (node l1 r1 k1 v1 nl1 nr1 left_high) r k v nl nr left_high) = do
    p ← rotate_ll (node (node l1 r1 k1 v1 nl1 nr1 left_high) r k v nl nr left_high)
    ok (p, false)
  left_grown (node (node l1 r1 k1 v1 nl1 nr1 b1) r k v nl nr left_high) = do
    p ← rotate_lr (node (node l1 r1 k1 v1 nl1 nr1 b1) r k v nl nr left_high)
    ok (p, false)

  unfoldable pub right_grown : Node K V → Result (Node K V × Bool)
  right_grown nil = panicked
  right_grown (node l r k v nl nr left_high) = ok (node l r k v nl nr even, false)
  right_grown (node l r k v nl nr even) = ok (node l r k v nl nr right_high, true)
  right_grown (node l nil k v nl nr right_high) = panicked
  right_grown (node l (node l1 r1 k1 v1 nl1 nr1 right_high) k v nl nr right_high) = do
    p ← rotate_rr (node l (node l1 r1 k1 v1 nl1 nr1 right_high) k v nl nr right_high)
    ok (p, false)
  right_grown (node l (node l1 r1 k1 v1 nl1 nr1 b1) k v nl nr right_high) = do
    p ← rotate_rl (node l (node l1 r1 k1 v1 nl1 nr1 b1) k v nl nr right_high)
    ok (p, false)

  -- `if h { ... }` after the call on a branch.
  abbrev pub after_growth :
      (Node K V → Result (Node K V × Bool))
      → Node K V
      → Bool
      → Bool
      → Result (Node K V × Bool × Bool)
  after_growth rebalance p added true = do (p', h) ← rebalance p; ok (p', added, h)
  after_growth rebalance p added false = ok (p, added, false)

module _ {ℓ κ} {K : Type ℓ} {V : Type κ} (item : Item K) where
  -- The node, whether a node was added, and whether the branch has grown.
  unfoldable pub insert : K → V → Node K V → Result (Node K V × Bool × Bool)
  unfolding left_grown right_grown
  insert key value nil = ok (node nil nil key value 0 0 even, true, true)
  insert key value (node l r k v nl nr b) = elim (item.compare k key) [
    | gt ↦ do
      (l', added, h) ← insert key value l
      after_growth left_grown (node l' r k v (if added then nl + 1 else nl) nr b) added h
    | lt ↦ do
      (r', added, h) ← insert key value r
      after_growth right_grown (node l r' k v nl (if added then nr + 1 else nr) b) added h
    | eq ↦ ok (node l r k value nl nr b, false, false)
  ]

  -- Insert: the tree, and whether a node was added.
  unfoldable pub insert_tree : K → V → Tree K V → Result (Tree K V × Bool)
  unfolding insert
  insert_tree key value tree = do
    (root, added, h) ← insert key value tree.root
    ok (record { root = root; count = if added then tree.count + 1 else tree.count }, added)
