-- ===== src/Avl/Node.antt =====
-- avl/allocator.go and avl/setup.go: the nodes and the tree.
-- A node owns the trees below it, so the field `up` is the node that a node stands below, and is not
-- stored. The pool that keeps deleted nodes for reuse has no effect on a tree.
use bitmarkd.Common.{ℕ, zero, suc, List, [], ◌∷◌, ◌++◌}

-- The field balance: -1, 0 and +1.
pub data Balance : Type 0 where
  left_high : Balance
  even : Balance
  right_high : Balance

-- `nil`, or a node with left, right, key, value, leftNodes, rightNodes and balance.
pub data Node {ℓ κ} (K : Type ℓ) (V : Type κ) : Type (ℓ ⊔ κ) where
  nil : Node K V
  node : Node K V → Node K V → K → V → ℕ → ℕ → Balance → Node K V

pub record Tree {ℓ κ} (K : Type ℓ) (V : Type κ) : Type (ℓ ⊔ κ) where
  pub root : Node K V
  pub count : ℕ

module _ {ℓ κ} {K : Type ℓ} {V : Type κ} where
  unfoldable pub new : Tree K V
  new = record { root = nil; count = 0 }

  -- GetChildrenByDepth, of a node that is not nil, over a depth counted down.
  unfoldable pub children_by_depth : Node K V → ℕ → List (Node K V)
  children_by_depth nil depth = []
  children_by_depth (node l r k v nl nr b) zero = node l r k v nl nr b ∷ []
  children_by_depth (node l r k v nl nr b) (suc depth) =
      children_by_depth l depth ++ children_by_depth r depth
