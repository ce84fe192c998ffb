-- ===== src/Avl/Search.antt =====
-- avl/search.go, avl/get.go, avl/iterator.go and avl/check.go: reading a tree.
-- A node that is returned stands for itself and the tree below it.
use bitmarkd.Common.{
  ℕ, ◌+◌, ◌-◌, ◌==◌, Bool, true, false, ◌&&◌, ltb, leb, if◌then◌else◌, Option, none, some,
}
use bitmarkd.Common.Int.{ℤ, pos, negsuc}
use bitmarkd.Avl.Key.{Item}
use bitmarkd.Avl.Node.{Node, nil, node, Tree}
use Prim.Native.Nat.Ordering.{lt, eq, gt}

module _ {ℓ κ} {K : Type ℓ} {V : Type κ} where
  unfoldable pub get : ℕ → Node K V → Node K V
  get index nil = nil
  get index (node l r k v nl nr b) =
      let on_left = get index l in
      let on_right = get (index - nl - 1) r in
      if ltb index nl then on_left else if ltb nl index then on_right else node l r k v nl nr b

  -- Get, with a signed index.
  unfoldable pub get_index : ℤ → Tree K V → Node K V
  unfolding get
  get_index (negsuc i) tree = nil
  get_index (pos i) tree = if leb tree.count i then nil else get i tree.root

  unfoldable pub first : Node K V → Node K V
  first nil = nil
  first (node nil r k v nl nr b) = node nil r k v nl nr b
  first (node (node l1 r1 k1 v1 nl1 nr1 b1) r k v nl nr b) = first (node l1 r1 k1 v1 nl1 nr1 b1)

  unfoldable pub last : Node K V → Node K V
  last nil = nil
  last (node l nil k v nl nr b) = node l nil k v nl nr b
  last (node l (node l1 r1 k1 v1 nl1 nr1 b1) k v nl nr b) = last (node l1 r1 k1 v1 nl1 nr1 b1)

  abbrev pub is_nil : Node K V → Bool
  is_nil nil = true
  is_nil (node l r k v nl nr b) = false

  -- checkCounts: whether the counts of every node are right, and the number of nodes.
  unfoldable pub check_counts : Node K V → Bool × ℕ
  check_counts nil = (true, 0)
  check_counts (node l r k v nl nr b) =
      let (bl, count_l) = check_counts l in
      let (br, count_r) = check_counts r in
      (
        (if is_nil l then true else ((nl == count_l) && bl))
            && (if is_nil r then true else ((nr == count_r) && br)),
        1 + count_l + count_r,
      )

module _ {ℓ κ} {K : Type ℓ} {V : Type κ} (item : Item K) where
  -- Search: the node and its index, or none (nil and -1).
  unfoldable pub search : K → Node K V → ℕ → Option (Node K V × ℕ)
  search key nil index = none
  search key (node l r k v nl nr b) index = elim (item.compare k key) [
    | gt ↦ search key l index
    | lt ↦ search key r (index + nl + 1)
    | eq ↦ some (node l r k v nl nr b, index + nl)
  ]
