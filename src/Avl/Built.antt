-- ===== src/Avl/Built.antt =====
-- The trees that the operations build.
use bitmarkd.Common.{◌+◌, ◌/◌, ◌^◌, ◌≤◌, ◌≡◌, sym, ap, subst, ◌∙◌, arith, Bool, Option}
use bitmarkd.Go.{ok, ok-injective}
use bitmarkd.Avl.Key.{Item, IsOrder}
use bitmarkd.Avl.Node.{Tree, new}
use bitmarkd.Avl.Insert.{insert_tree}
use bitmarkd.Avl.Delete.{delete_tree}
use bitmarkd.Avl.Invariant.{height}
use bitmarkd.Avl.Valid.{IsValid, new-IsValid, insert_tree-IsValid, delete_tree-IsValid}
use bitmarkd.Avl.Height.{height-IsAvl}

module _ {ℓ κ} {K : Type ℓ} {V : Type κ} (item : Item K) where
  -- What any sequence of Insert and Delete makes of a new tree.
  pub data Built : Tree K V → Type (ℓ ⊔ κ) where
    built_new : Built new
    built_insert :
        {tree tree' : Tree K V}
        → Built tree
        → (key : K) (value : V) (added : Bool) → insert_tree item key value tree ≡ ok (tree', added)
        → Built tree'
    built_delete :
        {tree tree' : Tree K V}
        → Built tree
        → (key : K) (value : Option V) → delete_tree item key tree ≡ ok (value, tree')
        → Built tree'

module _ {ℓ κ} {K : Type ℓ} {V : Type κ} (item : Item K) (order : IsOrder item) where
  Built-IsValid : {tree : Tree K V} → Built item tree → IsValid item tree
  Built-IsValid built_new = new-IsValid item
  Built-IsValid (built_insert {tree = tree} b key value added e) =
      let (t, a, made, valid, put_in, new_key) =
        insert_tree-IsValid item order key value tree (Built-IsValid b) in
      subst (IsValid item) (ap (λ p. p.0) (ok-injective (sym made ∙ e))) valid
  Built-IsValid (built_delete {tree = tree} b key value e) =
      let (t, made, valid, rest) = delete_tree-IsValid item order key tree (Built-IsValid b) in
      subst (IsValid item) (ap (λ p. p.1) (ok-injective (sym made ∙ e))) valid

  -- Where Compare is a total order, every tree that Insert and Delete build, from a new one and in
  -- any sequence, is valid, and its height is at most 2 * log2 (n + 1) + 1 for its count n.
  pub Built-height :
      (tree : Tree K V)
      → Built item tree
      → IsValid item tree × (2 ^ (height tree.root / 2) ≤ tree.count + 1)
  Built-height tree b =
      let valid = Built-IsValid b in
      (valid, omega (arith, height-IsAvl tree.root valid.balanced, valid.counted))
