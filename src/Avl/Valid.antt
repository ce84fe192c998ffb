-- ===== src/Avl/Valid.antt =====
-- What holds of every tree that the operations build, and what each operation does to its entries.
use bitmarkd.Common.{◌+◌, ◌-◌, ◌≡◌, refl, sym, ap, ◌∙◌, arith, Bool, if◌then◌else◌, length}
use bitmarkd.Go.{ok}
use bitmarkd.Avl.Key.{Item, IsOrder}
use bitmarkd.Avl.Node.{Tree, new}
use bitmarkd.Avl.Insert.{insert, insert_tree}
use bitmarkd.Avl.Delete.{delete, delete_tree}
use bitmarkd.Avl.Invariant.{size, IsAvl, entries, length-entries, Returns-ok}
use bitmarkd.Avl.Grow.{Inserted, insert-Returns}
use bitmarkd.Avl.Shrink.{Deleted, delete-Returns}
use bitmarkd.Avl.Sorted.{put, remove, lookup, IsSorted}
use bitmarkd.Avl.Order.{is_none, put-IsSorted, remove-IsSorted, length-put}
use bitmarkd.Avl.Refine.{Puts, Removes, insert-entries, delete-entries}
use mathlib.Core.Path.{subst}

module _ {ℓ κ} {K : Type ℓ} {V : Type κ} (item : Item K) where
  -- The balances and the counts of all nodes are right, the keys ascend from left to right, and the
  -- tree's count is that of its nodes.
  pub record IsValid (tree : Tree K V) : Type 0 where
    pub balanced : IsAvl tree.root
    pub sorted : IsSorted item (entries tree.root)
    pub counted : tree.count ≡ size tree.root

  pub new-IsValid : IsValid new
  unfolding new
  new-IsValid = record { balanced = tt; sorted = tt; counted = refl }

module _ {ℓ κ} {K : Type ℓ} {V : Type κ} (item : Item K) (order : IsOrder item) where
  -- Insert into a valid tree returns a valid tree whose entries are the old ones with the new value
  -- put at the key, and reports an addition exactly where the key had no entry.
  pub insert_tree-IsValid :
      (key : K) (value : V) (tree : Tree K V)
      → IsValid item tree
      → (tree' : Tree K V) × (added : Bool) × (insert_tree item key value tree ≡ ok (tree', added))
        × IsValid item tree'
        × (entries tree'.root ≡ put item key value (entries tree.root))
        × (added ≡ is_none (lookup item key (entries tree.root)))
  unfolding insert_tree
  insert_tree-IsValid key value tree v =
      let t = tree.root in
      let ((t', added, h), e, i, p) =
        Returns-ok (Inserted t) (Puts item order key value t) (insert item key value t)
          (insert-Returns item key value t v.balanced)
          (insert-entries item order key value t v.sorted) in
      let sizes : length (put item key value (entries t)) ≡ size t' =
        sym (ap length p) ∙ length-entries t' in
      (
        record { root = t'; count = if added then tree.count + 1 else tree.count },
        added,
        rw e refl,
        record {
          balanced = i.0;
          sorted =
              subst (IsSorted item) (sym p)
                (put-IsSorted item order key value (entries t) v.sorted);
          counted = ground (arith, v.counted);
        },
        p,
        ground (arith, length-put item key value (entries t), length-entries t),
      )

  -- Delete from a valid tree returns a valid tree without the entry of the key, and the value that
  -- the entry had, if there was one.
  pub delete_tree-IsValid :
      (key : K) (tree : Tree K V)
      → IsValid item tree
      → (tree' : Tree K V) × (delete_tree item key tree
          ≡ ok (lookup item key (entries tree.root), tree'))
        × IsValid item tree'
        × (entries tree'.root ≡ remove item key (entries tree.root))
  unfolding delete_tree
  delete_tree-IsValid key tree v =
      let t = tree.root in
      let ((value, removed, t', h), e, d, (p, q)) =
        Returns-ok (Deleted t) (Removes item order key t) (delete item key t)
          (delete-Returns item key t v.balanced) (delete-entries item order key t v.sorted) in
      (
        record { root = t'; count = if removed then tree.count - 1 else tree.count },
        rw (e, q) refl,
        record {
          balanced = d.0;
          sorted =
              subst (IsSorted item) (sym p) (remove-IsSorted item order key (entries t) v.sorted);
          counted = ground (arith, v.counted);
        },
        p,
      )
