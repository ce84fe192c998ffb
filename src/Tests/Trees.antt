-- ===== src/Tests/Trees.antt =====
-- Runs of the code of avl.
use bitmarkd.Common.{ℕ, ◌/◌, ◌^◌, ◌≤◌, ◌≡◌, refl, arith, Bool, true, List, [], ◌∷◌, some}
use bitmarkd.Common.Int.{pos}
use bitmarkd.Go.{ok, err, panicked, exhausted}
use bitmarkd.Avl.Key.{number_item, number_item-IsOrder}
use bitmarkd.Avl.Node.{nil, node, Tree, new, even, right_high}
use bitmarkd.Avl.Rotate.{rotate_rr}
use bitmarkd.Avl.Insert.{insert_tree}
use bitmarkd.Avl.Delete.{delete_tree}
use bitmarkd.Avl.Search.{search, get_index, first, last, check_counts}
use bitmarkd.Avl.Invariant.{height, entries}
use bitmarkd.Avl.Sorted.{put, remove, lookup, position}
use bitmarkd.Avl.Order.{is_none}
use bitmarkd.Avl.Valid.{IsValid, insert_tree-IsValid, delete_tree-IsValid}
use bitmarkd.Avl.Rank.{entry, found_entry, search-IsValid, get_index-IsValid}
use bitmarkd.Avl.Counts.{HasCounts, check_counts_iff}
use bitmarkd.Avl.Built.{Built, built_new, built_insert, built_delete, Built-height}
use bitmarkd.Avl.Height.{first-last}

-- What insertions of 10, 20, ..., 60 in this order build.
abbrev six : Tree ℕ ℕ
six = record {
  root =
      node (node (node nil nil 10 1 0 0 even) (node nil nil 30 3 0 0 even) 20 2 1 1 even)
        (node nil (node nil nil 60 6 0 0 even) 50 5 0 1 right_high) 40 4 3 2 even;
  count = 6;
}

abbrev insert_all : List (ℕ × ℕ) → Tree ℕ ℕ → Tree ℕ ℕ
unfolding insert_tree
insert_all [] tree = tree
insert_all ((k, v) ∷ rest) tree = elim (insert_tree number_item k v tree) [
  | ok r ↦ insert_all rest r.0
  | err e ↦ tree
  | panicked ↦ tree
  | exhausted ↦ tree
]

insert_six : insert_all ((10, 1) ∷ (20, 2) ∷ (30, 3) ∷ (40, 4) ∷ (50, 5) ∷ (60, 6) ∷ []) new ≡ six
unfolding insert_all insert_tree new rotate_rr
insert_six = refl

six-IsValid : IsValid number_item six
six-IsValid = record { balanced = omega arith; sorted = ground arith; counted = refl }

insert_tree-IsValid_example :
    (tree' : Tree ℕ ℕ) × (added : Bool) × (insert_tree number_item 70 7 six ≡ ok (tree', added))
    × IsValid number_item tree'
    × (entries tree'.root ≡ put number_item 70 7 (entries six.root))
    × (added ≡ is_none (lookup number_item 70 (entries six.root)))
insert_tree-IsValid_example =
    insert_tree-IsValid number_item number_item-IsOrder 70 7 six six-IsValid

delete_tree-IsValid_example :
    (tree' : Tree ℕ ℕ) × (delete_tree number_item 40 six
      ≡ ok (lookup number_item 40 (entries six.root), tree'))
    × IsValid number_item tree'
    × (entries tree'.root ≡ remove number_item 40 (entries six.root))
delete_tree-IsValid_example = delete_tree-IsValid number_item number_item-IsOrder 40 six six-IsValid

search-IsValid_example :
    found_entry (search number_item 50 six.root 0) ≡ position number_item 50 (entries six.root) 0
search-IsValid_example = search-IsValid number_item number_item-IsOrder 50 six six-IsValid

get_index-IsValid_example : entry (get_index (pos 4) six) ≡ some (50, 5)
get_index-IsValid_example = get_index-IsValid number_item 4 six six-IsValid

check_counts_iff_example :
    ((check_counts six.root).0 ≡ true → HasCounts six.root)
    × (HasCounts six.root → (check_counts six.root).0 ≡ true)
    × ((check_counts six.root).1 ≡ 6)
check_counts_iff_example = check_counts_iff six.root

abbrev one : Tree ℕ ℕ
one = record { root = node nil nil 10 1 0 0 even; count = 1 }

abbrev two : Tree ℕ ℕ
two = record { root = node nil (node nil nil 20 2 0 0 even) 10 1 0 1 right_high; count = 2 }

-- 10 and 20 are inserted into a new tree, and 20 is deleted.
one-Built : Built number_item one
unfolding insert_tree delete_tree new
one-Built =
    built_delete {tree = two} {tree' = one}
      (built_insert {tree = one} {tree' = two}
        (built_insert {tree = new} {tree' = one} built_new 10 1 true refl) 20 2 true refl)
      20 (some 2) refl

Built-height_example : IsValid number_item one × (2 ^ (height one.root / 2) ≤ 2)
Built-height_example = Built-height number_item number_item-IsOrder one one-Built

first-last_example :
    (entry (first six.root) ≡ some (10, 1)) × (entry (last six.root) ≡ some (60, 6))
first-last_example = first-last six.root
