-- ===== src/Avl/Key.antt =====
-- avl/allocator.go: the interface Item, whose Compare orders the keys of a tree.
-- The results -1, 0 and +1 of Compare are lt, eq and gt.
use bitmarkd.Common.{ℕ, ◌≡◌, arith}
use Prim.Native.Nat.{compare, Ordering}
use Prim.Native.Nat.Ordering.{lt, eq, gt}

pub record Item {ℓ} (K : Type ℓ) : Type ℓ where
  pub compare : K → K → Ordering

-- What the tree relies on: Compare is a total order of the keys.
pub record IsOrder {ℓ} {K : Type ℓ} (item : Item K) : Type ℓ where
  pub gt_of_lt : (a b : K) → item.compare a b ≡ lt → item.compare b a ≡ gt
  pub lt_of_gt : (a b : K) → item.compare a b ≡ gt → item.compare b a ≡ lt
  pub lt_trans : (a b c : K) → item.compare a b ≡ lt → item.compare b c ≡ lt → item.compare a c ≡ lt
  pub lt_eq : (a b c : K) → item.compare a b ≡ lt → item.compare b c ≡ eq → item.compare a c ≡ lt

-- Numbers, by their size.
abbrev pub number_item : Item ℕ
number_item = record { compare = compare }

pub number_item-IsOrder : IsOrder number_item
number_item-IsOrder = ground arith
