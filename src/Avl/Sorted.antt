-- ===== src/Avl/Sorted.antt =====
-- Lists of entries in the order of their keys: what a tree is an implementation of.
use bitmarkd.Common.{ℕ, suc, ◌+◌, ◌≡◌, refl, arith, List, [], ◌∷◌, ◌++◌, Option, none, some, length}
use Prim.Native.Nat.Ordering.{lt, eq, gt}
use bitmarkd.Avl.Key.{Item, IsOrder}

module _ {ℓ κ} {K : Type ℓ} {V : Type κ} (item : Item K) where
  -- A key that is there keeps its place, and its entry takes the new value.
  unfoldable pub put : K → V → List (K × V) → List (K × V)
  put key value [] = (key, value) ∷ []
  put key value ((k, v) ∷ xs) = elim (item.compare k key) [
    | gt ↦ (key, value) ∷ ((k, v) ∷ xs)
    | lt ↦ (k, v) ∷ put key value xs
    | eq ↦ (k, value) ∷ xs
  ]

  unfoldable pub remove : K → List (K × V) → List (K × V)
  remove key [] = []
  remove key ((k, v) ∷ xs) = elim (item.compare k key) [
    | gt ↦ (k, v) ∷ xs
    | lt ↦ (k, v) ∷ remove key xs
    | eq ↦ xs
  ]

  unfoldable pub lookup : K → List (K × V) → Option V
  lookup key [] = none
  lookup key ((k, v) ∷ xs) = elim (item.compare k key) [
    | gt ↦ none
    | lt ↦ lookup key xs
    | eq ↦ some v
  ]

  -- Where the key stands, counted from `index` on, with its entry.
  unfoldable pub position : K → List (K × V) → ℕ → Option ((K × V) × ℕ)
  position key [] index = none
  position key ((k, v) ∷ xs) index = elim (item.compare k key) [
    | gt ↦ none
    | lt ↦ position key xs (suc index)
    | eq ↦ some ((k, v), index)
  ]

  abbrev pub Below : K → List (K × V) → Type 0
  Below key [] = Unit
  Below key ((k, v) ∷ xs) = (item.compare k key ≡ lt) × Below key xs

  abbrev pub Above : K → List (K × V) → Type 0
  Above key [] = Unit
  Above key ((k, v) ∷ xs) = (item.compare key k ≡ lt) × Above key xs

  abbrev pub IsSorted : List (K × V) → Type 0
  IsSorted [] = Unit
  IsSorted ((k, v) ∷ xs) = Above k xs × IsSorted xs

  -- The four operations on a list with an entry in its midst that is above the key.
  pub put-above :
      (key : K) (value : V) (xs : List (K × V)) (k : K) (v : V) (ys : List (K × V))
      → item.compare k key ≡ gt
      → put key value (xs ++ ((k, v) ∷ ys)) ≡ put key value xs ++ ((k, v) ∷ ys)
  unfolding put
  put-above key value [] k v ys h = ground arith
  put-above key value ((k', v') ∷ xs) k v ys h = ground (arith, put-above key value xs k v ys h)

  pub remove-above :
      (key : K) (xs : List (K × V)) (k : K) (v : V) (ys : List (K × V))
      → item.compare k key ≡ gt
      → remove key (xs ++ ((k, v) ∷ ys)) ≡ remove key xs ++ ((k, v) ∷ ys)
  unfolding remove
  remove-above key [] k v ys h = ground arith
  remove-above key ((k', v') ∷ xs) k v ys h = ground (arith, remove-above key xs k v ys h)

  pub lookup-above :
      (key : K) (xs : List (K × V)) (k : K) (v : V) (ys : List (K × V))
      → item.compare k key ≡ gt
      → lookup key (xs ++ ((k, v) ∷ ys)) ≡ lookup key xs
  unfolding lookup
  lookup-above key [] k v ys h = ground arith
  lookup-above key ((k', v') ∷ xs) k v ys h = ground (arith, lookup-above key xs k v ys h)

  pub position-above :
      (key : K) (xs : List (K × V)) (k : K) (v : V) (ys : List (K × V)) (index : ℕ)
      → item.compare k key ≡ gt
      → position key (xs ++ ((k, v) ∷ ys)) index ≡ position key xs index
  unfolding position
  position-above key [] k v ys index h = ground arith
  position-above key ((k', v') ∷ xs) k v ys index h =
      ground (arith, position-above key xs k v ys (suc index) h)

  -- And on one whose front is all below the key.
  pub put-Below :
      (key : K) (value : V) (xs ys : List (K × V))
      → Below key xs
      → put key value (xs ++ ys) ≡ xs ++ put key value ys
  unfolding put
  put-Below key value [] ys b = refl
  put-Below key value ((k, v) ∷ xs) ys b = ground (arith, put-Below key value xs ys b.1)

  pub remove-Below :
      (key : K) (xs ys : List (K × V)) → Below key xs → remove key (xs ++ ys) ≡ xs ++ remove key ys
  unfolding remove
  remove-Below key [] ys b = refl
  remove-Below key ((k, v) ∷ xs) ys b = ground (arith, remove-Below key xs ys b.1)

  pub lookup-Below :
      (key : K) (xs ys : List (K × V)) → Below key xs → lookup key (xs ++ ys) ≡ lookup key ys
  unfolding lookup
  lookup-Below key [] ys b = refl
  lookup-Below key ((k, v) ∷ xs) ys b = ground (arith, lookup-Below key xs ys b.1)

  pub position-Below :
      (key : K) (xs ys : List (K × V)) (index : ℕ)
      → Below key xs
      → position key (xs ++ ys) index ≡ position key ys (index + length xs)
  unfolding position
  position-Below key [] ys index b = ground arith
  position-Below key ((k, v) ∷ xs) ys index b =
      ground (arith, position-Below key xs ys (suc index) b.1)

  -- The entry in the midst is below the key, or has it.
  module _ (key : K) (xs : List (K × V)) (k : K) (v : V) (ys : List (K × V))
      (below : Below key xs) where
    pub put-lt :
        (value : V)
        → item.compare k key ≡ lt
        → put key value (xs ++ ((k, v) ∷ ys)) ≡ xs ++ ((k, v) ∷ put key value ys)
    unfolding put
    put-lt value e = ground (arith, put-Below key value xs ((k, v) ∷ ys) below)

    pub put-eq :
        (value : V)
        → item.compare k key ≡ eq
        → put key value (xs ++ ((k, v) ∷ ys)) ≡ xs ++ ((k, value) ∷ ys)
    unfolding put
    put-eq value e = ground (arith, put-Below key value xs ((k, v) ∷ ys) below)

    pub remove-lt :
        item.compare k key ≡ lt → remove key (xs ++ ((k, v) ∷ ys)) ≡ xs ++ ((k, v) ∷ remove key ys)
    unfolding remove
    remove-lt e = ground (arith, remove-Below key xs ((k, v) ∷ ys) below)

    pub remove-eq : item.compare k key ≡ eq → remove key (xs ++ ((k, v) ∷ ys)) ≡ xs ++ ys
    unfolding remove
    remove-eq e = ground (arith, remove-Below key xs ((k, v) ∷ ys) below)

    pub lookup-lt : item.compare k key ≡ lt → lookup key (xs ++ ((k, v) ∷ ys)) ≡ lookup key ys
    unfolding lookup
    lookup-lt e = ground (arith, lookup-Below key xs ((k, v) ∷ ys) below)

    pub lookup-eq : item.compare k key ≡ eq → lookup key (xs ++ ((k, v) ∷ ys)) ≡ some v
    unfolding lookup
    lookup-eq e = ground (arith, lookup-Below key xs ((k, v) ∷ ys) below)

    pub position-lt :
        (index : ℕ)
        → item.compare k key ≡ lt
        → position key (xs ++ ((k, v) ∷ ys)) index ≡ position key ys (index + length xs + 1)
    unfolding position
    position-lt index e = ground (arith, position-Below key xs ((k, v) ∷ ys) index below)

    pub position-eq :
        (index : ℕ)
        → item.compare k key ≡ eq
        → position key (xs ++ ((k, v) ∷ ys)) index ≡ some ((k, v), index + length xs)
    unfolding position
    position-eq index e = ground (arith, position-Below key xs ((k, v) ∷ ys) index below)

module _ {ℓ κ} {K : Type ℓ} {V : Type κ} (item : Item K) (order : IsOrder item) where
  -- The parts of a sorted list around one entry.
  pub IsSorted-split :
      (xs : List (K × V)) (k : K) (v : V) (ys : List (K × V))
      → IsSorted item (xs ++ ((k, v) ∷ ys))
      → Below item k xs × Above item k ys × IsSorted item xs × IsSorted item ys
  IsSorted-split [] k v ys s = (tt, s.0, tt, s.1)
  IsSorted-split ((k', v') ∷ xs) k v ys s =
      let (b, a, sx, sy) = IsSorted-split xs k v ys s.1 in
      let (h, c) = Above-split xs s.0 in ((h, b), a, (c, sx), sy)
    where
      Above-split :
          (xs : List (K × V))
          → Above item k' (xs ++ ((k, v) ∷ ys))
          → (item.compare k' k ≡ lt) × Above item k' xs
      Above-split [] a = (a.0, tt)
      Above-split ((k'', v'') ∷ xs) a = let (h, c) = Above-split xs a.1 in (h, (a.0, c))

  pub Below-lt :
      (k key : K) (xs : List (K × V))
      → Below item k xs
      → item.compare k key ≡ lt
      → Below item key xs
  Below-lt k key [] b h = tt
  Below-lt k key ((k', v') ∷ xs) b h = (order.lt_trans k' k key b.0 h, Below-lt k key xs b.1 h)

  pub Below-eq :
      (k key : K) (xs : List (K × V))
      → Below item k xs
      → item.compare k key ≡ eq
      → Below item key xs
  Below-eq k key [] b h = tt
  Below-eq k key ((k', v') ∷ xs) b h = (order.lt_eq k' k key b.0 h, Below-eq k key xs b.1 h)
