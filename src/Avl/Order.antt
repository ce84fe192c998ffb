-- ===== src/Avl/Order.antt =====
-- Put and remove keep a list of entries sorted.
use bitmarkd.Common.{
  suc, ◌≡◌, refl, arith, List, [], ◌∷◌, length, Option, none, some, Bool, true, false,
  if◌then◌else◌,
}
use Prim.Native.Nat.Ordering.{lt}
use bitmarkd.Avl.Key.{Item, IsOrder}
use bitmarkd.Avl.Sorted.{put, remove, lookup, Above, IsSorted}

abbrev pub is_none {ℓ} : {A : Type ℓ} → Option A → Bool
is_none none = true
is_none (some a) = false

module _ {ℓ κ} {K : Type ℓ} {V : Type κ} (item : Item K) (order : IsOrder item) where
  Above-lt :
      (key k : K) (xs : List (K × V))
      → Above item k xs
      → item.compare key k ≡ lt
      → Above item key xs
  Above-lt key k [] a h = tt
  Above-lt key k ((k', v') ∷ xs) a h = (order.lt_trans key k k' h a.0, Above-lt key k xs a.1 h)

  Above-put :
      (k key : K) (value : V) (xs : List (K × V))
      → item.compare k key ≡ lt
      → Above item k xs
      → Above item k (put item key value xs)
  unfolding put
  Above-put k key value [] h a = (h, tt)
  Above-put k key value ((k', v') ∷ xs) h a = ground (arith, Above-put k key value xs)

  Above-remove :
      (k key : K) (xs : List (K × V)) → Above item k xs → Above item k (remove item key xs)
  unfolding remove
  Above-remove k key [] a = tt
  Above-remove k key ((k', v') ∷ xs) a = ground (arith, Above-remove k key xs)

  pub put-IsSorted :
      (key : K) (value : V) (xs : List (K × V))
      → IsSorted item xs
      → IsSorted item (put item key value xs)
  unfolding put
  put-IsSorted key value [] s = (tt, tt)
  put-IsSorted key value ((k, v) ∷ xs) s = ground (
    arith,
    put-IsSorted key value xs,
    Above-put k key value xs,
    Above-lt key k xs,
    order.lt_of_gt k key,
  )

  pub remove-IsSorted :
      (key : K) (xs : List (K × V)) → IsSorted item xs → IsSorted item (remove item key xs)
  unfolding remove
  remove-IsSorted key [] s = tt
  remove-IsSorted key ((k, v) ∷ xs) s =
      ground (arith, remove-IsSorted key xs, Above-remove k key xs)

module _ {ℓ κ} {K : Type ℓ} {V : Type κ} (item : Item K) where
  -- An entry is added exactly where there is none for the key.
  pub length-put :
      (key : K) (value : V) (xs : List (K × V))
      → length (put item key value xs)
        ≡ (if is_none (lookup item key xs) then suc (length xs) else length xs)
  unfolding put lookup
  length-put key value [] = refl
  length-put key value ((k, v) ∷ xs) = ground (arith, length-put key value xs)
