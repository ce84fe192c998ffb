-- ===== src/Avl/Rank.antt =====
-- Search and Get: the index of a key, and the entry at an index.
use bitmarkd.Common.{
  ℕ, zero, suc, ◌+◌, ◌-◌, ◌<◌, ◌≤◌, ◌≡◌, refl, sym, ap, ◌∙◌, arith, inl, inr, Option, none, some,
  List, [], ◌∷◌, ◌++◌, length, get_elem?, ltb, leb, Bool-cases,
}
use bitmarkd.Common.Int.{pos}
use bitmarkd.Avl.Key.{Item, IsOrder}
use bitmarkd.Avl.Node.{Node, nil, node, Tree}
use bitmarkd.Avl.Search.{search, get, get_index}
use bitmarkd.Avl.Invariant.{IsAvl, entries, length-entries, Ordering-cases}
use bitmarkd.Avl.Sorted.{
  IsSorted, position, position-above, position-lt, position-eq, IsSorted-split, Below-lt, Below-eq,
}
use bitmarkd.Avl.Valid.{IsValid}

module _ {ℓ κ} {K : Type ℓ} {V : Type κ} where
  -- The entry of a node that was found.
  abbrev pub entry : Node K V → Option (K × V)
  entry nil = none
  entry (node l r k v nl nr b) = some (k, v)

  abbrev pub found_entry : Option (Node K V × ℕ) → Option ((K × V) × ℕ)
  found_entry none = none
  found_entry (some (nil, index)) = none
  found_entry (some (node l r k v nl nr b, index)) = some ((k, v), index)

  get_elem?-left :
      (xs ys : List (K × V)) (i : ℕ) → i < length xs → get_elem? (xs ++ ys) i ≡ get_elem? xs i
  get_elem?-left [] ys i h = absurd (omega arith)
  get_elem?-left (x ∷ xs) ys zero h = refl
  get_elem?-left (x ∷ xs) ys (suc i) h = get_elem?-left xs ys i (omega arith)

  get_elem?-right :
      (xs ys : List (K × V)) (i : ℕ) → get_elem? (xs ++ ys) (length xs + i) ≡ get_elem? ys i
  get_elem?-right [] ys i = ap (get_elem? ys) (omega arith)
  get_elem?-right (x ∷ xs) ys i =
      ap (get_elem? (x ∷ (xs ++ ys))) {x = suc (length xs) + i} {y = suc (length xs + i)}
        (omega arith)
      ∙ get_elem?-right xs ys i

  get-entries :
      (index : ℕ) (t : Node K V) → IsAvl t → entry (get index t) ≡ get_elem? (entries t) index
  unfolding get
  get-entries index nil a = refl
  get-entries index (node l r k v nl nr b) a =
      let low = get-entries index l a.3 in
      let high = get-entries (index - nl - 1) r a.4 in
      let size_l = length-entries l in
      elim (Bool-cases (ltb index nl)) [
        | inl e ↦
            rw e (low ∙ sym (get_elem?-left (entries l) ((k, v) ∷ entries r) index (ground arith)))
        | inr e ↦ elim (Bool-cases (ltb nl index)) [
          | inl e' ↦
              let j : ℕ = index - nl - 1 in
              let at : index ≡ length (entries l) + suc j = ground arith in
              rw (e, e')
                (high
                  ∙ sym (
                      ap (get_elem? (entries l ++ ((k, v) ∷ entries r))) at
                      ∙ get_elem?-right (entries l) ((k, v) ∷ entries r) (suc j)))
          | inr e' ↦
              let at : index ≡ length (entries l) + 0 = ground arith in
              rw (e, e')
                (sym (
                  ap (get_elem? (entries l ++ ((k, v) ∷ entries r))) at
                  ∙ get_elem?-right (entries l) ((k, v) ∷ entries r) 0))
        ]
      ]

module _ {ℓ κ} {K : Type ℓ} {V : Type κ} (item : Item K) (order : IsOrder item) where
  search-entries :
      (key : K) (t : Node K V) (index : ℕ)
      → IsAvl t
      → IsSorted item (entries t)
      → found_entry (search item key t index) ≡ position item key (entries t) index
  unfolding search
  search-entries key nil index a s = unfold position in refl
  search-entries key (node l r k v nl nr b) index a s =
      let (low, high, sl, sr) = IsSorted-split item order (entries l) k v (entries r) s in
      let size_l = length-entries l in
      elim (Ordering-cases (item.compare k key)) [
        | inl e ↦
            let below = Below-lt item order k key (entries l) low e in
            rw (e, search)
              (search-entries key r (index + nl + 1) a.4 sr
                ∙ ap (position item key (entries r)) {x = index + nl + 1}
                    {y = index + length (entries l) + 1} (omega arith)
                ∙ sym (position-lt item key (entries l) k v (entries r) below index e))
        | inr (inl e) ↦
            let below = Below-eq item order k key (entries l) low e in
            rw (e, search)
              (ap (λ (i : ℕ). some ((k, v), i)) {x = index + nl} {y = index + length (entries l)}
                  (omega arith)
                ∙ sym (position-eq item key (entries l) k v (entries r) below index e))
        | inr (inr e) ↦
            rw (e, search)
              (search-entries key l index a.3 sl
                ∙ sym (position-above item key (entries l) k v (entries r) index e))
      ]

  -- Where Compare is a total order, Search in a valid tree finds the entry of the key with the
  -- number of entries before it, exactly where the tree has an entry for the key.
  pub search-IsValid :
      (key : K) (tree : Tree K V)
      → IsValid item tree
      → found_entry (search item key tree.root 0) ≡ position item key (entries tree.root) 0
  search-IsValid key tree v = search-entries key tree.root 0 v.balanced v.sorted

module _ {ℓ κ} {K : Type ℓ} {V : Type κ} (item : Item K) where
  -- In a valid tree Get with an index from 0 on returns the node of the entry at that index, and nil
  -- from the tree's count on.
  pub get_index-IsValid :
      (index : ℕ) (tree : Tree K V)
      → IsValid item tree
      → entry (get_index (pos index) tree) ≡ get_elem? (entries tree.root) index
  unfolding get_index
  get_index-IsValid index tree v =
      let size_t = length-entries tree.root in
      elim (Bool-cases (leb tree.count index)) [
        | inl e ↦ rw e (sym (get_elem?_end (entries tree.root) index (ground (arith, v.counted))))
        | inr e ↦ rw e (get-entries index tree.root v.balanced)
      ]
    where
      get_elem?_end : (xs : List (K × V)) (i : ℕ) → length xs ≤ i → get_elem? xs i ≡ none
      get_elem?_end [] i h = refl
      get_elem?_end (x ∷ xs) zero h = absurd (omega arith)
      get_elem?_end (x ∷ xs) (suc i) h = get_elem?_end xs i (omega arith)
