-- ===== src/Avl/Refine.antt =====
-- A tree implements the list of its entries: Insert is put, and Delete is lookup and remove.
use bitmarkd.Common.{
  ℕ, ◌+◌, ◌-◌, ◌≡◌, refl, sym, ap, ◌∙◌, Bool, if◌then◌else◌, inl, inr, Option, List, [], ◌∷◌, ◌++◌,
}
use bitmarkd.Avl.Key.{Item, IsOrder}
use bitmarkd.Avl.Node.{Balance, Node, nil, node}
use bitmarkd.Avl.Insert.{left_grown, right_grown, insert}
use bitmarkd.Avl.Delete.{balance_left, balance_right, del, left_nodes_after, unlink, delete}
use bitmarkd.Avl.Invariant.{entries, Ensures, Ensures-bind, Ensures-map, Ordering-cases}
use bitmarkd.Avl.Entries.{
  SameFirst, after_growth-Same, after_shrinking-Same, left_grown-Same, right_grown-Same,
  balance_left-Same, balance_right-Same,
}
use bitmarkd.Avl.Sorted.{
  put, remove, lookup, IsSorted, put-above, put-lt, put-eq, remove-above, remove-lt, remove-eq,
  lookup-above, lookup-lt, lookup-eq, IsSorted-split, Below-lt, Below-eq,
}
use mathlib.Core.List.{append_assoc, append-nil}

module _ {ℓ κ} {K : Type ℓ} {V : Type κ} where
  abbrev Emptied : Node K V → K × V × Node K V × Bool → Type (ℓ ⊔ κ)
  Emptied t (key, value, t', h) = entries t' ++ ((key, value) ∷ []) ≡ entries t

  -- del takes the last entry.
  del-entries : (t : Node K V) → Ensures (Emptied t) (del t)
  unfolding del
  del-entries nil = tt
  del-entries (node l nil k v nl nr b) = refl
  del-entries (node l (node l1 r1 k1 v1 nl1 nr1 b1) k v nl nr b) =
      let r : Node K V = node l1 r1 k1 v1 nl1 nr1 b1 in
      let t : Node K V = node l r k v nl nr b in
      Ensures-bind (Emptied r) (Emptied t) _ _ (del-entries (node l1 r1 k1 v1 nl1 nr1 b1))
        (λ (key, value, r', h) q.
          let p : Node K V = node l r' k v nl (nr - 1) b in
          Ensures-bind (SameFirst (entries p)) (Emptied t) _ _
            (after_shrinking-Same balance_right p h (balance_right-Same p))
            (λ (p', h') w.
              ap (λ (xs : List (K × V)). xs ++ ((key, value) ∷ [])) w
              ∙ append_assoc (entries l) ((k, v) ∷ entries r') ((key, value) ∷ [])
              ∙ ap (λ (xs : List (K × V)). entries l ++ ((k, v) ∷ xs)) q))

  -- The entries of the two branches are left.
  unlink-entries :
      (l r : Node K V) (k : K) (v : V) (nl nr : ℕ) (b : Balance)
      → Ensures (SameFirst (entries l ++ entries r)) (unlink (node l r k v nl nr b))
  unfolding unlink
  unlink-entries l nil k v nl nr b = sym (append-nil (entries l))
  unlink-entries nil (node l1 r1 k1 v1 nl1 nr1 b1) k v nl nr b = refl
  unlink-entries (node l2 r2 k2 v2 nl2 nr2 b2) (node l1 r1 k1 v1 nl1 nr1 b1) k v nl nr b =
      let l : Node K V = node l2 r2 k2 v2 nl2 nr2 b2 in
      let r : Node K V = node l1 r1 k1 v1 nl1 nr1 b1 in
      Ensures-bind (Emptied l) (SameFirst (entries l ++ entries r)) _ _
        (del-entries (node l2 r2 k2 v2 nl2 nr2 b2))
        (λ (key, value, l', h) q.
          let p : Node K V = node l' r key value (left_nodes_after l nl) nr b in
          Ensures-map (SameFirst (entries p)) (SameFirst (entries l ++ entries r)) _
            (after_shrinking-Same balance_left p h (balance_left-Same p))
            (λ (p', h') w.
              w
              ∙ sym (append_assoc (entries l') ((key, value) ∷ []) (entries r))
              ∙ ap (λ (xs : List (K × V)). xs ++ entries r) q))

module _ {ℓ κ} {K : Type ℓ} {V : Type κ} (item : Item K) (order : IsOrder item) where
  abbrev pub Puts : K → V → Node K V → Node K V × Bool × Bool → Type (ℓ ⊔ κ)
  Puts key value t (t', added, h) = entries t' ≡ put item key value (entries t)

  pub insert-entries :
      (key : K) (value : V) (t : Node K V)
      → IsSorted item (entries t)
      → Ensures (Puts key value t) (insert item key value t)
  unfolding insert
  insert-entries key value nil s = unfold put in refl
  insert-entries key value (node l r k v nl nr b) s =
      let t : Node K V = node l r k v nl nr b in
      let (low, high, sl, sr) = IsSorted-split item order (entries l) k v (entries r) s in
      elim (Ordering-cases (item.compare k key)) [
        | inl e ↦
            let below = Below-lt item order k key (entries l) low e in
            rw (e, Ensures, insert)
              (Ensures-bind (Puts key value r) (Puts key value t) _ _
                (insert-entries key value r sr)
                (λ (r', added, h) q.
                  let p : Node K V = node l r' k v nl (if added then nr + 1 else nr) b in
                  Ensures-map _ (Puts key value t) _
                    (after_growth-Same right_grown p added h (right_grown-Same p))
                    (λ (p', a, g) w.
                      w
                      ∙ ap (λ (xs : List (K × V)). entries l ++ ((k, v) ∷ xs)) q
                      ∙ sym (put-lt item key (entries l) k v (entries r) below value e))))
        | inr (inl e) ↦
            let below = Below-eq item order k key (entries l) low e in
            rw (e, Ensures, insert)
              (sym (put-eq item key (entries l) k v (entries r) below value e))
        | inr (inr e) ↦
            rw (e, Ensures, insert)
              (Ensures-bind (Puts key value l) (Puts key value t) _ _
                (insert-entries key value l sl)
                (λ (l', added, h) q.
                  let p : Node K V = node l' r k v (if added then nl + 1 else nl) nr b in
                  Ensures-map _ (Puts key value t) _
                    (after_growth-Same left_grown p added h (left_grown-Same p))
                    (λ (p', a, g) w.
                      w
                      ∙ ap (λ (xs : List (K × V)). xs ++ ((k, v) ∷ entries r)) q
                      ∙ sym (put-above item key value (entries l) k v (entries r) e))))
      ]

  abbrev pub Removes : K → Node K V → Option V × Bool × Node K V × Bool → Type (ℓ ⊔ κ)
  Removes key t (value, removed, t', h) =
      (entries t' ≡ remove item key (entries t)) × (value ≡ lookup item key (entries t))

  pub delete-entries :
      (key : K) (t : Node K V)
      → IsSorted item (entries t)
      → Ensures (Removes key t) (delete item key t)
  unfolding delete
  delete-entries key nil s = unfold remove lookup in (refl, refl)
  delete-entries key (node l r k v nl nr b) s =
      let t : Node K V = node l r k v nl nr b in
      let (low, high, sl, sr) = IsSorted-split item order (entries l) k v (entries r) s in
      elim (Ordering-cases (item.compare k key)) [
        | inl e ↦
            let below = Below-lt item order k key (entries l) low e in
            rw (e, Ensures, delete)
              (Ensures-bind (Removes key r) (Removes key t) _ _ (delete-entries key r sr)
                (λ (value, removed, r', h) q.
                  let p : Node K V = node l r' k v nl (if removed then nr - 1 else nr) b in
                  Ensures-bind (SameFirst (entries p)) (Removes key t) _ _
                    (after_shrinking-Same balance_right p h (balance_right-Same p))
                    (λ (p', h') w. (
                      w
                          ∙ ap (λ (xs : List (K × V)). entries l ++ ((k, v) ∷ xs)) q.0
                          ∙ sym (remove-lt item key (entries l) k v (entries r) below e),
                      q.1 ∙ sym (lookup-lt item key (entries l) k v (entries r) below e),
                    ))))
        | inr (inl e) ↦
            let below = Below-eq item order k key (entries l) low e in
            rw (e, Ensures, delete)
              (Ensures-bind (SameFirst (entries l ++ entries r)) (Removes key t) _ _
                (unlink-entries l r k v nl nr b)
                (λ (p, h) w. (
                  w ∙ sym (remove-eq item key (entries l) k v (entries r) below e),
                  sym (lookup-eq item key (entries l) k v (entries r) below e),
                )))
        | inr (inr e) ↦
            rw (e, Ensures, delete)
              (Ensures-bind (Removes key l) (Removes key t) _ _ (delete-entries key l sl)
                (λ (value, removed, l', h) q.
                  let p : Node K V = node l' r k v (if removed then nl - 1 else nl) nr b in
                  Ensures-bind (SameFirst (entries p)) (Removes key t) _ _
                    (after_shrinking-Same balance_left p h (balance_left-Same p))
                    (λ (p', h') w. (
                      w
                          ∙ ap (λ (xs : List (K × V)). xs ++ ((k, v) ∷ entries r)) q.0
                          ∙ sym (remove-above item key (entries l) k v (entries r) e),
                      q.1 ∙ sym (lookup-above item key (entries l) k v (entries r) e),
                    ))))
      ]
