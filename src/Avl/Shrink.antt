-- ===== src/Avl/Shrink.antt =====
-- Delete keeps a tree balanced and its counts right, and never panics.
use bitmarkd.Common.{
  ℕ, suc, ◌+◌, ◌-◌, ◌≤◌, ◌≡◌, arith, Bool, true, false, if◌then◌else◌, inl, inr, Option,
}
use Prim.Native.Nat.{max}
use bitmarkd.Avl.Key.{Item}
use bitmarkd.Avl.Node.{Balance, left_high, even, right_high, Node, nil, node}
use bitmarkd.Avl.Rotate.{rotate_ll, rotate_lr, rotate_rr, rotate_rl}
use bitmarkd.Avl.Delete.{
  balance_left, balance_right, after_shrinking, del, left_nodes_after, unlink, delete,
}
use bitmarkd.Avl.Invariant.{
  Fits, height, size, IsAvl, HasShrunk, Returns, Returns-bind, Returns-map, Ordering-cases,
}

module _ {ℓ κ} {K : Type ℓ} {V : Type κ} where
  abbrev Rebalanced : ℕ → ℕ → Node K V × Bool → Type 0
  Rebalanced n h (t, shrunk) = IsAvl t × (size t ≡ n) × HasShrunk shrunk h t

  balance_left-Returns :
      (l r : Node K V) (k : K) (v : V) (nl nr : ℕ) (b : Balance) (hl : ℕ)
      → IsAvl l
      → IsAvl r
      → nl ≡ size l
      → nr ≡ size r
      → suc (height l) ≡ hl
      → Fits b hl (height r)
      → Returns
          (Rebalanced (suc (size l + size r)) (suc (max hl (height r))))
          (balance_left (node l r k v nl nr b))
  unfolding balance_left rotate_rr rotate_rl
  balance_left-Returns l r k v nl nr left_high hl al ar cl cr g f = ground arith
  balance_left-Returns l r k v nl nr even hl al ar cl cr g f = ground arith
  balance_left-Returns l nil k v nl nr right_high hl al ar cl cr g f = absurd (omega arith)
  balance_left-Returns l (node l1 r1 k1 v1 nl1 nr1 even) k v nl nr right_high hl al ar cl cr g f =
      ground arith
  balance_left-Returns l (node l1 r1 k1 v1 nl1 nr1 right_high) k v nl nr right_high hl al ar cl cr g
        f =
      ground arith
  balance_left-Returns l (node nil r1 k1 v1 nl1 nr1 left_high) k v nl nr right_high hl al ar cl cr g
        f =
      absurd (omega arith)
  balance_left-Returns l (node (node l2 r2 k2 v2 nl2 nr2 left_high) r1 k1 v1 nl1 nr1 left_high) k v
        nl nr right_high hl al ar cl cr g f =
      ground arith
  balance_left-Returns l (node (node l2 r2 k2 v2 nl2 nr2 even) r1 k1 v1 nl1 nr1 left_high) k v nl nr
        right_high hl al ar cl cr g f =
      ground arith
  balance_left-Returns l (node (node l2 r2 k2 v2 nl2 nr2 right_high) r1 k1 v1 nl1 nr1 left_high) k v
        nl nr right_high hl al ar cl cr g f =
      ground arith

  balance_right-Returns :
      (l r : Node K V) (k : K) (v : V) (nl nr : ℕ) (b : Balance) (hr : ℕ)
      → IsAvl l
      → IsAvl r
      → nl ≡ size l
      → nr ≡ size r
      → suc (height r) ≡ hr
      → Fits b (height l) hr
      → Returns
          (Rebalanced (suc (size l + size r)) (suc (max (height l) hr)))
          (balance_right (node l r k v nl nr b))
  unfolding balance_right rotate_ll rotate_lr
  balance_right-Returns l r k v nl nr right_high hr al ar cl cr g f = ground arith
  balance_right-Returns l r k v nl nr even hr al ar cl cr g f = ground arith
  balance_right-Returns nil r k v nl nr left_high hr al ar cl cr g f = absurd (omega arith)
  balance_right-Returns (node l1 r1 k1 v1 nl1 nr1 even) r k v nl nr left_high hr al ar cl cr g f =
      ground arith
  balance_right-Returns (node l1 r1 k1 v1 nl1 nr1 left_high) r k v nl nr left_high hr al ar cl cr g
        f =
      ground arith
  balance_right-Returns (node l1 nil k1 v1 nl1 nr1 right_high) r k v nl nr left_high hr al ar cl cr
        g f =
      absurd (omega arith)
  balance_right-Returns (node l1 (node l2 r2 k2 v2 nl2 nr2 left_high) k1 v1 nl1 nr1 right_high) r k
        v nl nr left_high hr al ar cl cr g f =
      ground arith
  balance_right-Returns (node l1 (node l2 r2 k2 v2 nl2 nr2 even) k1 v1 nl1 nr1 right_high) r k v nl
        nr left_high hr al ar cl cr g f =
      ground arith
  balance_right-Returns (node l1 (node l2 r2 k2 v2 nl2 nr2 right_high) k1 v1 nl1 nr1 right_high) r k
        v nl nr left_high hr al ar cl cr g f =
      ground arith

  left_after :
      (l l' r : Node K V) (k : K) (v : V) (nl nr : ℕ) (b : Balance) (shrunk : Bool)
      → IsAvl l'
      → IsAvl r
      → nl ≡ size l'
      → nr ≡ size r
      → HasShrunk shrunk (height l) l'
      → Fits b (height l) (height r)
      → Returns
          (Rebalanced (suc (size l' + size r)) (suc (max (height l) (height r))))
          (after_shrinking balance_left (node l' r k v nl nr b) shrunk)
  left_after l l' r k v nl nr b false al ar cl cr s f = ground arith
  left_after l l' r k v nl nr b true al ar cl cr s f =
      balance_left-Returns l' r k v nl nr b (height l) al ar cl cr s f

  right_after :
      (l r r' : Node K V) (k : K) (v : V) (nl nr : ℕ) (b : Balance) (shrunk : Bool)
      → IsAvl l
      → IsAvl r'
      → nl ≡ size l
      → nr ≡ size r'
      → HasShrunk shrunk (height r) r'
      → Fits b (height l) (height r)
      → Returns
          (Rebalanced (suc (size l + size r')) (suc (max (height l) (height r))))
          (after_shrinking balance_right (node l r' k v nl nr b) shrunk)
  right_after l r r' k v nl nr b false al ar cl cr s f = ground arith
  right_after l r r' k v nl nr b true al ar cl cr s f =
      balance_right-Returns l r' k v nl nr b (height r) al ar cl cr s f

  -- What is left of a branch without its last node.
  abbrev Emptied : Node K V → K × V × Node K V × Bool → Type 0
  Emptied t (k, v, t', shrunk) =
      IsAvl t' × (suc (size t') ≡ size t) × HasShrunk shrunk (height t) t'

  del-Returns :
      (l r : Node K V) (k : K) (v : V) (nl nr : ℕ) (b : Balance)
      → IsAvl (node l r k v nl nr b)
      → Returns (Emptied (node l r k v nl nr b)) (del (node l r k v nl nr b))
  unfolding del
  del-Returns l nil k v nl nr b a = del_last b a
    where
      del_last :
          (b : Balance)
          → IsAvl (node l nil k v nl nr b)
          → Emptied (node l nil k v nl nr b) (k, v, l, true)
      del_last b a = ground arith
  del-Returns l (node l1 r1 k1 v1 nl1 nr1 b1) k v nl nr b a =
      let r : Node K V = node l1 r1 k1 v1 nl1 nr1 b1 in
      let t : Node K V = node l r k v nl nr b in
      Returns-bind (Emptied r) (Emptied t) _ _ (del-Returns l1 r1 k1 v1 nl1 nr1 b1 a.4)
        (λ (key, value, r', h) q.
          Returns-bind (Rebalanced (suc (size l + size r')) (suc (max (height l) (height r))))
            (Emptied t) _ _
            (right_after l r r' k v nl (nr - 1) b h a.3 q.0 a.1 (omega arith) q.2 a.0)
            (λ (p, h') w. (w.0, omega arith, w.2)))

  left_nodes_after-size :
      (l : Node K V) (nl : ℕ)
      → IsAvl l
      → nl ≡ size l
      → 1 ≤ size l
      → suc (left_nodes_after l nl) ≡ size l
  unfolding left_nodes_after
  left_nodes_after-size nil nl a c h = omega arith
  left_nodes_after-size (node l1 nil k1 v1 nl1 nr1 b1) nl a c h = omega arith
  left_nodes_after-size (node l1 (node l2 r2 k2 v2 nl2 nr2 b2) k1 v1 nl1 nr1 b1) nl a c h =
      omega arith

  abbrev Unlinked : Node K V → Node K V × Bool → Type 0
  Unlinked t (t', shrunk) = IsAvl t' × (suc (size t') ≡ size t) × HasShrunk shrunk (height t) t'

  unlink-Returns :
      (l r : Node K V) (k : K) (v : V) (nl nr : ℕ) (b : Balance)
      → IsAvl (node l r k v nl nr b)
      → Returns (Unlinked (node l r k v nl nr b)) (unlink (node l r k v nl nr b))
  unfolding unlink
  unlink-Returns l nil k v nl nr left_high a = ground arith
  unlink-Returns l nil k v nl nr even a = ground arith
  unlink-Returns l nil k v nl nr right_high a = ground arith
  unlink-Returns nil (node l1 r1 k1 v1 nl1 nr1 b1) k v nl nr b a = ground arith
  unlink-Returns (node l2 r2 k2 v2 nl2 nr2 b2) (node l1 r1 k1 v1 nl1 nr1 b1) k v nl nr b a =
      let l : Node K V = node l2 r2 k2 v2 nl2 nr2 b2 in
      let r : Node K V = node l1 r1 k1 v1 nl1 nr1 b1 in
      let t : Node K V = node l r k v nl nr b in
      Returns-bind (Emptied l) (Unlinked t) _ _ (del-Returns l2 r2 k2 v2 nl2 nr2 b2 a.3)
        (λ (key, value, l', h) q.
          let counted = left_nodes_after-size l nl a.3 a.1 (omega arith) in
          Returns-map (Rebalanced (suc (size l' + size r)) (suc (max (height l) (height r))))
            (Unlinked t) _
            (left_after l l' r key value (left_nodes_after l nl) nr b h q.0 a.4 (omega arith) a.2
              q.2 a.0)
            (λ (p, h') w. (w.0, omega arith, w.2)))

  -- What the deletion from a node returns: balanced, with one node less if one was removed.
  abbrev pub Deleted : Node K V → Option V × Bool × Node K V × Bool → Type 0
  Deleted t (value, removed, t', shrunk) =
      IsAvl t'
      × (size t ≡ (if removed then suc (size t') else size t'))
      × HasShrunk shrunk (height t) t'

module _ {ℓ κ} {K : Type ℓ} {V : Type κ} (item : Item K) where
  pub delete-Returns : (key : K) (t : Node K V) → IsAvl t → Returns (Deleted t) (delete item key t)
  unfolding delete
  delete-Returns key nil a = ground arith
  delete-Returns key (node l r k v nl nr b) a =
      let t : Node K V = node l r k v nl nr b in
      elim (Ordering-cases (item.compare k key)) [
        | inl e ↦
            rw (e, Returns, delete)
              (Returns-bind (Deleted r) (Deleted t) _ _ (delete-Returns key r a.4)
                (λ (value, removed, r', h) q.
                  Returns-bind
                    (Rebalanced (suc (size l + size r')) (suc (max (height l) (height r))))
                    (Deleted t) _ _
                    (right_after l r r' k v nl (if removed then nr - 1 else nr) b h a.3 q.0 a.1
                      (ground arith) q.2 a.0)
                    (λ (p, h') w. (w.0, ground arith, w.2))))
        | inr (inl e) ↦
            rw (e, Returns, delete)
              (Returns-bind (Unlinked t) (Deleted t) _ _ (unlink-Returns l r k v nl nr b a)
                (λ (p, h) w. (w.0, omega arith, w.2)))
        | inr (inr e) ↦
            rw (e, Returns, delete)
              (Returns-bind (Deleted l) (Deleted t) _ _ (delete-Returns key l a.3)
                (λ (value, removed, l', h) q.
                  Returns-bind
                    (Rebalanced (suc (size l' + size r)) (suc (max (height l) (height r))))
                    (Deleted t) _ _
                    (left_after l l' r k v (if removed then nl - 1 else nl) nr b h q.0 a.4
                      (ground arith) a.2 q.2 a.0)
                    (λ (p, h') w. (w.0, ground arith, w.2))))
      ]
