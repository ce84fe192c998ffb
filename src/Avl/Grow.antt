-- ===== src/Avl/Grow.antt =====
-- Insert keeps a tree balanced and its counts right, and never panics.
use bitmarkd.Common.{ℕ, suc, ◌+◌, ◌≡◌, arith, Bool, true, false, if◌then◌else◌, inl, inr}
use Prim.Native.Nat.{max}
use bitmarkd.Avl.Key.{Item}
use bitmarkd.Avl.Node.{Balance, left_high, even, right_high, Node, nil, node}
use bitmarkd.Avl.Rotate.{rotate_ll, rotate_lr, rotate_rr, rotate_rl}
use bitmarkd.Avl.Insert.{left_grown, right_grown, after_growth, insert}
use bitmarkd.Avl.Invariant.{
  Fits, height, size, IsAvl, HasGrown, Returns, Returns-bind, Ordering-cases,
}

module _ {ℓ κ} {K : Type ℓ} {V : Type κ} where
  -- What a rebalanced node is to be: balanced, of the size and height given.
  abbrev Rebalanced : ℕ → ℕ → Node K V × Bool → Type 0
  Rebalanced n h (t, grown) = IsAvl t × (size t ≡ n) × HasGrown grown h t

  left_grown-Returns :
      (l r : Node K V) (k : K) (v : V) (nl nr : ℕ) (b : Balance) (hl : ℕ)
      → IsAvl l
      → IsAvl r
      → nl ≡ size l
      → nr ≡ size r
      → HasGrown true hl l
      → Fits b hl (height r)
      → Returns
          (Rebalanced (suc (size l + size r)) (suc (max hl (height r))))
          (left_grown (node l r k v nl nr b))
  unfolding left_grown rotate_ll rotate_lr
  left_grown-Returns nil r k v nl nr b hl al ar cl cr g f = absurd g
  left_grown-Returns (node l1 r1 k1 v1 nl1 nr1 b1) r k v nl nr right_high hl al ar cl cr g f =
      ground arith
  left_grown-Returns (node l1 r1 k1 v1 nl1 nr1 b1) r k v nl nr even hl al ar cl cr g f =
      ground arith
  left_grown-Returns (node l1 r1 k1 v1 nl1 nr1 left_high) r k v nl nr left_high hl al ar cl cr g f =
      ground arith
  left_grown-Returns (node l1 r1 k1 v1 nl1 nr1 even) r k v nl nr left_high hl al ar cl cr g f =
      absurd (omega arith)
  left_grown-Returns (node l1 nil k1 v1 nl1 nr1 right_high) r k v nl nr left_high hl al ar cl cr g
        f =
      absurd (omega arith)
  left_grown-Returns (node l1 (node l2 r2 k2 v2 nl2 nr2 left_high) k1 v1 nl1 nr1 right_high) r k v
        nl nr left_high hl al ar cl cr g f =
      ground arith
  left_grown-Returns (node l1 (node l2 r2 k2 v2 nl2 nr2 even) k1 v1 nl1 nr1 right_high) r k v nl nr
        left_high hl al ar cl cr g f =
      ground arith
  left_grown-Returns (node l1 (node l2 r2 k2 v2 nl2 nr2 right_high) k1 v1 nl1 nr1 right_high) r k v
        nl nr left_high hl al ar cl cr g f =
      ground arith

  right_grown-Returns :
      (l r : Node K V) (k : K) (v : V) (nl nr : ℕ) (b : Balance) (hr : ℕ)
      → IsAvl l
      → IsAvl r
      → nl ≡ size l
      → nr ≡ size r
      → HasGrown true hr r
      → Fits b (height l) hr
      → Returns
          (Rebalanced (suc (size l + size r)) (suc (max (height l) hr)))
          (right_grown (node l r k v nl nr b))
  unfolding right_grown rotate_rr rotate_rl
  right_grown-Returns l nil k v nl nr b hr al ar cl cr g f = absurd g
  right_grown-Returns l (node l1 r1 k1 v1 nl1 nr1 b1) k v nl nr left_high hr al ar cl cr g f =
      ground arith
  right_grown-Returns l (node l1 r1 k1 v1 nl1 nr1 b1) k v nl nr even hr al ar cl cr g f =
      ground arith
  right_grown-Returns l (node l1 r1 k1 v1 nl1 nr1 right_high) k v nl nr right_high hr al ar cl cr g
        f =
      ground arith
  right_grown-Returns l (node l1 r1 k1 v1 nl1 nr1 even) k v nl nr right_high hr al ar cl cr g f =
      absurd (omega arith)
  right_grown-Returns l (node nil r1 k1 v1 nl1 nr1 left_high) k v nl nr right_high hr al ar cl cr g
        f =
      absurd (omega arith)
  right_grown-Returns l (node (node l2 r2 k2 v2 nl2 nr2 left_high) r1 k1 v1 nl1 nr1 left_high) k v
        nl nr right_high hr al ar cl cr g f =
      ground arith
  right_grown-Returns l (node (node l2 r2 k2 v2 nl2 nr2 even) r1 k1 v1 nl1 nr1 left_high) k v nl nr
        right_high hr al ar cl cr g f =
      ground arith
  right_grown-Returns l (node (node l2 r2 k2 v2 nl2 nr2 right_high) r1 k1 v1 nl1 nr1 left_high) k v
        nl nr right_high hr al ar cl cr g f =
      ground arith

  -- What the insertion into a node returns: balanced, with the node counted if it was added.
  abbrev pub Inserted : Node K V → Node K V × Bool × Bool → Type 0
  Inserted t (t', added, grown) =
      IsAvl t' × (size t' ≡ (if added then suc (size t) else size t)) × HasGrown grown (height t) t'

  left_after :
      (l l' r : Node K V) (k : K) (v : V) (nl nr : ℕ) (b : Balance) (added grown : Bool)
      → IsAvl (node l r k v nl nr b)
      → Inserted l (l', added, grown)
      → Returns
          (Inserted (node l r k v nl nr b))
          (after_growth left_grown (node l' r k v (if added then nl + 1 else nl) nr b) added grown)
  left_after l l' r k v nl nr b added false a i = ground arith
  left_after l l' r k v nl nr b added true a i =
      Returns-bind (Rebalanced (suc (size l' + size r)) (suc (max (height l) (height r))))
        (Inserted (node l r k v nl nr b)) _ _
        (left_grown-Returns l' r k v (if added then nl + 1 else nl) nr b (height l) i.0 a.4
          (ground arith) a.2 i.2 a.0)
        (λ (p, h) q. ground arith)

  right_after :
      (l r r' : Node K V) (k : K) (v : V) (nl nr : ℕ) (b : Balance) (added grown : Bool)
      → IsAvl (node l r k v nl nr b)
      → Inserted r (r', added, grown)
      → Returns
          (Inserted (node l r k v nl nr b))
          (after_growth right_grown (node l r' k v nl (if added then nr + 1 else nr) b) added grown)
  right_after l r r' k v nl nr b added false a i = ground arith
  right_after l r r' k v nl nr b added true a i =
      Returns-bind (Rebalanced (suc (size l + size r')) (suc (max (height l) (height r))))
        (Inserted (node l r k v nl nr b)) _ _
        (right_grown-Returns l r' k v nl (if added then nr + 1 else nr) b (height r) a.3 i.0 a.1
          (ground arith) i.2 a.0)
        (λ (p, h) q. ground arith)

module _ {ℓ κ} {K : Type ℓ} {V : Type κ} (item : Item K) where
  pub insert-Returns :
      (key : K) (value : V) (t : Node K V)
      → IsAvl t
      → Returns (Inserted t) (insert item key value t)
  unfolding insert
  insert-Returns key value nil a = ground arith
  insert-Returns key value (node l r k v nl nr b) a = elim (Ordering-cases (item.compare k key)) [
    | inl e ↦
        rw (e, Returns, insert)
          (Returns-bind _ _ _ _ (insert-Returns key value r a.4)
            (λ (r', added, h) i. right_after l r r' k v nl nr b added h a i))
    | inr (inl e) ↦ rw (e, Returns, insert) (ground arith)
    | inr (inr e) ↦
        rw (e, Returns, insert)
          (Returns-bind _ _ _ _ (insert-Returns key value l a.3)
            (λ (l', added, h) i. left_after l l' r k v nl nr b added h a i))
  ]
