-- ===== src/Avl/Height.antt =====
-- How deep a balanced tree may be, and its first and last nodes.
use bitmarkd.Common.{
  ℕ, zero, suc, ◌+◌, ◌-◌, ◌⊎◌, ◌/◌, ◌^◌, ◌≤◌, ◌≡◌, refl, sym, ap, ◌∙◌, arith, inl, inr, Option,
  none, some, List, [], ◌∷◌, ◌++◌,
}
use Prim.Native.Nat.{max}
use bitmarkd.Avl.Node.{Balance, left_high, even, right_high, Node, nil, node}
use bitmarkd.Avl.Search.{first, last}
use bitmarkd.Avl.Invariant.{Fits, height, size, IsAvl, entries}
use bitmarkd.Avl.Rank.{entry}
use native.Mathlib.Nat.{pow-suc}

pow_mono : (a b : ℕ) → a ≤ b → 2 ^ a ≤ 2 ^ b
pow_mono zero zero h = omega arith
pow_mono zero (suc b) h = omega (arith, pow-suc 2 b, pow_mono zero b (omega arith))
pow_mono (suc a) zero h = absurd (omega arith)
pow_mono (suc a) (suc b) h = omega (arith, pow-suc 2 a, pow-suc 2 b, pow_mono a b (omega arith))

-- Both branches of a balanced node are at most one level lower than the higher one.
branches : (b : Balance) (hl hr : ℕ) → Fits b hl hr → (max hl hr ≤ suc hl) × (max hl hr ≤ suc hr)
branches left_high hl hr f = (omega arith, omega arith)
branches even hl hr f = (omega arith, omega arith)
branches right_high hl hr f = (omega arith, omega arith)

module _ {ℓ κ} {K : Type ℓ} {V : Type κ} where
  -- A balanced tree of n nodes has a height of at most 2 * log2 (n + 1) + 1.
  pub height-IsAvl : (t : Node K V) → IsAvl t → 2 ^ (height t / 2) ≤ size t + 1
  height-IsAvl nil a = omega arith
  height-IsAvl (node l r k v nl nr b) a =
      let m : ℕ = max (height l) (height r) in
      let (bl, br) = branches b (height l) (height r) a.0 in
      let il = height-IsAvl l a.3 in
      let ir = height-IsAvl r a.4 in
      elim (half_step m) [
        | inl e ↦ omega (arith, ap (λ (x : ℕ). 2 ^ x) e)
        | inr e ↦ omega (
          arith,
          ap (λ (x : ℕ). 2 ^ x) e,
          pow-suc 2 ((m - 1) / 2),
          pow_mono ((m - 1) / 2) (height l / 2) (omega arith),
          pow_mono ((m - 1) / 2) (height r / 2) (omega arith),
        )
      ]
    where
      half_step : (m : ℕ) → (suc m / 2 ≡ 0) ⊎ (suc m / 2 ≡ suc ((m - 1) / 2))
      half_step zero = inl (omega arith)
      half_step (suc m) = inr (omega arith)

  -- The first entry of a list, and the last one.
  abbrev pub head? : List (K × V) → Option (K × V)
  head? [] = none
  head? (x ∷ xs) = some x

  abbrev pub last? : List (K × V) → Option (K × V)
  last? [] = none
  last? (x ∷ []) = some x
  last? (x ∷ (y ∷ xs)) = last? (y ∷ xs)

  first-entries : (t : Node K V) → entry (first t) ≡ head? (entries t)
  unfolding first
  first-entries nil = refl
  first-entries (node nil r k v nl nr b) = refl
  first-entries (node (node l1 r1 k1 v1 nl1 nr1 b1) r k v nl nr b) =
      first-entries (node l1 r1 k1 v1 nl1 nr1 b1)
      ∙ head?-append (entries l1) (k1, v1) (entries r1) ((k, v) ∷ entries r)
    where
      head?-append :
          (xs : List (K × V)) (x : K × V) (ys zs : List (K × V))
          → head? (xs ++ (x ∷ ys)) ≡ head? ((xs ++ (x ∷ ys)) ++ zs)
      head?-append [] x ys zs = refl
      head?-append (w ∷ xs) x ys zs = refl

  last?-append :
      (xs : List (K × V)) (x : K × V) (ys : List (K × V)) → last? (xs ++ (x ∷ ys)) ≡ last? (x ∷ ys)
  last?-append [] x ys = refl
  last?-append (w ∷ []) x ys = refl
  last?-append (w ∷ (u ∷ xs)) x ys = last?-append (u ∷ xs) x ys

  last-entries : (t : Node K V) → entry (last t) ≡ last? (entries t)
  unfolding last
  last-entries nil = refl
  last-entries (node l nil k v nl nr b) = sym (last?-append (entries l) (k, v) [])
  last-entries (node l (node l1 r1 k1 v1 nl1 nr1 b1) k v nl nr b) =
      last-entries (node l1 r1 k1 v1 nl1 nr1 b1)
      ∙ last?-append (entries l1) (k1, v1) (entries r1)
      ∙ sym (
          last?-append (entries l) (k, v) (entries l1 ++ ((k1, v1) ∷ entries r1))
          ∙ tail_end (entries l1) (k, v) (k1, v1) (entries r1))
    where
      tail_end :
          (xs : List (K × V)) (x y : K × V) (ys : List (K × V))
          → last? (x ∷ (xs ++ (y ∷ ys))) ≡ last? (y ∷ ys)
      tail_end xs x y ys = last?-append (x ∷ xs) y ys

  -- First returns the node of the first entry, and Last that of the last one; nil of an empty tree.
  pub first-last :
      (t : Node K V) → (entry (first t) ≡ head? (entries t)) × (entry (last t) ≡ last? (entries t))
  first-last t = (first-entries t, last-entries t)
