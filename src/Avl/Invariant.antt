-- ===== src/Avl/Invariant.antt =====
-- The shape of a balanced tree: heights, sizes, and the nodes from left to right.
use bitmarkd.Common.{
  ℕ, suc, ◌+◌, ◌≡◌, refl, arith, Bool, true, false, List, [], ◌∷◌, ◌++◌, length, length-append,
}
use Prim.Native.Nat.{max, Ordering}
use Prim.Native.Nat.Ordering.{lt, eq, gt}
use bitmarkd.Common.{◌⊎◌, inl, inr}
use bitmarkd.Go.{Result, ok, err, panicked, exhausted, ◌>>=◌}
use bitmarkd.Avl.Node.{Balance, left_high, even, right_high, Node, nil, node}

-- The heights that the balance of a node stands for.
abbrev pub Fits : Balance → ℕ → ℕ → Type 0
Fits left_high hl hr = hl ≡ suc hr
Fits even hl hr = hl ≡ hr
Fits right_high hl hr = hr ≡ suc hl

-- A branch that has just grown leans to one side, unless it is a single node.
abbrev pub Leans : Balance → ℕ → Type 0
Leans even hl = hl ≡ 0
Leans left_high hl = Unit
Leans right_high hl = Unit

module _ {ℓ κ} {K : Type ℓ} {V : Type κ} where
  abbrev pub height : Node K V → ℕ
  height nil = 0
  height (node l r k v nl nr b) = suc (max (height l) (height r))

  abbrev pub size : Node K V → ℕ
  size nil = 0
  size (node l r k v nl nr b) = suc (size l + size r)

  -- Every balance and every count is right.
  abbrev pub IsAvl : Node K V → Type 0
  IsAvl nil = Unit
  IsAvl (node l r k v nl nr b) =
      Fits b (height l) (height r) × (nl ≡ size l) × (nr ≡ size r) × IsAvl l × IsAvl r

  abbrev pub entries : Node K V → List (K × V)
  entries nil = []
  entries (node l r k v nl nr b) = entries l ++ ((k, v) ∷ entries r)

  pub length-entries : (t : Node K V) → length (entries t) ≡ size t
  length-entries nil = refl
  length-entries (node l r k v nl nr b) =
      omega
        (arith, length-append (entries l) ((k, v) ∷ entries r), length-entries l, length-entries r)

  abbrev pub HasGrown : Bool → ℕ → Node K V → Type 0
  HasGrown false h t = height t ≡ h
  HasGrown true h nil = ⊥
  HasGrown true h (node l r k v nl nr b) =
      (suc (max (height l) (height r)) ≡ suc h) × Leans b (height l)

  abbrev pub HasShrunk : Bool → ℕ → Node K V → Type 0
  HasShrunk false h t = height t ≡ h
  HasShrunk true h t = suc (height t) ≡ h

-- The call returns a value, of which P holds.
abbrev pub Returns {ℓ} : {A : Type ℓ} → (A → Type 0) → Result A → Type 0
Returns P (ok a) = P a
Returns P (err e) = ⊥
Returns P panicked = ⊥
Returns P exhausted = ⊥

pub Returns-bind {ℓ κ} :
    {A : Type ℓ} {B : Type κ} (P : A → Type 0) (Q : B → Type 0) (m : Result A) (f : A → Result B)
    → Returns P m
    → ((a : A) → P a → Returns Q (f a))
    → Returns Q (m >>= f)
Returns-bind P Q (ok a) f h k = k a h
Returns-bind P Q (err e) f h k = absurd h
Returns-bind P Q panicked f h k = absurd h
Returns-bind P Q exhausted f h k = absurd h

pub Returns-map {ℓ} :
    {A : Type ℓ} (P Q : A → Type 0) (m : Result A)
    → Returns P m
    → ((a : A) → P a → Q a)
    → Returns Q m
Returns-map P Q (ok a) h k = k a h
Returns-map P Q (err e) h k = absurd h
Returns-map P Q panicked h k = absurd h
Returns-map P Q exhausted h k = absurd h

pub Ordering-cases : (o : Ordering) → (o ≡ lt) ⊎ ((o ≡ eq) ⊎ (o ≡ gt))
Ordering-cases lt = inl refl
Ordering-cases eq = inr (inl refl)
Ordering-cases gt = inr (inr refl)

-- Where the call returns a value, P holds of it.
abbrev pub Ensures {ℓ μ} : {A : Type ℓ} → (A → Type μ) → Result A → Type μ
Ensures P (ok a) = P a
Ensures P (err e) = Unit
Ensures P panicked = Unit
Ensures P exhausted = Unit

pub Ensures-bind {ℓ κ μ ν} :
    {A : Type ℓ} {B : Type κ} (P : A → Type μ) (Q : B → Type ν) (m : Result A) (f : A → Result B)
    → Ensures P m
    → ((a : A) → P a → Ensures Q (f a))
    → Ensures Q (m >>= f)
Ensures-bind P Q (ok a) f h k = k a h
Ensures-bind P Q (err e) f h k = tt
Ensures-bind P Q panicked f h k = tt
Ensures-bind P Q exhausted f h k = tt

pub Ensures-map {ℓ μ ν} :
    {A : Type ℓ} (P : A → Type μ) (Q : A → Type ν) (m : Result A)
    → Ensures P m
    → ((a : A) → P a → Q a)
    → Ensures Q m
Ensures-map P Q (ok a) h k = k a h
Ensures-map P Q (err e) h k = tt
Ensures-map P Q panicked h k = tt
Ensures-map P Q exhausted h k = tt

-- A call that returns, with what it ensures.
pub Returns-ok {ℓ μ} :
    {A : Type ℓ} (P : A → Type 0) (Q : A → Type μ) (m : Result A)
    → Returns P m
    → Ensures Q m
    → (a : A) × (m ≡ ok a) × P a × Q a
Returns-ok P Q (ok a) r e = (a, refl, r, e)
Returns-ok P Q (err e') r e = absurd r
Returns-ok P Q panicked r e = absurd r
Returns-ok P Q exhausted r e = absurd r
