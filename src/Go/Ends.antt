-- ===== src/Go/Ends.antt =====
-- The calls that never run out of the fuel of a model's loop.
use bitmarkd.Common.{ℕ, ◌≡◌, refl, arith, Bool, true, false}
use bitmarkd.Fault.{Fault}
use bitmarkd.Go.{
  Result, ok, err, panicked, exhausted, Slice, slice_from, slice_range, slice_index, ◌>>=◌, refuse,
}

-- The fuel ran out.
abbrev pub exhausts {ℓ} : {A : Type ℓ} → Result A → Bool
exhausts (ok a) = false
exhausts (err e) = false
exhausts panicked = false
exhausts exhausted = true

pub exhausts-chain {ℓ κ} :
    {A : Type ℓ} {B : Type κ} (m : Result A) (f : A → Result B)
    → exhausts m ≡ false
    → ((a : A) → m ≡ ok a → exhausts (f a) ≡ false)
    → exhausts (m >>= f) ≡ false
exhausts-chain (ok a) f h k = k a refl
exhausts-chain (err e) f h k = refl
exhausts-chain panicked f h k = refl
exhausts-chain exhausted f h k = h

pub exhausts->>= {ℓ κ} :
    {A : Type ℓ} {B : Type κ} (m : Result A) (f : A → Result B)
    → exhausts m ≡ false
    → ((a : A) → exhausts (f a) ≡ false)
    → exhausts (m >>= f) ≡ false
exhausts->>= m f h k = exhausts-chain m f h (λ a e. k a)

pub refuse-ends : (test : Bool) (e : Fault) → exhausts (refuse test e) ≡ false
refuse-ends test e = ground arith

pub slice_from-ends : (s : Slice) (n : ℕ) → exhausts (slice_from s n) ≡ false
unfolding slice_from
slice_from-ends s n = ground arith

pub slice_range-ends : (s : Slice) (n k : ℕ) → exhausts (slice_range s n k) ≡ false
unfolding slice_range
slice_range-ends s n k = ground arith

pub slice_index-ends : (s : Slice) (n : ℕ) → exhausts (slice_index s n) ≡ false
unfolding slice_index
slice_index-ends s n = ground arith
