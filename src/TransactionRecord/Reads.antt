-- ===== src/TransactionRecord/Reads.antt =====
-- What a reader makes of the bytes that stand at its offset, composed along `>>=`.
use bitmarkd.Common.{ℕ, ◌+◌, ◌≡◌, ap, ◌∙◌, arith, List, [], ◌++◌}
use bitmarkd.Common.{length, drop, length-append, drop-append, drop-drop}
use bitmarkd.Go.{Result, ok, Slice}
use bitmarkd.TransactionRecord.Reader.{Reader, continue, ◌>>=◌, ◌>>◌, lift, pure}
use mathlib.Core.List.{append_assoc}

-- On a record that has `bytes` at the offset, whatever comes behind them, the reader returns `a`
-- and goes past `bytes`.
pub record Reads {ℓ} {A : Type ℓ} (m : Reader A) (bytes : List ℕ) (a : A) : Type ℓ where
  pub reads :
      (s : Slice) (n : ℕ) (tail : List ℕ)
      → drop n s.visible ≡ bytes ++ tail
      → n + length (bytes ++ tail) ≡ length s.visible
      → m s n ≡ ok (a, n + length bytes)

module _ {ℓ κ} {A : Type ℓ} {B : Type κ} where
  pub Reads-bind :
      {m : Reader A} (f : A → Reader B) {front back : List ℕ} {a : A} {b : B}
      → Reads m front a
      → Reads (f a) back b
      → Reads (m >>= f) (front ++ back) b
  Reads-bind {m} f {front} {back} {a} {b} r q = record {
    reads = λ s n tail at fits.
        let here : drop n s.visible ≡ front ++ (back ++ tail) = at ∙ append_assoc front back tail in
        let sizes : length ((front ++ back) ++ tail) ≡ length front + length (back ++ tail) =
          omega (
            arith,
            length-append {0} (front ++ back) tail,
            length-append {0} front back,
            length-append {0} back tail,
          ) in
        let first =
          r.reads s n (back ++ tail) here (omega (arith, length-append {0} front (back ++ tail))) in
        let next : drop (n + length front) s.visible ≡ back ++ tail =
          drop-drop (length front) n s.visible
          ∙ ap (drop (length front)) here
          ∙ drop-append front (back ++ tail) in
        let second = q.reads s (n + length front) tail next (omega arith) in
        let total : n + length front + length back ≡ n + length (front ++ back) =
          omega (arith, length-append {0} front back) in
        ap (λ r. continue r (λ x k. f x s k)) first ∙ second ∙ ap (λ (k : ℕ). ok (b, k)) total;
  }

module _ {ℓ} {A : Type ℓ} where
  pub Reads-lift : {r : Result A} {a : A} → r ≡ ok a → Reads (lift r) [] a
  Reads-lift {r} {a} e = record {
    reads = λ s n tail at fits. rw e (ap (λ (k : ℕ). ok (a, k)) {x = n} {y = n + 0} (omega arith));
  }

  pub Reads-pure : (a : A) → Reads (pure a) [] a
  Reads-pure a = record {
    reads = λ s n tail at fits. ap (λ (k : ℕ). ok (a, k)) {x = n} {y = n + 0} (omega arith);
  }

-- A reader that ends in a check of the record that it built.
pub Reads-check {ℓ} :
    {A : Type ℓ} {check : Result (Unit {0})} (a : A)
    → check ≡ ok tt
    → Reads (lift check >> pure a) [] a
Reads-check a e = Reads-bind (λ _. pure a) (Reads-lift e) (Reads-pure a)
