-- ===== src/Go.antt =====
-- What a call of the source may do: return, return an error, or panic; and the byte slices.
pub mod Utf8
pub mod Slices
pub mod Ends
pub mod Binary
use bitmarkd.Common.{ℕ, ◌+◌, Bool, true, false, List, ◌++◌, leb, if◌then◌else◌}
use bitmarkd.Common.{length, take, drop, Option, none, some, get_elem?, ◌==◌, ◌≡◌, refl}
use bitmarkd.Fault.{Fault}

-- A Go call with an error result. `panicked` is a run-time panic: it is no value, and unwinds to
-- the next `recover`.
pub data Result {ℓ} (A : Type ℓ) : Type ℓ where
  ok : A → Result A
  err : Fault → Result A
  panicked : Result A
  -- No outcome of Go: the fuel of a loop of the model ran out.
  exhausted : Result A

infixl 5 ◌>>=◌
infixl 5 ◌>>◌
abbrev pub ◌>>=◌ {ℓ κ} : {A : Type ℓ} {B : Type κ} → Result A → (A → Result B) → Result B
panicked >>= next = panicked
exhausted >>= next = exhausted
err fault >>= next = err fault
ok value >>= next = next value

abbrev pub ◌>>◌ {ℓ} : {B : Type ℓ} → Result (Unit {0}) → Result B → Result B
call >> next = call >>= λ done. next

-- `if test { return err }`, continuing otherwise.
abbrev pub refuse : Bool → Fault → Result (Unit {0})
refuse true e = err e
refuse false e = ok tt

-- A slice shows `visible` and may be re-sliced up to its capacity, over `spare`.
pub record Slice : Type 0 where
  pub visible : List ℕ
  pub spare : List ℕ

-- `s[n:]`
unfoldable pub slice_from : Slice → ℕ → Result (List ℕ)
slice_from s n = if leb n (length s.visible) then ok (drop n s.visible) else panicked

-- `s[n : n+k]`: the upper bound is held to the capacity, not to the length, and the result can be
-- extended up to the same capacity.
unfoldable pub slice_range : Slice → ℕ → ℕ → Result Slice
slice_range s n k =
    let array = s.visible ++ s.spare in
    if leb (n + k) (length array)
    then ok (record { visible = take k (drop n array); spare = drop k (drop n array) })
    else panicked

-- `s[n]`
unfoldable pub slice_index : Slice → ℕ → Result ℕ
slice_index s n = elim (get_elem? s.visible n) [ none ↦ panicked | some b ↦ ok b ]

-- A pointer: the object that it points to, and where that object lives. Pointers are compared by
-- `location`, as `==` of the source does.
pub record Ref {ℓ} (A : Type ℓ) : Type ℓ where
  pub location : ℕ
  pub target : A

abbrev pub Pointer {ℓ} : Type ℓ → Type ℓ
Pointer A = Option (Ref A)

-- Reading through a nil pointer panics.
abbrev pub deref {ℓ} : {A : Type ℓ} → Pointer A → Result A
deref none = panicked
deref (some r) = ok r.target

-- `p == q` on pointers.
abbrev pub same_pointer {ℓ} : {A : Type ℓ} → Pointer A → Pointer A → Bool
same_pointer none none = true
same_pointer none (some q) = false
same_pointer (some p) none = false
same_pointer (some p) (some q) = p.location == q.location

-- A chain that ends well has steps that end well.
pub >>=-eq-ok {ℓ κ} :
    {A : Type ℓ} {B : Type κ} (call : Result A) (next : A → Result B) {last : B}
    → (call >>= next) ≡ ok last
    → (value : A) × (call ≡ ok value) × (next value ≡ ok last)
>>=-eq-ok panicked next h = cc
>>=-eq-ok exhausted next h = cc
>>=-eq-ok (err fault) next h = cc
>>=-eq-ok (ok value) next h = (value, refl, h)

pub >>-eq-ok {ℓ} :
    {B : Type ℓ} (call : Result (Unit {0})) (next : Result B) {last : B}
    → (call >> next) ≡ ok last
    → (call ≡ ok tt) × (next ≡ ok last)
>>-eq-ok panicked next h = cc
>>-eq-ok exhausted next h = cc
>>-eq-ok (err fault) next h = cc
>>-eq-ok (ok tt) next h = (refl, h)

pub refuse-eq-ok : (test : Bool) (e : Fault) → refuse test e ≡ ok tt → test ≡ false
refuse-eq-ok true e h = cc
refuse-eq-ok false e h = refl

pub deref-eq-ok {ℓ} :
    {A : Type ℓ} (p : Pointer A) {a : A}
    → deref p ≡ ok a
    → (r : Ref A) × (p ≡ some r) × (r.target ≡ a)
deref-eq-ok none h = cc
deref-eq-ok (some r) h = (r, refl, cc)

pub ok-injective {ℓ} : {A : Type ℓ} {a b : A} → ok a ≡ ok b → a ≡ b
ok-injective h = cc
