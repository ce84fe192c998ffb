-- ===== src/TransactionRecord/Inversion.antt =====
-- What it takes for Pack to return a packed record.
use bitmarkd.Common.{ℕ, ◌≡◌, refl, arith, List, length, none, some}
use bitmarkd.Account.{Account, check_signature, ed25519_account, nothing_account}
use bitmarkd.Crypto.{Crypto}
use bitmarkd.Go.{Result, ok, err, panicked, exhausted, Pointer, Ref}
use bitmarkd.TransactionRecord.Append.{
  Packing, packed, prepare, signed, append_bytes, valid_address,
}
use bitmarkd.TransactionRecord.Pack.Single.{sign}
use bitmarkd.TransactionRecord.Pack.Double.{sign_twice}

pub packed-injective : {a b : List ℕ} → packed a ≡ packed b → a ≡ b
packed-injective e = cc

pub prepare-packed {ℓ} :
    {A : Type ℓ} (r : Result A) (k : A → Packing) {bytes : List ℕ}
    → prepare r k ≡ packed bytes
    → (a : A) × (r ≡ ok a) × (k a ≡ packed bytes)
prepare-packed (ok a) k h = (a, refl, h)
prepare-packed (err e) k h = cc
prepare-packed panicked k h = cc
prepare-packed exhausted k h = cc

pub signed-packed :
    (message : List ℕ) (r : Result (Unit {0})) (k : Packing) {bytes : List ℕ}
    → signed message r k ≡ packed bytes
    → (r ≡ ok tt) × (k ≡ packed bytes)
signed-packed message (ok tt) k h = (refl, h)
signed-packed message (err e) k h = cc
signed-packed message panicked k h = cc
signed-packed message exhausted k h = cc

length-signature :
    (c : Crypto) (a : Account) (message signature : List ℕ)
    → check_signature c a message signature ≡ ok tt
    → length signature ≡ 64
unfolding check_signature
length-signature c (ed25519_account test key) message signature h = ground arith
length-signature c (nothing_account test key) message signature h = cc

pub sign-packed :
    (c : Crypto) (a : Account) (message signature : List ℕ) {bytes : List ℕ}
    → sign c signature (a, message) ≡ packed bytes
    → (length signature ≡ 64) × (append_bytes message signature ≡ bytes)
unfolding sign
sign-packed c a message signature h =
    let (s, e) = signed-packed message _ _ h in
    (length-signature c a message signature s, packed-injective e)

pub sign_twice-packed :
    (c : Crypto) (one two : Account) (message signature countersignature : List ℕ) {bytes : List ℕ}
    → sign_twice c signature countersignature (one, two, message) ≡ packed bytes
    → (length signature ≡ 64)
      × (length countersignature ≡ 64)
      × (append_bytes (append_bytes message signature) countersignature ≡ bytes)
unfolding sign_twice
sign_twice-packed c one two message signature countersignature h =
    let (s, e) = signed-packed message _ _ h in
    let (s', e') = signed-packed _ _ _ e in
    (
      length-signature c one message signature s,
      length-signature c two _ countersignature s',
      packed-injective e',
    )

pub valid_address-ok :
    (address : Pointer Account) {a : Account}
    → valid_address address ≡ ok a
    → (r : Ref Account) × (address ≡ some r) × (r.target ≡ a)
valid_address-ok none h = cc
valid_address-ok (some r) h = (r, refl, ground arith)
