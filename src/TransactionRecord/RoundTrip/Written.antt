-- ===== src/TransactionRecord/RoundTrip/Written.antt =====
-- What a packed record consists of, and what its pointers become when it is read back.
use bitmarkd.Common.{ℕ, ◌≡◌, sym, ap, ◌∙◌, Bool, List, ◌++◌, none, some}
use bitmarkd.Account.{Account, IsKey, is_testing}
use bitmarkd.Go.{Pointer, Ref, ok}
use bitmarkd.TransactionRecord.Reader.{Reader}
use bitmarkd.TransactionRecord.Reads.{Reads}
use bitmarkd.TransactionRecord.Append.{valid_address}
use bitmarkd.TransactionRecord.Inversion.{valid_address-ok}
use bitmarkd.Util.Varint.{to_varint64}
use mathlib.Core.Path.{subst}

-- `bytes` are the tag and then what the reader `m` takes for `a`.
pub record Written {ℓ} {A : Type ℓ} (m : Reader A) (tag : ℕ) (bytes : List ℕ) (a : A) : Type ℓ where
  pub fields : List ℕ
  pub split : to_varint64 tag ++ fields ≡ bytes
  pub reads_fields : Reads m fields a

-- The account of a pointer, at another place.
abbrev pub moved : ℕ → Pointer Account → Pointer Account
moved location none = none
moved location (some r) = some (record { location = location; target = r.target })

-- An account of the network whose key has its algorithm's length.
abbrev pub AccountFits : Bool → Pointer Account → Type 0
AccountFits testnet none = Unit {0}
AccountFits testnet (some r) = IsKey r.target × (is_testing r.target ≡ testnet)

pub AccountFits-some :
    {testnet : Bool} {p : Pointer Account} {r : Ref Account}
    → p ≡ some r
    → AccountFits testnet p
    → IsKey r.target × (is_testing r.target ≡ testnet)
AccountFits-some {testnet} e h = subst (AccountFits testnet) e h

pub moved-some :
    {location : ℕ} {p : Pointer Account} {r : Ref Account}
    → p ≡ some r
    → some (record { location = location; target = r.target }) ≡ moved location p
moved-some {location} e = sym (ap (moved location) e)

-- The account that signs is one of the network.
abbrev pub AccountNetwork : Bool → Pointer Account → Type 0
AccountNetwork testnet none = Unit {0}
AccountNetwork testnet (some r) = is_testing r.target ≡ testnet

pub AccountNetwork-valid :
    {testnet : Bool} (address : Pointer Account) (a : Account)
    → valid_address address ≡ ok a
    → AccountNetwork testnet address
    → is_testing a ≡ testnet
AccountNetwork-valid address a ea on =
    let (r, e, et) = valid_address-ok address ea in
    sym (ap is_testing et) ∙ subst (AccountNetwork _) e on
