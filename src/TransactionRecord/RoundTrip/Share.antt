-- ===== src/TransactionRecord/RoundTrip/Share.antt =====
-- BitmarkShare: what Unpack reads of what Pack wrote.
use bitmarkd.Common.{ℕ, ◌<◌, ◌^◌, ◌≡◌, sym, ap, ◌∙◌, arith, List, [], ◌++◌, Bool, length}
use bitmarkd.Account.{Account}
use bitmarkd.Crypto.{Crypto}
use bitmarkd.Go.{Pointer, >>=-eq-ok, >>-eq-ok, ok-injective}
use bitmarkd.TransactionRecord.Types.{BitmarkShare, bitmark_share_tag}
use bitmarkd.TransactionRecord.Check.{share_check}
use bitmarkd.TransactionRecord.Append.{
  packed, valid_address, append_bytes, append_string, append_account, append_uint64, create_packed,
}
use bitmarkd.TransactionRecord.Pack.Single.{share_message, share_pack}
use bitmarkd.TransactionRecord.Inversion.{prepare-packed, sign-packed}
use bitmarkd.TransactionRecord.Reads.{Reads-bind, Reads-check}
use bitmarkd.TransactionRecord.Fields.{field, Reads-uint64, Reads-bytes, Reads-digest}
use bitmarkd.TransactionRecord.RoundTrip.Written.{Written}
use bitmarkd.TransactionRecord.Unpack.Single.{share_unpack}
use bitmarkd.Util.Varint.{to_varint64}
use mathlib.Core.List.{append_assoc, append-nil}

pub record ShareFits (testnet : Bool) (r : BitmarkShare) : Type 0 where
  pub link_fits : length r.link ≡ 32
  pub quantity_fits : r.quantity < 2 ^ 64

share_layout :
    (link signature : List ℕ) (quantity : ℕ)
    → append_bytes
        (append_uint64 (append_bytes (create_packed bitmark_share_tag) link) quantity)
        signature
      ≡ to_varint64 bitmark_share_tag
        ++ (field link ++ (to_varint64 quantity ++ (field signature ++ [])))
unfolding append_bytes append_string append_account append_uint64 create_packed
share_layout link signature quantity = simp (append_assoc, append-nil)

-- What Pack wrote is the tag and the fields that Unpack reads.
pub share-Written :
    (c : Crypto) (heap : ℕ) (testnet : Bool) (r : BitmarkShare) (address : Pointer Account)
    {bytes : List ℕ}
    → ShareFits testnet r
    → share_pack c r address ≡ packed bytes
    → Written (share_unpack) bitmark_share_tag bytes (r)
unfolding share_pack share_unpack
share-Written c heap testnet r address {bytes} f h =
    let (am, em, sg) = prepare-packed (share_message r address) _ h in
    let (ls, eb) = sign-packed c am.0 am.1 r.signature sg in
    let (a, ea, h1) = >>=-eq-ok (valid_address address) _ em in
    let (ck, h2) = >>-eq-ok (share_check r) _ h1 in
    let message = ap (λ p. p.1) (ok-injective h2) in
    record {
      fields = _;
      split =
          sym (share_layout r.link r.signature r.quantity)
          ∙ ap (λ (m : List ℕ). append_bytes m r.signature) message
          ∙ eb;
      reads_fields = Reads-bind _ (Reads-digest r.link f.link_fits) (
          Reads-bind _ (Reads-uint64 r.quantity f.quantity_fits) (
            Reads-bind _ (Reads-bytes r.signature (omega arith) (omega arith))
              (Reads-check _ (ck))));
    }
