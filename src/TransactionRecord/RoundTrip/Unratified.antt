-- ===== src/TransactionRecord/RoundTrip/Unratified.antt =====
-- BitmarkTransferUnratified: what Unpack reads of what Pack wrote.
use bitmarkd.Common.{ℕ, ◌≡◌, sym, ap, ◌∙◌, arith, List, [], ◌++◌, Bool, Option, some, length}
use bitmarkd.Account.{Account, account_bytes, is_testing}
use bitmarkd.Crypto.{Crypto}
use bitmarkd.Go.{ok, Ref, Pointer, deref, >>=-eq-ok, >>-eq-ok, deref-eq-ok, ok-injective}
use bitmarkd.TransactionRecord.Types.{
  BitmarkTransferUnratified, Payment, bitmark_transfer_unratified_tag,
}
use bitmarkd.TransactionRecord.Check.{unratified_check}
use bitmarkd.TransactionRecord.Append.{
  packed, valid_address, append_bytes, append_string, append_account, append_uint64, append_escrow,
  create_packed,
}
use bitmarkd.TransactionRecord.Pack.Single.{unratified_message, unratified_pack}
use bitmarkd.TransactionRecord.Inversion.{prepare-packed, sign-packed}
use bitmarkd.TransactionRecord.Reads.{Reads-bind, Reads-check}
use bitmarkd.TransactionRecord.Fields.{field, Reads-bytes, Reads-digest, Reads-account}
use bitmarkd.TransactionRecord.Optional.{escrow_bytes, EscrowFits, append_escrow-ok}
use bitmarkd.TransactionRecord.RoundTrip.Written.{
  Written, moved, AccountFits, AccountFits-some, moved-some,
}
use bitmarkd.TransactionRecord.Unpack.Single.{unratified_unpack}
use bitmarkd.Util.Varint.{to_varint64}
use mathlib.Core.List.{append_assoc, append-nil}
use mathlib.Core.Path.{subst}

pub record UnratifiedFits (testnet : Bool) (r : BitmarkTransferUnratified) : Type 0 where
  pub link_fits : length r.link ≡ 32
  pub escrow_fits : EscrowFits r.escrow
  pub owner_fits : AccountFits testnet r.owner

unratified_check-moved :
    (r : BitmarkTransferUnratified) (location : ℕ) (o : Ref Account)
    → r.owner ≡ some o
    → unratified_check r ≡ ok tt
    → unratified_check
        (record r { owner = some (record { location = location; target = o.target }) })
      ≡ ok tt
unfolding unratified_check
unratified_check-moved r location o e h = ground arith

unratified_layout :
    (link signature : List ℕ) (escrow : Option Payment) (o : Account)
    → append_bytes
        (append_account
          (append_bytes (create_packed bitmark_transfer_unratified_tag) link ++ escrow_bytes escrow)
          o)
        signature
      ≡ to_varint64 bitmark_transfer_unratified_tag
        ++ (field link
            ++ (escrow_bytes escrow ++ (field (account_bytes o) ++ (field signature ++ []))))
unfolding append_bytes append_string append_account append_uint64 create_packed
unratified_layout link signature escrow o = simp (append_assoc, append-nil)

-- What Pack wrote is the tag and the fields that Unpack reads.
pub unratified-Written :
    (c : Crypto) (heap : ℕ) (testnet : Bool) (r : BitmarkTransferUnratified)
    (address : Pointer Account) {bytes : List ℕ}
    → UnratifiedFits testnet r
    → unratified_pack c r address ≡ packed bytes
    → Written
        (unratified_unpack heap testnet)
        bitmark_transfer_unratified_tag
        bytes
        (record r { owner = moved heap r.owner })
unfolding unratified_pack unratified_unpack
unratified-Written c heap testnet r address {bytes} f h =
    let (am, em, sg) = prepare-packed (unratified_message c r address) _ h in
    let (ls, eb) = sign-packed c am.0 am.1 r.signature sg in
    let (a, ea, h1) = >>=-eq-ok (valid_address address) _ em in
    let (ck, h2) = >>-eq-ok (unratified_check r) _ h1 in
    let (em2, ee, h3) =
      >>=-eq-ok
        (append_escrow c (append_bytes (create_packed bitmark_transfer_unratified_tag) r.link)
          r.escrow (is_testing a))
        _ h2 in
    let (me, re) =
      append_escrow-ok c (append_bytes (create_packed bitmark_transfer_unratified_tag) r.link)
        r.escrow (is_testing a) ee f.escrow_fits in
    let (o_owner, eo_owner, h4) = >>=-eq-ok (deref r.owner) _ h3 in
    let (ref_owner, er_owner, et_owner) = deref-eq-ok (r.owner) eo_owner in
    let (key_owner, net_owner) = AccountFits-some er_owner f.owner_fits in
    let message = ap (λ p. p.1) (ok-injective h4) in
    subst
      (λ p.
        Written (unratified_unpack heap testnet) bitmark_transfer_unratified_tag bytes
          (record r { owner = p }))
      (moved-some er_owner)
      (record {
        fields = _;
        split =
            sym (unratified_layout r.link r.signature r.escrow ref_owner.target)
            ∙ ap (λ (x : List ℕ). append_bytes (append_account x ref_owner.target) r.signature) me
            ∙ ap (λ (x : Account). append_bytes (append_account em2 x) r.signature) et_owner
            ∙ ap (λ (m : List ℕ). append_bytes m r.signature) message
            ∙ eb;
        reads_fields = Reads-bind _ (Reads-digest r.link f.link_fits) (
            Reads-bind _ (re) (
              Reads-bind _ (Reads-account ref_owner.target heap testnet key_owner net_owner) (
                Reads-bind _ (Reads-bytes r.signature (omega arith) (omega arith))
                  (Reads-check _ (unratified_check-moved r heap ref_owner er_owner ck)))));
      })
