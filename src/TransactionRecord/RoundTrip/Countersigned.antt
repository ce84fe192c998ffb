-- ===== src/TransactionRecord/RoundTrip/Countersigned.antt =====
-- BitmarkTransferCountersigned: what Unpack reads of what Pack wrote.
use bitmarkd.Common.{ℕ, ◌≡◌, sym, ap, ◌∙◌, arith, List, [], ◌++◌, Bool, Option, some, length}
use bitmarkd.Account.{Account, account_bytes, is_testing}
use bitmarkd.Crypto.{Crypto}
use bitmarkd.Go.{ok, Ref, Pointer, deref, >>=-eq-ok, >>-eq-ok, deref-eq-ok, ok-injective}
use bitmarkd.TransactionRecord.Types.{
  BitmarkTransferCountersigned, Payment, bitmark_transfer_countersigned_tag,
}
use bitmarkd.TransactionRecord.Check.{countersigned_check}
use bitmarkd.TransactionRecord.Append.{
  packed, valid_address, append_bytes, append_string, append_account, append_uint64, append_escrow,
  create_packed,
}
use bitmarkd.TransactionRecord.Pack.Double.{countersigned_message, countersigned_pack}
use bitmarkd.TransactionRecord.Inversion.{prepare-packed, sign_twice-packed}
use bitmarkd.TransactionRecord.Reads.{Reads-bind, Reads-check}
use bitmarkd.TransactionRecord.Fields.{field, Reads-bytes, Reads-digest, Reads-account}
use bitmarkd.TransactionRecord.Optional.{escrow_bytes, EscrowFits, append_escrow-ok}
use bitmarkd.TransactionRecord.RoundTrip.Written.{
  Written, moved, AccountFits, AccountFits-some, moved-some,
}
use bitmarkd.TransactionRecord.Unpack.Double.{countersigned_unpack}
use bitmarkd.Util.Varint.{to_varint64}
use mathlib.Core.List.{append_assoc, append-nil}
use mathlib.Core.Path.{subst}

pub record CountersignedFits (testnet : Bool) (r : BitmarkTransferCountersigned) : Type 0 where
  pub link_fits : length r.link ≡ 32
  pub escrow_fits : EscrowFits r.escrow
  pub owner_fits : AccountFits testnet r.owner

countersigned_check-moved :
    (r : BitmarkTransferCountersigned) (location : ℕ) (o : Ref Account)
    → r.owner ≡ some o
    → countersigned_check r ≡ ok tt
    → countersigned_check
        (record r { owner = some (record { location = location; target = o.target }) })
      ≡ ok tt
unfolding countersigned_check
countersigned_check-moved r location o e h = ground arith

countersigned_layout :
    (link signature countersignature : List ℕ) (escrow : Option Payment) (o : Account)
    → append_bytes
        (append_bytes
          (append_account
            (append_bytes (create_packed bitmark_transfer_countersigned_tag) link
              ++ escrow_bytes escrow)
            o)
          signature)
        countersignature
      ≡ to_varint64 bitmark_transfer_countersigned_tag
        ++ (field link
            ++ (escrow_bytes escrow
                ++ (field (account_bytes o)
                    ++ (field signature ++ (field countersignature ++ [])))))
unfolding append_bytes append_string append_account append_uint64 create_packed
countersigned_layout link signature countersignature escrow o = simp (append_assoc, append-nil)

-- What Pack wrote is the tag and the fields that Unpack reads.
pub countersigned-Written :
    (c : Crypto) (heap : ℕ) (testnet : Bool) (r : BitmarkTransferCountersigned)
    (address : Pointer Account) {bytes : List ℕ}
    → CountersignedFits testnet r
    → countersigned_pack c r address ≡ packed bytes
    → Written
        (countersigned_unpack heap testnet)
        bitmark_transfer_countersigned_tag
        bytes
        (record r { owner = moved heap r.owner })
unfolding countersigned_pack countersigned_unpack
countersigned-Written c heap testnet r address {bytes} f h =
    let (am, em, sg) = prepare-packed (countersigned_message c r address) _ h in
    let (ls, lc, eb) = sign_twice-packed c am.0 am.1 am.2 r.signature r.countersignature sg in
    let (a, ea, h1) = >>=-eq-ok (valid_address address) _ em in
    let (ck, h2) = >>-eq-ok (countersigned_check r) _ h1 in
    let (em2, ee, h3) =
      >>=-eq-ok
        (append_escrow c (append_bytes (create_packed bitmark_transfer_countersigned_tag) r.link)
          r.escrow (is_testing a))
        _ h2 in
    let (me, re) =
      append_escrow-ok c (append_bytes (create_packed bitmark_transfer_countersigned_tag) r.link)
        r.escrow (is_testing a) ee f.escrow_fits in
    let (o_owner, eo_owner, h4) = >>=-eq-ok (deref r.owner) _ h3 in
    let (ref_owner, er_owner, et_owner) = deref-eq-ok (r.owner) eo_owner in
    let (key_owner, net_owner) = AccountFits-some er_owner f.owner_fits in
    let message = ap (λ p. p.2) (ok-injective h4) in
    subst
      (λ p.
        Written (countersigned_unpack heap testnet) bitmark_transfer_countersigned_tag bytes
          (record r { owner = p }))
      (moved-some er_owner)
      (record {
        fields = _;
        split =
            sym
              (countersigned_layout r.link r.signature r.countersignature r.escrow ref_owner.target)
            ∙ ap
                (λ (x : List ℕ).
                  append_bytes (append_bytes (append_account x ref_owner.target) r.signature)
                    r.countersignature)
                me
            ∙ ap
                (λ (x : Account).
                  append_bytes (append_bytes (append_account em2 x) r.signature) r.countersignature)
                et_owner
            ∙ ap (λ (m : List ℕ). append_bytes (append_bytes m r.signature) r.countersignature)
                message
            ∙ eb;
        reads_fields = Reads-bind _ (Reads-digest r.link f.link_fits) (
            Reads-bind _ (re) (
              Reads-bind _ (Reads-account ref_owner.target heap testnet key_owner net_owner) (
                Reads-bind _ (Reads-bytes r.signature (omega arith) (omega arith)) (
                  Reads-bind _ (Reads-bytes r.countersignature (omega arith) (omega arith))
                    (Reads-check _ (countersigned_check-moved r heap ref_owner er_owner ck))))));
      })
