-- ===== src/TransactionRecord/RoundTrip/OwnerTransfer.antt =====
-- BlockOwnerTransfer: what Unpack reads of what Pack wrote.
use bitmarkd.Common.{ℕ, ◌≡◌, sym, ap, ◌∙◌, arith, List, [], ◌++◌, Bool, Option, some, length}
use bitmarkd.Account.{Account, account_bytes, is_testing}
use bitmarkd.Crypto.{Crypto}
use bitmarkd.Currency
use bitmarkd.Currency.Map
use bitmarkd.Currency.Map.{lookup}
use bitmarkd.Currency.Payments.{both, pack-both}
use bitmarkd.Go.{ok, Ref, Pointer, deref, >>=-eq-ok, >>-eq-ok, deref-eq-ok, ok-injective, refuse}
use bitmarkd.Fault.{invalid_owner_or_registrant}
use bitmarkd.TransactionRecord.Types.{BlockOwnerTransfer, Payment, block_owner_transfer_tag}
use bitmarkd.TransactionRecord.Check.{
  owner_transfer_check, check_payments, nil_or_zero, signature_fits,
}
use bitmarkd.TransactionRecord.Append.{
  packed, valid_address, append_bytes, append_string, append_account, append_uint64, append_escrow,
  create_packed,
}
use bitmarkd.TransactionRecord.Pack.Double.{owner_transfer_message, owner_transfer_pack}
use bitmarkd.TransactionRecord.Inversion.{prepare-packed, sign_twice-packed}
use bitmarkd.TransactionRecord.Reads.{Reads-bind, Reads-check}
use bitmarkd.TransactionRecord.Fields.{field, Reads-bytes, Reads-digest, Reads-account}
use bitmarkd.TransactionRecord.Optional.{escrow_bytes, EscrowFits, append_escrow-ok}
use bitmarkd.TransactionRecord.Payments.{
  Reads-payments, Reads-version, check_payments_two, check_payments-both,
}
use bitmarkd.TransactionRecord.RoundTrip.Written.{
  Written, moved, AccountFits, AccountFits-some, moved-some, AccountNetwork, AccountNetwork-valid,
}
use bitmarkd.TransactionRecord.Unpack.Double.{owner_transfer_unpack}
use bitmarkd.Util.Varint.{to_varint64}
use mathlib.Core.List.{append_assoc, append-nil}
use mathlib.Core.Path.{subst}

pub record OwnerTransferFits (testnet : Bool) (r : BlockOwnerTransfer) : Type 0 where
  pub link_fits : length r.link ≡ 32
  pub escrow_fits : EscrowFits r.escrow
  pub owner_fits : AccountFits testnet r.owner

owner_transfer_check_payments :
    (c : Crypto) (r : BlockOwnerTransfer) (testnet : Bool)
    → owner_transfer_check c r testnet ≡ ok tt
    → check_payments c r.version testnet r.payments ≡ ok tt
unfolding owner_transfer_check
owner_transfer_check_payments c r testnet h =
    (>>-eq-ok (refuse (nil_or_zero r.owner) invalid_owner_or_registrant) _
      (>>-eq-ok (signature_fits r.countersignature) _
        (>>-eq-ok (signature_fits r.signature) _ h).1).1).1

owner_transfer_check-moved :
    (c : Crypto) (r : BlockOwnerTransfer) (testnet : Bool) (m : Map.Map) (location : ℕ)
    (o : Ref Account)
    → r.owner ≡ some o
    → owner_transfer_check c r testnet ≡ ok tt
    → check_payments c 1 testnet m ≡ ok tt
    → owner_transfer_check c
        (record r {
          version = 1;
          payments = m;
          owner = some (record { location = location; target = o.target });
        })
        testnet
      ≡ ok tt
unfolding owner_transfer_check
owner_transfer_check-moved c r testnet m location o e h k = ground arith

owner_transfer_layout :
    (version : ℕ) (link payments signature countersignature : List ℕ) (escrow : Option Payment)
    (o : Account)
    → append_bytes
        (append_bytes
          (append_account
            (append_bytes
              (append_uint64
                (append_bytes (create_packed block_owner_transfer_tag) link ++ escrow_bytes escrow)
                version)
              payments)
            o)
          signature)
        countersignature
      ≡ to_varint64 block_owner_transfer_tag
        ++ (field link
            ++ (escrow_bytes escrow
                ++ (to_varint64 version
                    ++ (field payments
                        ++ (field (account_bytes o)
                            ++ (field signature ++ (field countersignature ++ [])))))))
unfolding append_bytes append_string append_account append_uint64 create_packed
owner_transfer_layout version link payments signature countersignature escrow o =
    simp (append_assoc, append-nil)

-- What Pack wrote is the tag and the fields that Unpack reads.
pub owner_transfer-Written :
    (c : Crypto) (heap : ℕ) (testnet : Bool) (r : BlockOwnerTransfer) (address : Pointer Account)
    {bytes : List ℕ}
    → OwnerTransferFits testnet r
    → AccountNetwork testnet address
    → owner_transfer_pack c r address ≡ packed bytes
    → Written (owner_transfer_unpack c heap testnet) block_owner_transfer_tag bytes (record r {
      payments = both (lookup Currency.bitcoin r.payments) (lookup Currency.litecoin r.payments);
      owner = moved heap r.owner;
    })
unfolding owner_transfer_pack owner_transfer_unpack
owner_transfer-Written c heap testnet r address {bytes} f on h =
    let (am, em, sg) = prepare-packed (owner_transfer_message c r address) _ h in
    let (ls, lc, eb) = sign_twice-packed c am.0 am.1 am.2 r.signature r.countersignature sg in
    let (a, ea, h1) = >>=-eq-ok (valid_address address) _ em in
    let (ck0, h2) = >>-eq-ok (owner_transfer_check c r (is_testing a)) _ h1 in
    let (pp, pk0, h3) = >>=-eq-ok (Map.pack c r.payments (is_testing a)) _ h2 in
    let na = AccountNetwork-valid address a ea on in
    let ck = subst (λ b. owner_transfer_check c r b ≡ ok tt) na ck0 in
    let cp = owner_transfer_check_payments c r testnet ck in
    let (one, two) = check_payments_two c r.version testnet r.payments cp in
    let pk = subst (λ b. Map.pack c r.payments b ≡ ok pp) na pk0 in
    let (long1, long2, v1, v2, ep) = pack-both c r.payments testnet two pk in
    let cb =
      check_payments-both c testnet (lookup Currency.bitcoin r.payments)
        (lookup Currency.litecoin r.payments) v1 v2 in
    let (em2, ee, h4) =
      >>=-eq-ok
        (append_escrow c (append_bytes (create_packed block_owner_transfer_tag) r.link) r.escrow
          (is_testing a))
        _ h3 in
    let (me, re) =
      append_escrow-ok c (append_bytes (create_packed block_owner_transfer_tag) r.link) r.escrow
        (is_testing a) ee f.escrow_fits in
    let (o_owner, eo_owner, h5) = >>=-eq-ok (deref r.owner) _ h4 in
    let (ref_owner, er_owner, et_owner) = deref-eq-ok (r.owner) eo_owner in
    let (key_owner, net_owner) = AccountFits-some er_owner f.owner_fits in
    let message = ap (λ p. p.2) (ok-injective h5) in
    subst
      (λ p.
        Written (owner_transfer_unpack c heap testnet) block_owner_transfer_tag bytes (record r {
          payments =
              both (lookup Currency.bitcoin r.payments) (lookup Currency.litecoin r.payments);
          owner = p;
        }))
      (moved-some er_owner)
      (subst
        (λ p.
          Written (owner_transfer_unpack c heap testnet) block_owner_transfer_tag bytes (record r {
            version = p;
            payments =
                both (lookup Currency.bitcoin r.payments) (lookup Currency.litecoin r.payments);
            owner = some (record { location = heap; target = ref_owner.target });
          }))
        (sym one)
        (record {
          fields = _;
          split =
              sym (
                owner_transfer_layout 1 r.link pp r.signature r.countersignature r.escrow
                  ref_owner.target)
              ∙ ap
                  (λ (x : List ℕ).
                    append_bytes
                      (append_bytes
                        (append_account (append_bytes (append_uint64 x 1) pp) ref_owner.target)
                        r.signature)
                      r.countersignature)
                  me
              ∙ ap
                  (λ (x : ℕ).
                    append_bytes
                      (append_bytes
                        (append_account (append_bytes (append_uint64 em2 x) pp) ref_owner.target)
                        r.signature)
                      r.countersignature)
                  (sym one)
              ∙ ap
                  (λ (x : Account).
                    append_bytes
                      (append_bytes
                        (append_account (append_bytes (append_uint64 em2 r.version) pp) x)
                        r.signature)
                      r.countersignature)
                  et_owner
              ∙ ap (λ (m : List ℕ). append_bytes (append_bytes m r.signature) r.countersignature)
                  message
              ∙ eb;
          reads_fields = Reads-bind _ (Reads-digest r.link f.link_fits) (
              Reads-bind _ (re) (
                Reads-bind _ (Reads-version) (
                  Reads-bind _ (Reads-payments c testnet r.payments two pk) (
                    Reads-bind _ (Reads-account ref_owner.target heap testnet key_owner net_owner) (
                      Reads-bind _ (Reads-bytes r.signature (omega arith) (omega arith)) (
                        Reads-bind _ (Reads-bytes r.countersignature (omega arith) (omega arith)) (
                          Reads-check _ (
                            owner_transfer_check-moved c r testnet _ heap ref_owner er_owner ck
                              cb))))))));
        }))
