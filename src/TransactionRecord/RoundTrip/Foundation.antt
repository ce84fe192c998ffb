-- ===== src/TransactionRecord/RoundTrip/Foundation.antt =====
-- BlockFoundation: what Unpack reads of what Pack wrote.
use bitmarkd.Common.{ℕ, ◌<◌, ◌^◌, ◌≡◌, sym, ap, ◌∙◌, arith, List, [], ◌++◌, Bool, some}
use bitmarkd.Account.{Account, account_bytes, is_testing}
use bitmarkd.Crypto.{Crypto}
use bitmarkd.Currency
use bitmarkd.Currency.Map
use bitmarkd.Currency.Map.{lookup}
use bitmarkd.Currency.Payments.{both, pack-both}
use bitmarkd.Go.{ok, Ref, Pointer, deref, >>=-eq-ok, >>-eq-ok, deref-eq-ok, ok-injective, refuse}
use bitmarkd.Fault.{invalid_owner_or_registrant}
use bitmarkd.TransactionRecord.Types.{BlockFoundation, block_foundation_tag}
use bitmarkd.TransactionRecord.Check.{foundation_check, check_payments, nil_or_zero, signature_fits}
use bitmarkd.TransactionRecord.Append.{
  packed, valid_address, append_bytes, append_string, append_account, append_uint64, create_packed,
}
use bitmarkd.TransactionRecord.Pack.Single.{foundation_message, foundation_pack}
use bitmarkd.TransactionRecord.Inversion.{prepare-packed, sign-packed}
use bitmarkd.TransactionRecord.Reads.{Reads-bind, Reads-check}
use bitmarkd.TransactionRecord.Fields.{field, Reads-uint64, Reads-bytes, Reads-account}
use bitmarkd.TransactionRecord.Payments.{
  Reads-payments, Reads-version, check_payments_two, check_payments-both,
}
use bitmarkd.TransactionRecord.RoundTrip.Written.{
  Written, moved, AccountFits, AccountFits-some, moved-some, AccountNetwork, AccountNetwork-valid,
}
use bitmarkd.TransactionRecord.Unpack.Single.{foundation_unpack}
use bitmarkd.Util.Varint.{to_varint64}
use mathlib.Core.List.{append_assoc, append-nil}
use mathlib.Core.Path.{subst}

pub record FoundationFits (testnet : Bool) (r : BlockFoundation) : Type 0 where
  pub owner_fits : AccountFits testnet r.owner
  pub nonce_fits : r.nonce < 2 ^ 64

foundation_check_payments :
    (c : Crypto) (r : BlockFoundation) (testnet : Bool)
    → foundation_check c r testnet ≡ ok tt
    → check_payments c r.version testnet r.payments ≡ ok tt
unfolding foundation_check
foundation_check_payments c r testnet h =
    (>>-eq-ok (refuse (nil_or_zero r.owner) invalid_owner_or_registrant) _
      (>>-eq-ok (signature_fits r.signature) _ h).1).1

foundation_check-moved :
    (c : Crypto) (r : BlockFoundation) (testnet : Bool) (m : Map.Map) (location : ℕ)
    (o : Ref Account)
    → r.owner ≡ some o
    → foundation_check c r testnet ≡ ok tt
    → check_payments c 1 testnet m ≡ ok tt
    → foundation_check c
        (record r {
          version = 1;
          payments = m;
          owner = some (record { location = location; target = o.target });
        })
        testnet
      ≡ ok tt
unfolding foundation_check
foundation_check-moved c r testnet m location o e h k = ground arith

foundation_layout :
    (version nonce : ℕ) (payments signature : List ℕ) (o : Account)
    → append_bytes
        (append_uint64
          (append_account
            (append_bytes (append_uint64 (create_packed block_foundation_tag) version) payments)
            o)
          nonce)
        signature
      ≡ to_varint64 block_foundation_tag
        ++ (to_varint64 version
            ++ (field payments
                ++ (field (account_bytes o) ++ (to_varint64 nonce ++ (field signature ++ [])))))
unfolding append_bytes append_string append_account append_uint64 create_packed
foundation_layout version nonce payments signature o = simp (append_assoc, append-nil)

-- What Pack wrote is the tag and the fields that Unpack reads.
pub foundation-Written :
    (c : Crypto) (heap : ℕ) (testnet : Bool) (r : BlockFoundation) (address : Pointer Account)
    {bytes : List ℕ}
    → FoundationFits testnet r
    → AccountNetwork testnet address
    → foundation_pack c r address ≡ packed bytes
    → Written (foundation_unpack c heap testnet) block_foundation_tag bytes (record r {
      payments = both (lookup Currency.bitcoin r.payments) (lookup Currency.litecoin r.payments);
      owner = moved heap r.owner;
    })
unfolding foundation_pack foundation_unpack
foundation-Written c heap testnet r address {bytes} f on h =
    let (am, em, sg) = prepare-packed (foundation_message c r address) _ h in
    let (ls, eb) = sign-packed c am.0 am.1 r.signature sg in
    let (a, ea, h1) = >>=-eq-ok (valid_address address) _ em in
    let (ck0, h2) = >>-eq-ok (foundation_check c r (is_testing a)) _ h1 in
    let (pp, pk0, h3) = >>=-eq-ok (Map.pack c r.payments (is_testing a)) _ h2 in
    let na = AccountNetwork-valid address a ea on in
    let ck = subst (λ b. foundation_check c r b ≡ ok tt) na ck0 in
    let cp = foundation_check_payments c r testnet ck in
    let (one, two) = check_payments_two c r.version testnet r.payments cp in
    let pk = subst (λ b. Map.pack c r.payments b ≡ ok pp) na pk0 in
    let (long1, long2, v1, v2, ep) = pack-both c r.payments testnet two pk in
    let cb =
      check_payments-both c testnet (lookup Currency.bitcoin r.payments)
        (lookup Currency.litecoin r.payments) v1 v2 in
    let (o_owner, eo_owner, h4) = >>=-eq-ok (deref r.owner) _ h3 in
    let (ref_owner, er_owner, et_owner) = deref-eq-ok (r.owner) eo_owner in
    let (key_owner, net_owner) = AccountFits-some er_owner f.owner_fits in
    let message = ap (λ p. p.1) (ok-injective h4) in
    subst
      (λ p. Written (foundation_unpack c heap testnet) block_foundation_tag bytes (record r {
        payments = both (lookup Currency.bitcoin r.payments) (lookup Currency.litecoin r.payments);
        owner = p;
      }))
      (moved-some er_owner)
      (subst
        (λ p. Written (foundation_unpack c heap testnet) block_foundation_tag bytes (record r {
          version = p;
          payments =
              both (lookup Currency.bitcoin r.payments) (lookup Currency.litecoin r.payments);
          owner = some (record { location = heap; target = ref_owner.target });
        }))
        (sym one)
        (record {
          fields = _;
          split =
              sym (foundation_layout 1 r.nonce pp r.signature ref_owner.target)
              ∙ ap
                  (λ (x : ℕ).
                    append_bytes
                      (append_uint64
                        (append_account
                          (append_bytes (append_uint64 (create_packed block_foundation_tag) x) pp)
                          ref_owner.target)
                        r.nonce)
                      r.signature)
                  (sym one)
              ∙ ap
                  (λ (x : Account).
                    append_bytes
                      (append_uint64
                        (append_account
                          (append_bytes
                            (append_uint64 (create_packed block_foundation_tag) r.version) pp)
                          x)
                        r.nonce)
                      r.signature)
                  et_owner
              ∙ ap (λ (m : List ℕ). append_bytes m r.signature) message
              ∙ eb;
          reads_fields = Reads-bind _ (Reads-version) (
              Reads-bind _ (Reads-payments c testnet r.payments two pk) (
                Reads-bind _ (Reads-account ref_owner.target heap testnet key_owner net_owner) (
                  Reads-bind _ (Reads-uint64 r.nonce f.nonce_fits) (
                    Reads-bind _ (Reads-bytes r.signature (omega arith) (omega arith)) (
                      Reads-check _
                        (foundation_check-moved c r testnet _ heap ref_owner er_owner ck cb))))));
        }))
