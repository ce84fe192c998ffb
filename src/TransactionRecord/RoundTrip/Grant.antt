-- ===== src/TransactionRecord/RoundTrip/Grant.antt =====
-- ShareGrant: what Unpack reads of what Pack wrote.
use bitmarkd.Common.{
  ℕ, ◌+◌, ◌<◌, ◌^◌, ◌≡◌, sym, ap, ◌∙◌, arith, List, [], ◌++◌, Bool, some, length, not, ◌||◌,
}
use bitmarkd.Account.{Account, account_bytes}
use bitmarkd.Crypto.{Crypto}
use bitmarkd.Go.{
  ok, Ref, Pointer, deref, >>=-eq-ok, >>-eq-ok, deref-eq-ok, ok-injective, refuse, same_pointer,
}
use bitmarkd.Fault.{invalid_owner_or_registrant}
use bitmarkd.TransactionRecord.Types.{ShareGrant, share_grant_tag}
use bitmarkd.TransactionRecord.Check.{grant_check, nil_or_zero}
use bitmarkd.TransactionRecord.Append.{
  packed, append_bytes, append_string, append_account, append_uint64, create_packed,
}
use bitmarkd.TransactionRecord.Pack.Double.{grant_message, grant_pack}
use bitmarkd.TransactionRecord.Inversion.{prepare-packed, sign_twice-packed}
use bitmarkd.TransactionRecord.Reads.{Reads-bind, Reads-check}
use bitmarkd.TransactionRecord.Fields.{
  field, Reads-uint64, Reads-bytes, Reads-digest, Reads-account,
}
use bitmarkd.TransactionRecord.RoundTrip.Written.{
  Written, moved, AccountFits, AccountFits-some, moved-some,
}
use bitmarkd.TransactionRecord.Unpack.Double.{grant_unpack}
use bitmarkd.Util.Varint.{to_varint64}
use mathlib.Core.List.{append_assoc, append-nil}
use mathlib.Core.Path.{subst}

pub record GrantFits (testnet : Bool) (r : ShareGrant) : Type 0 where
  pub share_id_fits : length r.share_id ≡ 32
  pub quantity_fits : r.quantity < 2 ^ 64
  pub owner_fits : AccountFits testnet r.owner
  pub recipient_fits : AccountFits testnet r.recipient
  pub before_block_fits : r.before_block < 2 ^ 64

grant_check-moved :
    (r : ShareGrant) (heap : ℕ) (o o' : Ref Account)
    → r.owner ≡ some o
    → r.recipient ≡ some o'
    → grant_check r ≡ ok tt
    → grant_check (record r {
      owner = some (record { location = heap; target = o.target });
      recipient = some (record { location = heap + 1; target = o'.target });
    })
      ≡ ok tt
unfolding grant_check
grant_check-moved r heap o o' e e' h = ground arith

grant_layout :
    (share_id signature countersignature : List ℕ) (quantity before_block : ℕ) (o o' : Account)
    → append_bytes
        (append_bytes
          (append_uint64
            (append_account
              (append_account
                (append_uint64 (append_bytes (create_packed share_grant_tag) share_id) quantity)
                o)
              o')
            before_block)
          signature)
        countersignature
      ≡ to_varint64 share_grant_tag
        ++ (field share_id
            ++ (to_varint64 quantity
                ++ (field (account_bytes o)
                    ++ (field (account_bytes o')
                        ++ (to_varint64 before_block
                            ++ (field signature ++ (field countersignature ++ [])))))))
unfolding append_bytes append_string append_account append_uint64 create_packed
grant_layout share_id signature countersignature quantity before_block o o' =
    simp (append_assoc, append-nil)

-- What Pack wrote is the tag and the fields that Unpack reads.
pub grant-Written :
    (c : Crypto) (heap : ℕ) (testnet : Bool) (r : ShareGrant) (address : Pointer Account)
    {bytes : List ℕ}
    → GrantFits testnet r
    → grant_pack c r address ≡ packed bytes
    → Written
        (grant_unpack heap testnet)
        share_grant_tag
        bytes
        (record r { owner = moved heap r.owner; recipient = moved (heap + 1) r.recipient })
unfolding grant_pack grant_unpack
grant-Written c heap testnet r address {bytes} f h =
    let (am, em, sg) = prepare-packed (grant_message r address) _ h in
    let (ls, lc, eb) = sign_twice-packed c am.0 am.1 am.2 r.signature r.countersignature sg in
    let (guard, h1) =
      >>-eq-ok
        (refuse (nil_or_zero address || not (same_pointer address r.owner))
          invalid_owner_or_registrant)
        _ em in
    let (ck, h2) = >>-eq-ok (grant_check r) _ h1 in
    let (o_owner, eo_owner, h3) = >>=-eq-ok (deref r.owner) _ h2 in
    let (ref_owner, er_owner, et_owner) = deref-eq-ok (r.owner) eo_owner in
    let (key_owner, net_owner) = AccountFits-some er_owner f.owner_fits in
    let (o_recipient, eo_recipient, h4) = >>=-eq-ok (deref r.recipient) _ h3 in
    let (ref_recipient, er_recipient, et_recipient) = deref-eq-ok (r.recipient) eo_recipient in
    let (key_recipient, net_recipient) = AccountFits-some er_recipient f.recipient_fits in
    let message = ap (λ p. p.2) (ok-injective h4) in
    subst
      (λ p.
        Written (grant_unpack heap testnet) share_grant_tag bytes
          (record r { owner = p; recipient = moved (heap + 1) r.recipient }))
      (moved-some er_owner)
      (subst
        (λ p. Written (grant_unpack heap testnet) share_grant_tag bytes (record r {
          owner = some (record { location = heap; target = ref_owner.target });
          recipient = p;
        }))
        (moved-some er_recipient)
        (record {
          fields = _;
          split =
              sym (
                grant_layout r.share_id r.signature r.countersignature r.quantity r.before_block
                  ref_owner.target ref_recipient.target)
              ∙ ap
                  (λ (x : Account).
                    append_bytes
                      (append_bytes
                        (append_uint64
                          (append_account
                            (append_account
                              (append_uint64
                                (append_bytes (create_packed share_grant_tag) r.share_id)
                                r.quantity)
                              x)
                            ref_recipient.target)
                          r.before_block)
                        r.signature)
                      r.countersignature)
                  et_owner
              ∙ ap
                  (λ (x : Account).
                    append_bytes
                      (append_bytes
                        (append_uint64
                          (append_account
                            (append_account
                              (append_uint64
                                (append_bytes (create_packed share_grant_tag) r.share_id)
                                r.quantity)
                              o_owner)
                            x)
                          r.before_block)
                        r.signature)
                      r.countersignature)
                  et_recipient
              ∙ ap (λ (m : List ℕ). append_bytes (append_bytes m r.signature) r.countersignature)
                  message
              ∙ eb;
          reads_fields = Reads-bind _ (Reads-digest r.share_id f.share_id_fits) (
              Reads-bind _ (Reads-uint64 r.quantity f.quantity_fits) (
                Reads-bind _ (Reads-account ref_owner.target heap testnet key_owner net_owner) (
                  Reads-bind _
                    (Reads-account ref_recipient.target (heap + 1) testnet key_recipient
                      net_recipient)
                    (Reads-bind _ (Reads-uint64 r.before_block f.before_block_fits) (
                      Reads-bind _ (Reads-bytes r.signature (omega arith) (omega arith)) (
                        Reads-bind _ (Reads-bytes r.countersignature (omega arith) (omega arith)) (
                          Reads-check _ (
                            grant_check-moved r heap ref_owner ref_recipient er_owner er_recipient
                              ck))))))));
        }))
