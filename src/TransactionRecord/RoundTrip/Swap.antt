-- ===== src/TransactionRecord/RoundTrip/Swap.antt =====
-- ShareSwap: what Unpack reads of what Pack wrote.
use bitmarkd.Common.{
  ℕ, ◌+◌, ◌<◌, ◌^◌, ◌≡◌, sym, ap, ◌∙◌, arith, List, [], ◌++◌, Bool, some, length, not, ◌||◌,
}
use bitmarkd.Account.{Account, account_bytes}
use bitmarkd.Crypto.{Crypto}
use bitmarkd.Go.{
  ok, Ref, Pointer, deref, >>=-eq-ok, >>-eq-ok, deref-eq-ok, ok-injective, refuse, same_pointer,
}
use bitmarkd.Fault.{invalid_owner_or_registrant}
use bitmarkd.TransactionRecord.Types.{ShareSwap, share_swap_tag}
use bitmarkd.TransactionRecord.Check.{swap_check, nil_or_zero}
use bitmarkd.TransactionRecord.Append.{
  packed, append_bytes, append_string, append_account, append_uint64, create_packed,
}
use bitmarkd.TransactionRecord.Pack.Double.{swap_message, swap_pack}
use bitmarkd.TransactionRecord.Inversion.{prepare-packed, sign_twice-packed}
use bitmarkd.TransactionRecord.Reads.{Reads-bind, Reads-check}
use bitmarkd.TransactionRecord.Fields.{
  field, Reads-uint64, Reads-bytes, Reads-digest, Reads-account,
}
use bitmarkd.TransactionRecord.RoundTrip.Written.{
  Written, moved, AccountFits, AccountFits-some, moved-some,
}
use bitmarkd.TransactionRecord.Unpack.Double.{swap_unpack}
use bitmarkd.Util.Varint.{to_varint64}
use mathlib.Core.List.{append_assoc, append-nil}
use mathlib.Core.Path.{subst}

pub record SwapFits (testnet : Bool) (r : ShareSwap) : Type 0 where
  pub share_id_one_fits : length r.share_id_one ≡ 32
  pub quantity_one_fits : r.quantity_one < 2 ^ 64
  pub owner_one_fits : AccountFits testnet r.owner_one
  pub share_id_two_fits : length r.share_id_two ≡ 32
  pub quantity_two_fits : r.quantity_two < 2 ^ 64
  pub owner_two_fits : AccountFits testnet r.owner_two
  pub before_block_fits : r.before_block < 2 ^ 64

swap_check-moved :
    (r : ShareSwap) (heap : ℕ) (o o' : Ref Account)
    → r.owner_one ≡ some o
    → r.owner_two ≡ some o'
    → swap_check r ≡ ok tt
    → swap_check (record r {
      owner_one = some (record { location = heap; target = o.target });
      owner_two = some (record { location = heap + 1; target = o'.target });
    })
      ≡ ok tt
unfolding swap_check
swap_check-moved r heap o o' e e' h = ground arith

swap_layout :
    (id1 id2 signature countersignature : List ℕ) (q1 q2 before_block : ℕ) (o o' : Account)
    → append_bytes
        (append_bytes
          (append_uint64
            (append_account
              (append_uint64
                (append_bytes
                  (append_account
                    (append_uint64 (append_bytes (create_packed share_swap_tag) id1) q1)
                    o)
                  id2)
                q2)
              o')
            before_block)
          signature)
        countersignature
      ≡ to_varint64 share_swap_tag
        ++ (field id1
            ++ (to_varint64 q1
                ++ (field (account_bytes o)
                    ++ (field id2
                        ++ (to_varint64 q2
                            ++ (field (account_bytes o')
                                ++ (to_varint64 before_block
                                    ++ (field signature ++ (field countersignature ++ [])))))))))
unfolding append_bytes append_string append_account append_uint64 create_packed
swap_layout id1 id2 signature countersignature q1 q2 before_block o o' =
    simp (append_assoc, append-nil)

-- What Pack wrote is the tag and the fields that Unpack reads.
pub swap-Written :
    (c : Crypto) (heap : ℕ) (testnet : Bool) (r : ShareSwap) (address : Pointer Account)
    {bytes : List ℕ}
    → SwapFits testnet r
    → swap_pack c r address ≡ packed bytes
    → Written
        (swap_unpack heap testnet)
        share_swap_tag
        bytes
        (record r { owner_one = moved heap r.owner_one; owner_two = moved (heap + 1) r.owner_two })
unfolding swap_pack swap_unpack
swap-Written c heap testnet r address {bytes} f h =
    let (am, em, sg) = prepare-packed (swap_message r address) _ h in
    let (ls, lc, eb) = sign_twice-packed c am.0 am.1 am.2 r.signature r.countersignature sg in
    let (guard, h1) =
      >>-eq-ok
        (refuse (nil_or_zero address || not (same_pointer address r.owner_one))
          invalid_owner_or_registrant)
        _ em in
    let (ck, h2) = >>-eq-ok (swap_check r) _ h1 in
    let (o_owner_one, eo_owner_one, h3) = >>=-eq-ok (deref r.owner_one) _ h2 in
    let (ref_owner_one, er_owner_one, et_owner_one) = deref-eq-ok (r.owner_one) eo_owner_one in
    let (key_owner_one, net_owner_one) = AccountFits-some er_owner_one f.owner_one_fits in
    let (o_owner_two, eo_owner_two, h4) = >>=-eq-ok (deref r.owner_two) _ h3 in
    let (ref_owner_two, er_owner_two, et_owner_two) = deref-eq-ok (r.owner_two) eo_owner_two in
    let (key_owner_two, net_owner_two) = AccountFits-some er_owner_two f.owner_two_fits in
    let message = ap (λ p. p.2) (ok-injective h4) in
    subst
      (λ p.
        Written (swap_unpack heap testnet) share_swap_tag bytes
          (record r { owner_one = p; owner_two = moved (heap + 1) r.owner_two }))
      (moved-some er_owner_one)
      (subst
        (λ p. Written (swap_unpack heap testnet) share_swap_tag bytes (record r {
          owner_one = some (record { location = heap; target = ref_owner_one.target });
          owner_two = p;
        }))
        (moved-some er_owner_two)
        (record {
          fields = _;
          split =
              sym (
                swap_layout r.share_id_one r.share_id_two r.signature r.countersignature
                  r.quantity_one r.quantity_two r.before_block ref_owner_one.target
                  ref_owner_two.target)
              ∙ ap
                  (λ (x : Account).
                    append_bytes
                      (append_bytes
                        (append_uint64
                          (append_account
                            (append_uint64
                              (append_bytes
                                (append_account
                                  (append_uint64
                                    (append_bytes (create_packed share_swap_tag) r.share_id_one)
                                    r.quantity_one)
                                  x)
                                r.share_id_two)
                              r.quantity_two)
                            ref_owner_two.target)
                          r.before_block)
                        r.signature)
                      r.countersignature)
                  et_owner_one
              ∙ ap
                  (λ (x : Account).
                    append_bytes
                      (append_bytes
                        (append_uint64
                          (append_account
                            (append_uint64
                              (append_bytes
                                (append_account
                                  (append_uint64
                                    (append_bytes (create_packed share_swap_tag) r.share_id_one)
                                    r.quantity_one)
                                  o_owner_one)
                                r.share_id_two)
                              r.quantity_two)
                            x)
                          r.before_block)
                        r.signature)
                      r.countersignature)
                  et_owner_two
              ∙ ap (λ (m : List ℕ). append_bytes (append_bytes m r.signature) r.countersignature)
                  message
              ∙ eb;
          reads_fields = Reads-bind _ (Reads-digest r.share_id_one f.share_id_one_fits) (
              Reads-bind _ (Reads-uint64 r.quantity_one f.quantity_one_fits) (
                Reads-bind _
                  (Reads-account ref_owner_one.target heap testnet key_owner_one net_owner_one)
                  (Reads-bind _ (Reads-digest r.share_id_two f.share_id_two_fits) (
                    Reads-bind _ (Reads-uint64 r.quantity_two f.quantity_two_fits) (
                      Reads-bind _
                        (Reads-account ref_owner_two.target (heap + 1) testnet key_owner_two
                          net_owner_two)
                        (Reads-bind _ (Reads-uint64 r.before_block f.before_block_fits) (
                          Reads-bind _ (Reads-bytes r.signature (omega arith) (omega arith)) (
                            Reads-bind _
                              (Reads-bytes r.countersignature (omega arith) (omega arith))
                              (Reads-check _ (
                                swap_check-moved r heap ref_owner_one ref_owner_two er_owner_one
                                  er_owner_two ck))))))))));
        }))
