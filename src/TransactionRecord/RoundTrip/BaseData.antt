-- ===== src/TransactionRecord/RoundTrip/BaseData.antt =====
-- OldBaseData: what Unpack reads of what Pack wrote.
use bitmarkd.Common.{ℕ, ◌<◌, ◌≤◌, ◌^◌, ◌≡◌, sym, ap, ◌∙◌, arith, List, [], ◌++◌, Bool, some, length}
use bitmarkd.Account.{Account, account_bytes, is_testing}
use bitmarkd.Crypto.{Crypto}
use bitmarkd.Currency.Validate.{validate_address}
use bitmarkd.Go.{ok, Ref, Pointer, deref, >>=-eq-ok, >>-eq-ok, deref-eq-ok, ok-injective}
use bitmarkd.TransactionRecord.Types.{OldBaseData, base_data_tag}
use bitmarkd.TransactionRecord.Check.{base_data_check}
use bitmarkd.TransactionRecord.Append.{
  packed, valid_address, append_bytes, append_string, append_account, append_uint64, create_packed,
}
use bitmarkd.TransactionRecord.Pack.Single.{base_data_message, base_data_pack}
use bitmarkd.TransactionRecord.Inversion.{prepare-packed, sign-packed}
use bitmarkd.TransactionRecord.Reads.{Reads-bind, Reads-check}
use bitmarkd.TransactionRecord.Fields.{field, Reads-uint64, Reads-bytes, Reads-account}
use bitmarkd.TransactionRecord.Optional.{Reads-currency, validate_address-bounds}
use bitmarkd.TransactionRecord.RoundTrip.Written.{
  Written, moved, AccountFits, AccountFits-some, moved-some,
}
use bitmarkd.TransactionRecord.Unpack.Single.{base_data_unpack}
use bitmarkd.Util.Varint.{to_varint64}
use mathlib.Core.List.{append_assoc, append-nil}
use mathlib.Core.Path.{subst}

pub record BaseDataFits (testnet : Bool) (r : OldBaseData) : Type 0 where
  pub payment_address_fits : 1 ≤ length r.payment_address
  pub owner_fits : AccountFits testnet r.owner
  pub nonce_fits : r.nonce < 2 ^ 64

base_data_check-moved :
    (r : OldBaseData) (location : ℕ) (o : Ref Account)
    → r.owner ≡ some o
    → base_data_check r ≡ ok tt
    → base_data_check
        (record r { owner = some (record { location = location; target = o.target }) })
      ≡ ok tt
unfolding base_data_check
base_data_check-moved r location o e h = ground arith

base_data_layout :
    (currency nonce : ℕ) (address signature : List ℕ) (o : Account)
    → append_bytes
        (append_uint64
          (append_account
            (append_string (append_uint64 (create_packed base_data_tag) currency) address)
            o)
          nonce)
        signature
      ≡ to_varint64 base_data_tag
        ++ (to_varint64 currency
            ++ (field address
                ++ (field (account_bytes o) ++ (to_varint64 nonce ++ (field signature ++ [])))))
unfolding append_bytes append_string append_account append_uint64 create_packed
base_data_layout currency nonce address signature o = simp (append_assoc, append-nil)

-- What Pack wrote is the tag and the fields that Unpack reads.
pub base_data-Written :
    (c : Crypto) (heap : ℕ) (testnet : Bool) (r : OldBaseData) (address : Pointer Account)
    {bytes : List ℕ}
    → BaseDataFits testnet r
    → base_data_pack c r address ≡ packed bytes
    → Written
        (base_data_unpack heap testnet)
        base_data_tag
        bytes
        (record r { owner = moved heap r.owner })
unfolding base_data_pack base_data_unpack
base_data-Written c heap testnet r address {bytes} f h =
    let (am, em, sg) = prepare-packed (base_data_message c r address) _ h in
    let (ls, eb) = sign-packed c am.0 am.1 r.signature sg in
    let (a, ea, h1) = >>=-eq-ok (valid_address address) _ em in
    let (ck, h2) = >>-eq-ok (base_data_check r) _ h1 in
    let (va, h3) = >>-eq-ok (validate_address c r.currency r.payment_address (is_testing a)) _ h2 in
    let (hc, hl) = validate_address-bounds c r.currency r.payment_address (is_testing a) va in
    let (o_owner, eo_owner, h4) = >>=-eq-ok (deref r.owner) _ h3 in
    let (ref_owner, er_owner, et_owner) = deref-eq-ok (r.owner) eo_owner in
    let (key_owner, net_owner) = AccountFits-some er_owner f.owner_fits in
    let message = ap (λ p. p.1) (ok-injective h4) in
    subst
      (λ p. Written (base_data_unpack heap testnet) base_data_tag bytes (record r { owner = p }))
      (moved-some er_owner)
      (record {
        fields = _;
        split =
            sym (base_data_layout r.currency r.nonce r.payment_address r.signature ref_owner.target)
            ∙ ap
                (λ (x : Account).
                  append_bytes
                    (append_uint64
                      (append_account
                        (append_string (append_uint64 (create_packed base_data_tag) r.currency)
                          r.payment_address)
                        x)
                      r.nonce)
                    r.signature)
                et_owner
            ∙ ap (λ (m : List ℕ). append_bytes m r.signature) message
            ∙ eb;
        reads_fields = Reads-bind _ (Reads-currency r.currency hc) (
            Reads-bind _ (Reads-bytes r.payment_address f.payment_address_fits (omega arith)) (
              Reads-bind _ (Reads-account ref_owner.target heap testnet key_owner net_owner) (
                Reads-bind _ (Reads-uint64 r.nonce f.nonce_fits) (
                  Reads-bind _ (Reads-bytes r.signature (omega arith) (omega arith))
                    (Reads-check _ (base_data_check-moved r heap ref_owner er_owner ck))))));
      })
