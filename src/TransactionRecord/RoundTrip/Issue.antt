-- ===== src/TransactionRecord/RoundTrip/Issue.antt =====
-- BitmarkIssue: what Unpack reads of what Pack wrote.
use bitmarkd.Common.{ℕ, ◌<◌, ◌^◌, ◌≡◌, sym, ap, ◌∙◌, arith, List, [], ◌++◌, Bool, some, length}
use bitmarkd.Account.{Account, account_bytes}
use bitmarkd.Crypto.{Crypto}
use bitmarkd.Go.{ok, Ref, Pointer, deref, >>=-eq-ok, >>-eq-ok, deref-eq-ok, ok-injective}
use bitmarkd.TransactionRecord.Types.{BitmarkIssue, bitmark_issue_tag}
use bitmarkd.TransactionRecord.Check.{issue_check}
use bitmarkd.TransactionRecord.Append.{
  packed, valid_address, append_bytes, append_string, append_account, append_uint64, create_packed,
}
use bitmarkd.TransactionRecord.Pack.Single.{issue_message, issue_pack}
use bitmarkd.TransactionRecord.Inversion.{prepare-packed, sign-packed}
use bitmarkd.TransactionRecord.Reads.{Reads-bind, Reads-check}
use bitmarkd.TransactionRecord.Fields.{
  field, Reads-uint64, Reads-bytes, Reads-asset_id, Reads-account,
}
use bitmarkd.TransactionRecord.RoundTrip.Written.{
  Written, moved, AccountFits, AccountFits-some, moved-some,
}
use bitmarkd.TransactionRecord.Unpack.Single.{issue_unpack}
use bitmarkd.Util.Varint.{to_varint64}
use mathlib.Core.List.{append_assoc, append-nil}
use mathlib.Core.Path.{subst}

pub record IssueFits (testnet : Bool) (r : BitmarkIssue) : Type 0 where
  pub asset_id_fits : length r.asset_id ≡ 64
  pub owner_fits : AccountFits testnet r.owner
  pub nonce_fits : r.nonce < 2 ^ 64

issue_check-moved :
    (r : BitmarkIssue) (location : ℕ) (o : Ref Account)
    → r.owner ≡ some o
    → issue_check r ≡ ok tt
    → issue_check (record r { owner = some (record { location = location; target = o.target }) })
      ≡ ok tt
unfolding issue_check
issue_check-moved r location o e h = ground arith

issue_layout :
    (asset_id signature : List ℕ) (o : Account) (nonce : ℕ)
    → append_bytes
        (append_uint64
          (append_account (append_bytes (create_packed bitmark_issue_tag) asset_id) o)
          nonce)
        signature
      ≡ to_varint64 bitmark_issue_tag
        ++ (field asset_id
            ++ (field (account_bytes o) ++ (to_varint64 nonce ++ (field signature ++ []))))
unfolding append_bytes append_string append_account append_uint64 create_packed
issue_layout asset_id signature o nonce = simp (append_assoc, append-nil)

-- What Pack wrote is the tag and the fields that Unpack reads.
pub issue-Written :
    (c : Crypto) (heap : ℕ) (testnet : Bool) (r : BitmarkIssue) (address : Pointer Account)
    {bytes : List ℕ}
    → IssueFits testnet r
    → issue_pack c r address ≡ packed bytes
    → Written
        (issue_unpack heap testnet)
        bitmark_issue_tag
        bytes
        (record r { owner = moved heap r.owner })
unfolding issue_pack issue_unpack
issue-Written c heap testnet r address {bytes} f h =
    let (am, em, sg) = prepare-packed (issue_message r address) _ h in
    let (ls, eb) = sign-packed c am.0 am.1 r.signature sg in
    let (a, ea, h1) = >>=-eq-ok (valid_address address) _ em in
    let (ck, h2) = >>-eq-ok (issue_check r) _ h1 in
    let (o_owner, eo_owner, h3) = >>=-eq-ok (deref r.owner) _ h2 in
    let (ref_owner, er_owner, et_owner) = deref-eq-ok (r.owner) eo_owner in
    let (key_owner, net_owner) = AccountFits-some er_owner f.owner_fits in
    let message = ap (λ p. p.1) (ok-injective h3) in
    subst
      (λ p. Written (issue_unpack heap testnet) bitmark_issue_tag bytes (record r { owner = p }))
      (moved-some er_owner)
      (record {
        fields = _;
        split =
            sym (issue_layout r.asset_id r.signature ref_owner.target r.nonce)
            ∙ ap
                (λ (x : Account).
                  append_bytes
                    (append_uint64
                      (append_account (append_bytes (create_packed bitmark_issue_tag) r.asset_id) x)
                      r.nonce)
                    r.signature)
                et_owner
            ∙ ap (λ (m : List ℕ). append_bytes m r.signature) message
            ∙ eb;
        reads_fields = Reads-bind _ (Reads-asset_id r.asset_id f.asset_id_fits) (
            Reads-bind _ (Reads-account ref_owner.target heap testnet key_owner net_owner) (
              Reads-bind _ (Reads-uint64 r.nonce f.nonce_fits) (
                Reads-bind _ (Reads-bytes r.signature (omega arith) (omega arith))
                  (Reads-check _ (issue_check-moved r heap ref_owner er_owner ck)))));
      })
