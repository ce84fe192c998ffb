-- ===== src/TransactionRecord/RoundTrip/Asset.antt =====
-- AssetData: what Unpack reads of what Pack wrote.
use bitmarkd.Common.{ℕ, ◌≤◌, ◌≡◌, sym, ap, ◌∙◌, arith, List, [], ◌++◌, Bool, some, length}
use bitmarkd.Account.{Account, account_bytes}
use bitmarkd.Crypto.{Crypto}
use bitmarkd.Go.{ok, Ref, Pointer, deref, >>=-eq-ok, >>-eq-ok, deref-eq-ok, ok-injective}
use bitmarkd.Go.Utf8.{length-rune_count, rune_count-le}
use bitmarkd.TransactionRecord.Types.{AssetData, asset_data_tag}
use bitmarkd.TransactionRecord.Check.{asset_data_check}
use bitmarkd.TransactionRecord.Append.{
  packed, valid_address, append_bytes, append_string, append_account, append_uint64, create_packed,
}
use bitmarkd.TransactionRecord.Pack.Single.{asset_data_message, asset_data_pack}
use bitmarkd.TransactionRecord.Inversion.{prepare-packed, sign-packed}
use bitmarkd.TransactionRecord.Reads.{Reads-bind, Reads-check}
use bitmarkd.TransactionRecord.Fields.{field, Reads-bytes, Reads-account}
use bitmarkd.TransactionRecord.Optional.{Reads-name, Reads-metadata}
use bitmarkd.TransactionRecord.RoundTrip.Written.{
  Written, moved, AccountFits, AccountFits-some, moved-some,
}
use bitmarkd.TransactionRecord.Unpack.Single.{asset_data_unpack}
use bitmarkd.Util.Varint.{to_varint64}
use mathlib.Core.List.{append_assoc, append-nil}
use mathlib.Core.Path.{subst}

pub record AssetDataFits (testnet : Bool) (r : AssetData) : Type 0 where
  pub registrant_fits : AccountFits testnet r.registrant

asset_data_check-moved :
    (r : AssetData) (location : ℕ) (o : Ref Account)
    → r.registrant ≡ some o
    → asset_data_check r ≡ ok tt
    → asset_data_check
        (record r { registrant = some (record { location = location; target = o.target }) })
      ≡ ok tt
unfolding asset_data_check
asset_data_check-moved r location o e h = ground arith

-- The limits on runes are limits on the bytes that a field can hold.
asset_bounds :
    (r : AssetData)
    → asset_data_check r ≡ ok tt
    → (length r.name ≤ 8192)
      × (1 ≤ length r.fingerprint)
      × (length r.fingerprint ≤ 8192)
      × (length r.metadata ≤ 8192)
unfolding asset_data_check
asset_bounds r h = (
  ground (arith, length-rune_count r.name),
  ground (arith, rune_count-le r.fingerprint),
  ground (arith, length-rune_count r.fingerprint),
  ground (arith, length-rune_count r.metadata),
)

asset_data_layout :
    (name fingerprint metadata signature : List ℕ) (o : Account)
    → append_bytes
        (append_account
          (append_string
            (append_string (append_string (create_packed asset_data_tag) name) fingerprint)
            metadata)
          o)
        signature
      ≡ to_varint64 asset_data_tag
        ++ (field name
            ++ (field fingerprint
                ++ (field metadata ++ (field (account_bytes o) ++ (field signature ++ [])))))
unfolding append_bytes append_string append_account append_uint64 create_packed
asset_data_layout name fingerprint metadata signature o = simp (append_assoc, append-nil)

-- What Pack wrote is the tag and the fields that Unpack reads.
pub asset_data-Written :
    (c : Crypto) (heap : ℕ) (testnet : Bool) (r : AssetData) (address : Pointer Account)
    {bytes : List ℕ}
    → AssetDataFits testnet r
    → asset_data_pack c r address ≡ packed bytes
    → Written
        (asset_data_unpack heap testnet)
        asset_data_tag
        bytes
        (record r { registrant = moved heap r.registrant })
unfolding asset_data_pack asset_data_unpack
asset_data-Written c heap testnet r address {bytes} f h =
    let (am, em, sg) = prepare-packed (asset_data_message r address) _ h in
    let (ls, eb) = sign-packed c am.0 am.1 r.signature sg in
    let (a, ea, h1) = >>=-eq-ok (valid_address address) _ em in
    let (ck, h2) = >>-eq-ok (asset_data_check r) _ h1 in
    let (b1, b2, b3, b4) = asset_bounds r ck in
    let (o_registrant, eo_registrant, h3) = >>=-eq-ok (deref r.registrant) _ h2 in
    let (ref_registrant, er_registrant, et_registrant) = deref-eq-ok (r.registrant) eo_registrant in
    let (key_registrant, net_registrant) = AccountFits-some er_registrant f.registrant_fits in
    let message = ap (λ p. p.1) (ok-injective h3) in
    subst
      (λ p.
        Written (asset_data_unpack heap testnet) asset_data_tag bytes (record r { registrant = p }))
      (moved-some er_registrant)
      (record {
        fields = _;
        split =
            sym
              (asset_data_layout r.name r.fingerprint r.metadata r.signature ref_registrant.target)
            ∙ ap
                (λ (x : Account).
                  append_bytes
                    (append_account
                      (append_string
                        (append_string (append_string (create_packed asset_data_tag) r.name)
                          r.fingerprint)
                        r.metadata)
                      x)
                    r.signature)
                et_registrant
            ∙ ap (λ (m : List ℕ). append_bytes m r.signature) message
            ∙ eb;
        reads_fields = Reads-bind _ (Reads-name r.name b1) (
            Reads-bind _ (Reads-bytes r.fingerprint b2 b3) (
              Reads-bind _ (Reads-metadata r.metadata b4) (
                Reads-bind _
                  (Reads-account ref_registrant.target heap testnet key_registrant net_registrant)
                  (Reads-bind _ (Reads-bytes r.signature (omega arith) (omega arith)) (
                    Reads-check _
                      (asset_data_check-moved r heap ref_registrant er_registrant ck))))));
      })
