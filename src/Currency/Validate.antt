-- ===== src/Currency/Validate.antt =====
-- currency/validate.go: an address is checked for its currency and for the network.
use bitmarkd.Common.{ℕ, Bool, not, List, ◌==◌, ltb, iff, if◌then◌else◌}
use bitmarkd.Crypto.{Crypto}
use bitmarkd.Currency
use bitmarkd.Currency.{Currency}
use bitmarkd.Currency.Bitcoin
use bitmarkd.Currency.Litecoin
use bitmarkd.Fault.{
  payment_address_too_long, bitcoin_address_for_wrong_network, litecoin_address_for_wrong_network,
}
use bitmarkd.Go.{Result, ok, panicked, ◌>>=◌, ◌>>◌, refuse}
use bitmarkd.Go.Utf8.{rune_count}

abbrev pub max_payment_address_length : ℕ
max_payment_address_length = 64

-- A currency outside of the enumeration ends in logger.Panicf.
unfoldable pub validate_address : Crypto → Currency → List ℕ → Bool → Result (Unit {0})
validate_address c currency address testnet = do
  refuse (ltb max_payment_address_length (rune_count address)) payment_address_too_long
  (if currency == Currency.nothing
      then ok tt
      else if currency == Currency.bitcoin
      then (do
        version ← Bitcoin.validate_address c address
        refuse (not (iff (Bitcoin.is_testnet version.0) testnet)) bitcoin_address_for_wrong_network)
      else if currency == Currency.litecoin
      then (do
        version ← Litecoin.validate_address c address
        refuse (not (iff (Litecoin.is_testnet version.0) testnet))
            litecoin_address_for_wrong_network)
      else panicked)
