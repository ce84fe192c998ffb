-- ===== src/Currency/Litecoin.antt =====
-- currency/litecoin/validate.go
use bitmarkd.Common.{ℕ, Bool, not, ◌||◌, List, [], ◌∷◌, ◌==◌}
use bitmarkd.Common.{length, take, drop, bytes_eq}
use bitmarkd.Crypto.{Crypto}
use bitmarkd.Fault.{invalid_litecoin_address}
use bitmarkd.Go.{Result, ok, panicked, ◌>>=◌, ◌>>◌, refuse}
use bitmarkd.Util.Base58.{from_base58}

abbrev pub livenet : ℕ
livenet = 48

abbrev pub livenet_script : ℕ
livenet_script = 5

abbrev pub livenet_script2 : ℕ
livenet_script2 = 50

abbrev pub testnet : ℕ
testnet = 111

abbrev pub testnet_script : ℕ
testnet_script = 196

abbrev pub testnet_script2 : ℕ
testnet_script2 = 58

-- The switch on the version byte of the address.
unfoldable pub is_version : ℕ → Bool
is_version v =
    v == livenet
    || (v == livenet_script
        || (v == livenet_script2
            || (v == testnet || (v == testnet_script || v == testnet_script2))))

-- addr[0]
unfoldable pub first_byte : List ℕ → Result ℕ
first_byte [] = panicked
first_byte (v ∷ rest) = ok v

-- The version and the 20 address bytes of a text whose double SHA-256 checksum fits.
unfoldable pub validate_address : Crypto → List ℕ → Result (ℕ × List ℕ)
unfolding is_version first_byte
validate_address c address = do
  let addr = from_base58 address
  refuse (not (length addr == 25)) invalid_litecoin_address
  let d = c.sha256 (c.sha256 (take 21 addr))
  refuse (not (bytes_eq (take 4 d) (drop 21 addr))) invalid_litecoin_address
  version ← first_byte addr
  refuse (not (is_version version)) invalid_litecoin_address
  ok (version, take 20 (drop 1 addr))

unfoldable pub is_testnet : ℕ → Bool
is_testnet version = version == testnet || (version == testnet_script || version == testnet_script2)
