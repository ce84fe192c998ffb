-- ===== src/Currency.antt =====
-- currency/enumerated.go and currency/conversion.go: the currencies, by their numbers.
pub mod Bitcoin
pub mod Litecoin
pub mod Validate
pub mod Set
pub mod Map
pub mod Payments
pub mod Ends
use bitmarkd.Common.{ℕ, ltb, if◌then◌else◌}
use bitmarkd.Fault.{invalid_currency}
use bitmarkd.Go.{Result, ok, err}

-- The type Currency is a uint64.
abbrev pub Currency : Type 0
Currency = ℕ

abbrev pub nothing : Currency
nothing = 0

abbrev pub bitcoin : Currency
bitcoin = 1

abbrev pub litecoin : Currency
litecoin = 2

abbrev pub maximum_value : Currency
maximum_value = 3

abbrev pub first : Currency
first = 1

abbrev pub last : Currency
last = 2

unfoldable pub from_uint64 : ℕ → Result Currency
from_uint64 n = if ltb n maximum_value then ok n else err invalid_currency
