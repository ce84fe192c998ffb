-- ===== src/Currency/Set.antt =====
-- currency/set.go: a set of currencies as a bit mask with its size.
use bitmarkd.Common.{ℕ, ◌+◌, ◌^◌, ◌%◌, Bool, true, false, not, ◌&&◌, List, [], ◌∷◌, ◌==◌}
use bitmarkd.Common.{if◌then◌else◌, bit_and, bit_or}
use bitmarkd.Currency.{Currency}

pub record Set : Type 0 where
  pub count : ℕ
  pub bits : ℕ

-- The set after the call, and whether the currency was there already. `1 << c` of 64 bits and more
-- is 0.
unfoldable pub add : Set → Currency → Set × Bool
add set c =
    let n = 2 ^ c % 2 ^ 64 in
    if not (bit_and n set.bits == 0)
    then (set, true)
    else (record { count = set.count + 1; bits = bit_or set.bits n }, false)

unfoldable pub add_all : Set → List Currency → Set
unfolding add
add_all set [] = set
add_all set (c ∷ cs) = add_all (add set c).0 cs

unfoldable pub make_set : List Currency → Set
unfolding add_all
make_set currencies = add_all (record { count = 0; bits = 0 }) currencies

-- `==` on the structs.
abbrev pub set_eq : Set → Set → Bool
set_eq a b = (a.count == b.count) && (a.bits == b.bits)
