-- ===== src/Storage/Handle.antt =====
-- storage/handle.go and storage/transaction.go: the pools, each with its prefix byte, and the
-- transaction over the one database of bitmarks.
use bitmarkd.Common.{ℕ, Bool, List, ◌∷◌, Option, none, some, length, take, drop, ltb, if◌then◌else◌}
use bitmarkd.Go.{Result, ok, panicked, ◌>>=◌}
use bitmarkd.Go.Binary.{be_bytes, be_value}
use bitmarkd.Storage.External.{External}
use bitmarkd.Storage.Access
use bitmarkd.Storage.Access.{AccessData}

-- The prefixes of storage/setup.go.
abbrev pub transactions : ℕ
transactions = b'T'

abbrev pub owner_next_count : ℕ
owner_next_count = b'N'

abbrev pub owner_list : ℕ
owner_list = b'L'

abbrev pub owner_tx_index : ℕ
owner_tx_index = b'D'

abbrev pub owner_data : ℕ
owner_data = b'O'

abbrev pub shares : ℕ
shares = b'F'

abbrev pub share_quantity : ℕ
share_quantity = b'Q'

module _ {x : External} where
  -- prefixKey stands in each of these.
  unfoldable pub handle_put : ℕ → List ℕ → List ℕ → AccessData x → AccessData x
  handle_put prefix key value d = Access.put (prefix ∷ key) value d

  unfoldable pub handle_put_n : ℕ → List ℕ → ℕ → AccessData x → AccessData x
  unfolding handle_put
  handle_put_n prefix key value d = handle_put prefix key (be_bytes 8 value) d

  unfoldable pub handle_remove : ℕ → List ℕ → AccessData x → AccessData x
  handle_remove prefix key d = Access.delete (prefix ∷ key) d

  unfoldable pub handle_get : ℕ → List ℕ → AccessData x → Option (List ℕ)
  handle_get prefix key d = Access.get (prefix ∷ key) d

  unfoldable pub handle_has : ℕ → List ℕ → AccessData x → Bool
  handle_has prefix key d = Access.has (prefix ∷ key) d

  -- GetN: a value of less than 8 bytes panics.
  unfoldable pub handle_get_n : ℕ → List ℕ → AccessData x → Result (Option ℕ)
  unfolding handle_get
  handle_get_n prefix key d = elim (handle_get prefix key d) [
    | none ↦ ok none
    | some buffer ↦ if ltb (length buffer) 8 then panicked else ok (some (be_value (take 8 buffer)))
  ]

  -- GetNB: the number and the rest of the value, of at least one byte.
  unfoldable pub handle_get_nb : ℕ → List ℕ → AccessData x → Result (Option (ℕ × List ℕ))
  unfolding handle_get
  handle_get_nb prefix key d = elim (handle_get prefix key d) [
    | none ↦ ok none
    | some buffer ↦
        if ltb (length buffer) 9
        then panicked
        else ok (some (be_value (take 8 buffer), drop 8 buffer))
  ]

  -- TransactionData.Commit: the write, and then Abort.
  unfoldable pub transaction_commit : AccessData x → Result (AccessData x)
  transaction_commit d = do d' ← Access.commit d; ok (Access.abort d')
