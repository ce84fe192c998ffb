-- ===== src/Ownership/Entries.antt =====
-- The pools of the owners as a commit is to leave them, after an entry is added or deleted.
use bitmarkd.Common.{
  ℕ, ◌+◌, ◌%◌, ◌^◌, ◌≡◌, refl, ap, ◌∙◌, List, ◌∷◌, ◌++◌, Option, none, some, bytes_eq,
  if◌then◌else◌,
}
use bitmarkd.Go.Binary.{be_bytes, be_value}
use bitmarkd.Storage.External.{External}
use bitmarkd.Storage.Access.{AccessData}
use bitmarkd.Storage.Handle.{
  handle_put, handle_remove, owner_next_count, owner_list, owner_tx_index, owner_data, shares,
  share_quantity,
}
use bitmarkd.Storage.Final.{final, final-put, final-delete}
use bitmarkd.Ownership.Data.{OwnerData, pack_owner_data}
use bitmarkd.Ownership.Transfer.{add_entry, delete_entry, add_share}
use bitmarkd.Ownership.Index.{set_at, set_at-same}
use mathlib.Core.Path.{fun_ext}

abbrev pub counter : Option (List ℕ) → ℕ
counter none = 0
counter (some count) = be_value count

module _ {x : External} where
  abbrev pub index_of : AccessData x → List ℕ → Option (List ℕ)
  index_of d key = final (owner_tx_index ∷ key) d

  abbrev pub list_of : AccessData x → List ℕ → Option (List ℕ)
  list_of d key = final (owner_list ∷ key) d

  abbrev pub data_of : AccessData x → List ℕ → Option (List ℕ)
  data_of d key = final (owner_data ∷ key) d

  abbrev pub count_of : AccessData x → List ℕ → Option (List ℕ)
  count_of d key = final (owner_next_count ∷ key) d

  abbrev pub next_of : AccessData x → List ℕ → ℕ
  next_of d owner = counter (count_of d owner)

  module _ (tx_id : List ℕ) (data' : OwnerData) (owner count : List ℕ) (d : AccessData x) where
    pub index_of-add_entry :
        index_of (add_entry tx_id data' owner count d)
        ≡ set_at (owner ++ tx_id) (some count) (index_of d)
    unfolding add_entry handle_put
    index_of-add_entry = fun_ext λ k.
        final-put _ _ (owner_tx_index ∷ k) _
        ∙ final-put _ _ (owner_tx_index ∷ k) _
        ∙ ap (λ o. if bytes_eq (owner ++ tx_id) k then some count else o)
            (final-put _ _ (owner_tx_index ∷ k) _ ∙ final-put _ _ (owner_tx_index ∷ k) _)

    pub list_of-add_entry :
        list_of (add_entry tx_id data' owner count d)
        ≡ set_at (owner ++ count) (some tx_id) (list_of d)
    unfolding add_entry handle_put
    list_of-add_entry = fun_ext λ k.
        final-put _ _ (owner_list ∷ k) _
        ∙ final-put _ _ (owner_list ∷ k) _
        ∙ final-put _ _ (owner_list ∷ k) _
        ∙ ap (λ o. if bytes_eq (owner ++ count) k then some tx_id else o)
            (final-put _ _ (owner_list ∷ k) _)

    pub count_of-add_entry :
        count_of (add_entry tx_id data' owner count d)
        ≡ set_at owner (some (be_bytes 8 ((be_value count + 1) % 2 ^ 64))) (count_of d)
    unfolding add_entry handle_put
    count_of-add_entry = fun_ext λ k.
        final-put _ _ (owner_next_count ∷ k) _
        ∙ final-put _ _ (owner_next_count ∷ k) _
        ∙ final-put _ _ (owner_next_count ∷ k) _
        ∙ final-put _ _ (owner_next_count ∷ k) _

    pub data_of-add_entry :
        data_of (add_entry tx_id data' owner count d)
        ≡ set_at tx_id (some (pack_owner_data data')) (data_of d)
    unfolding add_entry handle_put
    data_of-add_entry = fun_ext λ k.
        final-put _ _ (owner_data ∷ k) _
        ∙ ap (λ o. if bytes_eq tx_id k then some (pack_owner_data data') else o)
            (final-put _ _ (owner_data ∷ k) _
              ∙ final-put _ _ (owner_data ∷ k) _
              ∙ final-put _ _ (owner_data ∷ k) _)

  module _ (tx_id owner count : List ℕ) (d : AccessData x) where
    pub index_of-delete_entry :
        index_of (delete_entry tx_id owner count d) ≡ set_at (owner ++ tx_id) none (index_of d)
    unfolding delete_entry handle_remove
    index_of-delete_entry = fun_ext λ k.
        final-delete _ (owner_tx_index ∷ k) _
        ∙ final-delete _ (owner_tx_index ∷ k) _
        ∙ ap (λ o. if bytes_eq (owner ++ tx_id) k then none else o)
            (final-delete _ (owner_tx_index ∷ k) _)

    pub list_of-delete_entry :
        list_of (delete_entry tx_id owner count d) ≡ set_at (owner ++ count) none (list_of d)
    unfolding delete_entry handle_remove
    list_of-delete_entry = fun_ext λ k.
        final-delete _ (owner_list ∷ k) _
        ∙ final-delete _ (owner_list ∷ k) _
        ∙ final-delete _ (owner_list ∷ k) _

    pub count_of-delete_entry : count_of (delete_entry tx_id owner count d) ≡ count_of d
    unfolding delete_entry handle_remove
    count_of-delete_entry = fun_ext λ k.
        final-delete _ (owner_next_count ∷ k) _
        ∙ final-delete _ (owner_next_count ∷ k) _
        ∙ final-delete _ (owner_next_count ∷ k) _

    pub data_of-delete_entry :
        data_of (delete_entry tx_id owner count d) ≡ set_at tx_id none (data_of d)
    unfolding delete_entry handle_remove
    data_of-delete_entry = fun_ext λ k.
        final-delete _ (owner_data ∷ k) _
        ∙ ap (λ o. if bytes_eq tx_id k then none else o)
            (final-delete _ (owner_data ∷ k) _ ∙ final-delete _ (owner_data ∷ k) _)

  -- A share leaves the four pools as they are.
  module _ (share_id tx_id owner : List ℕ) (quantity : ℕ) (d : AccessData x) where
    pub index_of-add_share : index_of (add_share share_id tx_id owner quantity d) ≡ index_of d
    unfolding add_share handle_put
    index_of-add_share =
        fun_ext λ k. final-put _ _ (owner_tx_index ∷ k) _ ∙ final-put _ _ (owner_tx_index ∷ k) _

    pub list_of-add_share : list_of (add_share share_id tx_id owner quantity d) ≡ list_of d
    unfolding add_share handle_put
    list_of-add_share =
        fun_ext λ k. final-put _ _ (owner_list ∷ k) _ ∙ final-put _ _ (owner_list ∷ k) _

    pub count_of-add_share : count_of (add_share share_id tx_id owner quantity d) ≡ count_of d
    unfolding add_share handle_put
    count_of-add_share =
        fun_ext λ k. final-put _ _ (owner_next_count ∷ k) _ ∙ final-put _ _ (owner_next_count ∷ k) _

    pub data_of-add_share : data_of (add_share share_id tx_id owner quantity d) ≡ data_of d
    unfolding add_share handle_put
    data_of-add_share =
        fun_ext λ k. final-put _ _ (owner_data ∷ k) _ ∙ final-put _ _ (owner_data ∷ k) _

    pub shares-add_share :
        final (shares ∷ share_id) (add_share share_id tx_id owner quantity d)
        ≡ some (be_bytes 8 quantity ++ tx_id)
    unfolding add_share handle_put
    shares-add_share =
        final-put _ _ (shares ∷ share_id) _
        ∙ final-put _ _ (shares ∷ share_id) _
        ∙ set_at-same share_id share_id (some (be_bytes 8 quantity ++ tx_id))
            (λ k. final (shares ∷ k) d) refl

    pub share_quantity-add_share :
        final (share_quantity ∷ (owner ++ share_id)) (add_share share_id tx_id owner quantity d)
        ≡ some (be_bytes 8 quantity)
    unfolding add_share handle_put
    share_quantity-add_share =
        final-put _ _ (share_quantity ∷ (owner ++ share_id)) _
        ∙ set_at-same (owner ++ share_id) (owner ++ share_id) (some (be_bytes 8 quantity))
            (λ k.
              final (share_quantity ∷ k)
                (handle_put shares share_id (be_bytes 8 quantity ++ tx_id) d))
            refl

  -- An entry leaves the pools of the shares as they are.
  module _ (tx_id : List ℕ) (data' : OwnerData) (owner count : List ℕ) (d : AccessData x) where
    pub shares-add_entry :
        (k : List ℕ)
        → final (shares ∷ k) (add_entry tx_id data' owner count d) ≡ final (shares ∷ k) d
    unfolding add_entry handle_put
    shares-add_entry k =
        final-put _ _ (shares ∷ k) _
        ∙ final-put _ _ (shares ∷ k) _
        ∙ final-put _ _ (shares ∷ k) _
        ∙ final-put _ _ (shares ∷ k) _

    pub share_quantity-add_entry :
        (k : List ℕ)
        → final (share_quantity ∷ k) (add_entry tx_id data' owner count d)
          ≡ final (share_quantity ∷ k) d
    unfolding add_entry handle_put
    share_quantity-add_entry k =
        final-put _ _ (share_quantity ∷ k) _
        ∙ final-put _ _ (share_quantity ∷ k) _
        ∙ final-put _ _ (share_quantity ∷ k) _
        ∙ final-put _ _ (share_quantity ∷ k) _
