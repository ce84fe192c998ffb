-- ===== src/Ownership/Valid.antt =====
-- The invariant of the records of owners, and what keeps it.
use bitmarkd.Common.{
  ℕ, ◌+◌, ◌%◌, ◌<◌, ◌^◌, ◌≡◌, refl, sym, ap, subst, ◌∙◌, arith, Bool, true, false, List, ◌∷◌, ◌++◌,
  length, replicate, Option, none, some, inl, inr, bytes_eq, if◌then◌else◌,
}
use bitmarkd.Go.{ok, ◌>>=◌}
use bitmarkd.Go.Binary.{be_bytes, be_value, length-be_bytes, be_value-be_bytes}
use bitmarkd.Account.{Account, account_bytes}
use bitmarkd.Storage.External.{External, IsExternal}
use bitmarkd.Storage.Access.{AccessData}
use bitmarkd.Storage.View.{Tracks, put-Tracks, delete-Tracks}
use bitmarkd.Storage.Handle.{
  handle_put, handle_remove, handle_get, owner_next_count, shares, share_quantity,
}
use bitmarkd.Storage.Final.{final, get-NotDeleted, NotDeleted, NotDeleted-put, NotDeleted-delete}
use bitmarkd.Ownership.Data.{OwnerData, pack_owner_data}
use bitmarkd.Ownership.Transfer.{
  next_count, counted_from, create, add_entry, delete_entry, add_share,
}
use bitmarkd.Ownership.Index.{
  IsIndexed, set_at, count_at, add-IsIndexed, remove-IsIndexed, set_at-same, set_at-eq-some,
  set_at-other, IsIndexed-eq,
}
use bitmarkd.Ownership.Entries.{
  counter, index_of, list_of, data_of, count_of, next_of, index_of-add_entry, list_of-add_entry,
  count_of-add_entry, data_of-add_entry, index_of-delete_entry, list_of-delete_entry,
  count_of-delete_entry, index_of-add_share, list_of-add_share, count_of-add_share,
  shares-add_entry, share_quantity-add_entry,
}
use mathlib.Core.Path.{fun_ext}

module _ {x : External} where
  -- The cache holds what the batch did, the counters of the owners are of 8 bytes and are never
  -- deleted, and the two indexes agree.
  pub record IsOwnership (d : AccessData x) : Type 0 where
    pub tracks : Tracks d
    pub counted : (owner : List ℕ) → NotDeleted (owner_next_count ∷ owner) d
    pub counter_size : (owner count : List ℕ) → count_of d owner ≡ some count → length count ≡ 8
    pub indexed : IsIndexed (index_of d) (list_of d) (next_of d)

  -- A transaction is in both indexes of an owner under one count.
  abbrev pub Owns : List ℕ → List ℕ → AccessData x → Type 0
  Owns owner tx_id d =
      (count : List ℕ) × (index_of d (owner ++ tx_id) ≡ some count)
      × (list_of d (owner ++ count) ≡ some tx_id)

  -- What a successful create makes of the state.
  pub record Created (tx_id : List ℕ) (data' : OwnerData) (owner : List ℕ) (d d' : AccessData x)
      : Type 0 where
    pub valid : IsOwnership d'
    pub owned : Owns owner tx_id d'
    pub stored : data_of d' tx_id ≡ some (pack_owner_data data')
    pub counted_on : next_of d' owner ≡ next_of d owner + 1
    pub total : (key : List ℕ) → final (shares ∷ key) d' ≡ final (shares ∷ key) d
    pub balance : (key : List ℕ) → final (share_quantity ∷ key) d' ≡ final (share_quantity ∷ key) d
    pub others :
        (key : List ℕ) → bytes_eq (owner ++ tx_id) key ≡ false → index_of d' key ≡ index_of d key
    pub other_data : (key : List ℕ) → bytes_eq tx_id key ≡ false → data_of d' key ≡ data_of d key

counter-if :
    (test : Bool) (a b : Option (List ℕ))
    → counter (if test then a else b) ≡ (if test then counter a else counter b)
counter-if true a b = refl
counter-if false a b = refl

counter-set_at :
    (owner count o : List ℕ) (f : List ℕ → Option (List ℕ))
    → counter (set_at owner (some count) f o)
      ≡ count_at owner (be_value count) (λ k. counter (f k)) o
counter-set_at owner count o f = counter-if (bytes_eq owner o) (some count) (f o)

next_value :
    (count next : ℕ)
    → count ≡ next
    → next + 1 < 2 ^ 64
    → be_value (be_bytes 8 ((count + 1) % 2 ^ 64)) ≡ next + 1
next_value count next e h =
    be_value-be_bytes 8 ((count + 1) % 2 ^ 64) (omega arith) ∙ omega (arith, e, h)

-- What create makes of the counter that it finds.
used_count :
    (found : Option (List ℕ))
    → ((count : List ℕ) → found ≡ some count → length count ≡ 8)
    → (count : List ℕ) × (counted_from found ≡ ok count)
      × (length count ≡ 8)
      × (be_value count ≡ counter found)
unfolding be_value
used_count none h = (replicate 8 0, refl, refl, refl)
used_count (some count) h = (count, ground (arith, h count refl), h count refl, refl)

module _ {x : External} (laws : IsExternal x) where
  next_count-IsOwnership :
      (d : AccessData x) (owner : List ℕ)
      → IsOwnership d
      → (count : List ℕ) × (next_count owner d ≡ ok count)
        × (length count ≡ 8)
        × (be_value count ≡ next_of d owner)
  unfolding next_count handle_get be_value
  next_count-IsOwnership d owner v =
      let read = get-NotDeleted laws d (owner_next_count ∷ owner) v.tracks (v.counted owner) in
      subst
        (λ found.
          (count : List ℕ) × (counted_from found ≡ ok count)
          × (length count ≡ 8)
          × (be_value count ≡ next_of d owner))
        (sym read) (used_count (count_of d owner) (v.counter_size owner))

  add_entry-IsOwnership :
      (tx_id : List ℕ) (data' : OwnerData) (owner count : List ℕ) (d : AccessData x)
      → IsOwnership d
      → length tx_id ≡ 32
      → index_of d (owner ++ tx_id) ≡ none
      → length count ≡ 8
      → be_value count ≡ next_of d owner
      → next_of d owner + 1 < 2 ^ 64
      → IsOwnership (add_entry tx_id data' owner count d)
  unfolding add_entry handle_put
  add_entry-IsOwnership tx_id data' owner count d v size fresh size_c is_next room = record {
    tracks =
        put-Tracks laws _ _ _
          (put-Tracks laws _ _ _ (put-Tracks laws _ _ _ (put-Tracks laws _ _ _ v.tracks)));
    counted = λ o.
        NotDeleted-put _ _ _ _
          (NotDeleted-put _ _ _ _ (NotDeleted-put _ _ _ _ (NotDeleted-put _ _ _ _ (v.counted o))));
    counter_size = λ o c at.
        elim (set_at-eq-some owner o (some (be_bytes 8 ((be_value count + 1) % 2 ^ 64)))
          (count_of d) c
          (sym (ap (λ f. f o) (count_of-add_entry tx_id data' owner count d)) ∙ at)) [
            | inl (e, w) ↦
                let same : be_bytes 8 ((be_value count + 1) % 2 ^ 64) ≡ c = cc in
                ap length (sym same) ∙ length-be_bytes 8 _
            | inr (e, old) ↦ v.counter_size o c old
          ];
    indexed =
        IsIndexed-eq _ _ _ _ _ _ (index_of-add_entry tx_id data' owner count d)
          (list_of-add_entry tx_id data' owner count d)
          (fun_ext λ o.
            ap counter (ap (λ f. f o) (count_of-add_entry tx_id data' owner count d))
            ∙ counter-set_at owner (be_bytes 8 ((be_value count + 1) % 2 ^ 64)) o (count_of d)
            ∙ ap (λ n. count_at owner n (next_of d) o)
                (next_value (be_value count) (next_of d owner) is_next room))
          (add-IsIndexed v.indexed owner tx_id count size fresh size_c is_next);
  }

  pub delete_entry-IsOwnership :
      (tx_id owner count : List ℕ) (d : AccessData x)
      → IsOwnership d
      → length tx_id ≡ 32
      → index_of d (owner ++ tx_id) ≡ some count
      → IsOwnership (delete_entry tx_id owner count d)
  unfolding delete_entry handle_remove
  delete_entry-IsOwnership tx_id owner count d v size at = record {
    tracks = delete-Tracks laws _ _ (delete-Tracks laws _ _ (delete-Tracks laws _ _ v.tracks));
    counted = λ o.
        NotDeleted-delete _ _ _ refl
          (NotDeleted-delete _ _ _ refl (NotDeleted-delete _ _ _ refl (v.counted o)));
    counter_size = λ o c found.
        v.counter_size o c
          (sym (ap (λ f. f o) (count_of-delete_entry tx_id owner count d)) ∙ found);
    indexed =
        IsIndexed-eq _ _ _ _ _ _ (index_of-delete_entry tx_id owner count d)
          (list_of-delete_entry tx_id owner count d)
          (ap (λ f o. counter (f o)) (count_of-delete_entry tx_id owner count d))
          (remove-IsIndexed v.indexed owner tx_id count size at);
  }

  pub add_share-IsOwnership :
      (share_id tx_id owner : List ℕ) (quantity : ℕ) (d : AccessData x)
      → IsOwnership d
      → IsOwnership (add_share share_id tx_id owner quantity d)
  unfolding add_share handle_put
  add_share-IsOwnership share_id tx_id owner quantity d v = record {
    tracks = put-Tracks laws _ _ _ (put-Tracks laws _ _ _ v.tracks);
    counted = λ o. NotDeleted-put _ _ _ _ (NotDeleted-put _ _ _ _ (v.counted o));
    counter_size = λ o c found.
        v.counter_size o c
          (sym (ap (λ f. f o) (count_of-add_share share_id tx_id owner quantity d)) ∙ found);
    indexed =
        IsIndexed-eq _ _ _ _ _ _ (index_of-add_share share_id tx_id owner quantity d)
          (list_of-add_share share_id tx_id owner quantity d)
          (ap (λ f o. counter (f o)) (count_of-add_share share_id tx_id owner quantity d))
          v.indexed;
  }

  -- From a state with the invariant, create with a transaction of 32 bytes that the owner does not
  -- have, below the last count, returns without an error a state that Created describes: the
  -- invariant holds, the owner has the transaction in both indexes, its owner data is the packed
  -- data, the next count of the owner is one more, and no other entry of OwnerTxIndex, no other
  -- owner data and no share is changed.
  pub create-IsOwnership :
      (tx_id : List ℕ) (data' : OwnerData) (owner : Account) (d : AccessData x)
      → IsOwnership d
      → length tx_id ≡ 32
      → index_of d (account_bytes owner ++ tx_id) ≡ none
      → next_of d (account_bytes owner) + 1 < 2 ^ 64
      → (d' : AccessData x) × (create tx_id data' owner d ≡ ok d')
        × Created tx_id data' (account_bytes owner) d d'
  unfolding create
  create-IsOwnership tx_id data' owner d v size fresh room =
      let o = account_bytes owner in
      let (count, read, size_c, is_next) = next_count-IsOwnership d o v in
      let next' = some (be_bytes 8 ((be_value count + 1) % 2 ^ 64)) in
      let index' = index_of-add_entry tx_id data' o count d in
      let data'' = data_of-add_entry tx_id data' o count d in
      (
        add_entry tx_id data' o count d,
        ap (λ r. r >>= λ c. ok (add_entry tx_id data' o c d)) read,
        record {
          valid = add_entry-IsOwnership tx_id data' o count d v size fresh size_c is_next room;
          owned = (
            count,
            ap (λ f. f (o ++ tx_id)) index'
                ∙ set_at-same (o ++ tx_id) (o ++ tx_id) (some count) (index_of d) refl,
            ap (λ f. f (o ++ count)) (list_of-add_entry tx_id data' o count d)
                ∙ set_at-same (o ++ count) (o ++ count) (some tx_id) (list_of d) refl,
          );
          stored =
              ap (λ f. f tx_id) data''
              ∙ set_at-same tx_id tx_id (some (pack_owner_data data')) (data_of d) refl;
          counted_on =
              ap counter (
                ap (λ f. f o) (count_of-add_entry tx_id data' o count d)
                ∙ set_at-same o o next' (count_of d) refl)
              ∙ next_value (be_value count) (next_of d o) is_next room;
          total = shares-add_entry tx_id data' o count d;
          balance = share_quantity-add_entry tx_id data' o count d;
          others = λ k other.
              ap (λ f. f k) index' ∙ set_at-other (o ++ tx_id) k (some count) (index_of d) other;
          other_data = λ k other.
              ap (λ f. f k) data''
              ∙ set_at-other tx_id k (some (pack_owner_data data')) (data_of d) other;
        },
      )
