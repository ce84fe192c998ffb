-- ===== src/Storage/Agree.antt =====
-- How what a transaction reads compares with what stands in the database after its commit.
use bitmarkd.Common.{
  ℕ, ◌<◌, ◌^◌, ◌≡◌, ◌≢◌, refl, sym, ap, ◌∙◌, List, [], ◌∷◌, length, take, ltb, whole_take, Option,
  none, some, bytes_eq_refl, if◌then◌else◌,
}
use bitmarkd.Go.{ok, panicked}
use bitmarkd.Go.Binary.{be_bytes, be_value, length-be_bytes, be_value-be_bytes}
use bitmarkd.Storage.External.{
  External, IsExternal, CacheData, delete_op, cached_put, cached_delete,
}
use bitmarkd.Storage.Access.{AccessData, put, delete, get, get_from_cache, cached_value, or_else}
use bitmarkd.Storage.Handle.{transaction_commit, handle_put, handle_put_n, handle_get, handle_get_n}
use bitmarkd.Storage.View.{
  Tracks, last_op, outcome, get-last_op, get-transaction_commit, last_op-append,
}

pub or_else-outcome :
    (c : Option CacheData) (old : Option (List ℕ))
    → c ≢ some cached_delete
    → outcome c old ≡ or_else (cached_value c) old
or_else-outcome none old h = refl
or_else-outcome (some (cached_put value)) old h = refl
or_else-outcome (some cached_delete) old h = elim (h refl) [ ]

module _ {x : External} (laws : IsExternal x) where
  set_get :
      (data' : CacheData) (key : List ℕ) (cache : x.Cache)
      → x.cache_get key (x.cache_set key data' cache) ≡ some data'
  set_get data' key cache =
      laws.cache_get-set key key data' cache
      ∙ ap (λ t. if t then some data' else x.cache_get key cache) (bytes_eq_refl key)

  -- In a transaction whose cache holds what its batch did last to each key, so that no entry of it
  -- has expired, a key whose last operation is not a delete (a put of it, or none at all) is read
  -- as it is read after the commit, when the commit reports no error.
  pub get-agrees :
      (d d' : AccessData x)
      → Tracks d
      → transaction_commit d ≡ ok d'
      → (key : List ℕ) → last_op d.batch key none ≢ some cached_delete
      → get key d ≡ get key d'
  get-agrees d d' tracks e key h =
      get-last_op laws d tracks key
      ∙ sym (or_else-outcome (last_op d.batch key none) (x.db_get key d.db) h)
      ∙ sym (get-transaction_commit laws d d' e key)

  get-put : (key value : List ℕ) (d : AccessData x) → get key (put key value d) ≡ some value
  unfolding get get_from_cache put
  get-put key value d =
      ap (λ c. or_else (cached_value c) (x.db_get key d.db))
        (set_get (cached_put value) key d.cache)

  -- A key that the transaction deleted last is still read in the transaction with the value that the
  -- database has for it, and is not found after the commit, when the commit reports no error.
  pub get-delete :
      (key : List ℕ) (d d' : AccessData x)
      → transaction_commit (delete key d) ≡ ok d'
      → (get key (delete key d) ≡ x.db_get key d.db) × (get key d' ≡ none)
  unfolding get get_from_cache delete
  get-delete key d d' e = (
    ap (λ c. or_else (cached_value c) (x.db_get key d.db)) (set_get cached_delete key d.cache),
    get-transaction_commit laws (delete key d) d' e key
        ∙ ap (λ c. outcome c (x.db_get key d.db))
            (last_op-append d.batch (delete_op key ∷ []) key none
              ∙ ap (λ t. if t then some cached_delete else last_op d.batch key none)
                  (bytes_eq_refl key)),
  )

  -- A number of 64 bits that is put is read back, by the same handle under the same key.
  pub handle_get_n-handle_put_n :
      (prefix : ℕ) (key : List ℕ) (value : ℕ) (d : AccessData x)
      → value < 2 ^ 64
      → handle_get_n prefix key (handle_put_n prefix key value d) ≡ ok (some value)
  unfolding handle_get_n handle_put_n handle_put handle_get
  handle_get_n-handle_put_n prefix key value d h =
      ap
        (λ (found : Option (List ℕ)). elim found [
          | none ↦ ok none
          | some buffer ↦
              if ltb (length buffer) 8 then panicked else ok (some (be_value (take 8 buffer)))
        ])
        (get-put (prefix ∷ key) (be_bytes 8 value) d)
      ∙ rw
          (
            length-be_bytes 8 value,
            whole_take 8 (be_bytes 8 value) (length-be_bytes 8 value),
            be_value-be_bytes 8 value h,
          )
          refl
