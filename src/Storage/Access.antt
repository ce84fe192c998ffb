-- ===== src/Storage/Access.antt =====
-- storage/access.go and storage/cache.go: AccessData, one database with its batch and its cache.
use bitmarkd.Common.{ℕ, Bool, true, false, List, [], ◌∷◌, ◌++◌, Option, none, some, if◌then◌else◌}
use bitmarkd.Fault.{batch_already_in_use, database_write_failed}
use bitmarkd.Go.{Result, ok, err}
use bitmarkd.Storage.External.{
  External, Op, put_op, delete_op, CacheData, cached_put, cached_delete,
}

pub record AccessData (x : External) : Type 0 where
  pub in_use : Bool
  pub db : x.Db
  pub batch : List Op
  pub cache : x.Cache

-- dbCache.Get: the value of a cached put; a cached delete is not found.
abbrev pub cached_value : Option CacheData → Option (List ℕ)
cached_value none = none
cached_value (some (cached_put value)) = some value
cached_value (some cached_delete) = none

abbrev pub or_else : Option (List ℕ) → Option (List ℕ) → Option (List ℕ)
or_else none other = other
or_else (some value) other = some value

abbrev pub is_some : Option (List ℕ) → Bool
is_some none = false
is_some (some value) = true

module _ {x : External} where
  unfoldable pub begin : AccessData x → Result (AccessData x)
  begin d = if d.in_use then err batch_already_in_use else ok (record d { in_use = true })

  unfoldable pub put : List ℕ → List ℕ → AccessData x → AccessData x
  put key value d = record d {
    cache = x.cache_set key (cached_put value) d.cache;
    batch = d.batch ++ (put_op key value ∷ []);
  }

  unfoldable pub delete : List ℕ → AccessData x → AccessData x
  delete key d = record d {
    cache = x.cache_set key cached_delete d.cache;
    batch = d.batch ++ (delete_op key ∷ []);
  }

  -- The batch stays until Abort.
  unfoldable pub commit : AccessData x → Result (AccessData x)
  commit d = elim (x.db_write d.batch d.db) [
    | none ↦ err database_write_failed
    | some db' ↦ ok (record d { db = db' })
  ]

  unfoldable pub abort : AccessData x → AccessData x
  abort d = record d { batch = []; cache = x.cache_flush d.cache; in_use = false }

  unfoldable pub get_from_cache : List ℕ → AccessData x → Option (List ℕ)
  get_from_cache key d = cached_value (x.cache_get key d.cache)

  -- AccessData.Get, where none is leveldb.ErrNotFound.
  unfoldable pub get : List ℕ → AccessData x → Option (List ℕ)
  unfolding get_from_cache
  get key d = or_else (get_from_cache key d) (x.db_get key d.db)

  -- AccessData.Has; the database has a key that it gets a value for.
  unfoldable pub has : List ℕ → AccessData x → Bool
  unfolding get_from_cache
  has key d = if is_some (get_from_cache key d) then true else is_some (x.db_get key d.db)
