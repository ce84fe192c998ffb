-- ===== src/Storage/External.antt =====
-- What the package storage takes from goleveldb and from go-cache.
use bitmarkd.Common.{ℕ, ◌≡◌, List, [], ◌∷◌, Option, none, some, bytes_eq, if◌then◌else◌}

-- The operations that leveldb.Batch records, in their order.
pub data Op : Type 0 where
  put_op : List ℕ → List ℕ → Op
  delete_op : List ℕ → Op

-- storage/cache.go: cacheData, with dbPut and dbDelete as its op.
pub data CacheData : Type 0 where
  cached_put : List ℕ → CacheData
  cached_delete : CacheData

-- A database and a cache. A write may fail: then there is no new database.
pub record External : Type 1 where
  pub Db : Type 0
  pub db_get : List ℕ → Db → Option (List ℕ)
  pub db_write : List Op → Db → Option Db
  pub Cache : Type 0
  pub cache_get : List ℕ → Cache → Option CacheData
  pub cache_set : List ℕ → CacheData → Cache → Cache
  pub cache_flush : Cache → Cache
  -- The cache when the time of the entry of a key has run out; each entry has two minutes.
  pub cache_expire : List ℕ → Cache → Cache

-- What a batch makes of the value of a key.
abbrev pub replay : List Op → List ℕ → Option (List ℕ) → Option (List ℕ)
replay [] key old = old
replay (put_op k value ∷ ops) key old = replay ops key (if bytes_eq k key then some value else old)
replay (delete_op k ∷ ops) key old = replay ops key (if bytes_eq k key then none else old)

-- The documented behaviour: a write that does not fail applies the batch in its order; the cache
-- returns what was set last, until it is flushed, or the time of the entry runs out. That is an event
-- of its own, between two operations.
pub record IsExternal (x : External) : Type 0 where
  pub db_get-write :
      (ops : List Op) (db db' : x.Db) (key : List ℕ)
      → x.db_write ops db ≡ some db'
      → x.db_get key db' ≡ replay ops key (x.db_get key db)
  pub cache_get-set :
      (k key : List ℕ) (data' : CacheData) (cache : x.Cache)
      → x.cache_get key (x.cache_set k data' cache)
        ≡ (if bytes_eq k key then some data' else x.cache_get key cache)
  pub cache_get-flush :
      (key : List ℕ) (cache : x.Cache) → x.cache_get key (x.cache_flush cache) ≡ none
  pub cache_get-expire :
      (k key : List ℕ) (cache : x.Cache)
      → x.cache_get key (x.cache_expire k cache)
        ≡ (if bytes_eq k key then none else x.cache_get key cache)
