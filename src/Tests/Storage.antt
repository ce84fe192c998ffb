-- ===== src/Tests/Storage.antt =====
-- The transactions of the storage at concrete inputs, with functions for a database and a cache.
use bitmarkd.Common.{
  ℕ, ◌≡◌, ◌≢◌, ◌⊎◌, refl, sym, ap, arith, false, List, [], ◌∷◌, Option, none, some, bytes_eq,
  if◌then◌else◌,
}
use bitmarkd.Go.{ok}
use bitmarkd.Storage.External.{
  External, IsExternal, CacheData, cached_delete, replay, Op, put_op, delete_op,
}
use bitmarkd.Storage.Access.{AccessData, put, delete, get, commit, abort}
use bitmarkd.Storage.Handle.{transaction_commit, handle_put_n, handle_get_n}
use bitmarkd.Storage.View.{
  Tracks, here, next, step_put, step_delete, Reach-Tracks, get-transaction_commit, last_op,
}
use bitmarkd.Storage.Expiry.{expired, started, operated, expires, get-Run}
use bitmarkd.Storage.Agree.{get-agrees, get-delete, handle_get_n-handle_put_n}

abbrev pub maps : External
maps = record {
  Db = List ℕ → Option (List ℕ);
  db_get = λ key db. db key;
  db_write = λ ops db. some (λ key. replay ops key (db key));
  Cache = List ℕ → Option CacheData;
  cache_get = λ key cache. cache key;
  cache_set = λ k data' cache key. if bytes_eq k key then some data' else cache key;
  cache_flush = λ cache key. none;
  cache_expire = λ k cache key. if bytes_eq k key then none else cache key;
}

pub maps-IsExternal : IsExternal maps
maps-IsExternal = record {
  db_get-write = λ ops db db' key e.
      sym
        (ap (λ (d : Option (List ℕ → Option (List ℕ))). elim d [ none ↦ none | some f ↦ f key ]) e);
  cache_get-set = λ k key data' cache. refl;
  cache_get-flush = λ key cache. refl;
  cache_get-expire = λ k key cache. refl;
}

-- The database has 7 under the key 5.
abbrev stored : AccessData maps
stored = record {
  in_use = false;
  db = λ key. if bytes_eq key (5 ∷ []) then some (7 ∷ []) else none;
  batch = [];
  cache = λ key. none;
}

abbrev written : AccessData maps
written = put (6 ∷ []) (8 ∷ []) (delete (5 ∷ []) stored)

abbrev ops : List Op
ops = delete_op (5 ∷ []) ∷ put_op (6 ∷ []) (8 ∷ []) ∷ []

abbrev finished : AccessData maps
finished = record {
  in_use = false;
  db = λ key. replay ops key (stored.db key);
  batch = [];
  cache = λ key. none;
}

written_commits : transaction_commit written ≡ ok finished
unfolding transaction_commit commit abort put delete
written_commits = refl

stored-Tracks : Tracks stored
stored-Tracks key = refl

Reach-Tracks_example : Tracks (put (6 ∷ []) (8 ∷ []) (delete (5 ∷ []) stored))
Reach-Tracks_example =
    Reach-Tracks maps-IsExternal
      (next (next here (step_delete (5 ∷ []))) (step_put (6 ∷ []) (8 ∷ []))) stored-Tracks

get-transaction_commit_example : get (5 ∷ []) finished ≡ none
unfolding put delete
get-transaction_commit_example =
    get-transaction_commit maps-IsExternal written finished written_commits (5 ∷ [])

not_deleted : last_op written.batch (6 ∷ []) none ≢ some cached_delete
unfolding put delete
not_deleted h = cc

get-agrees_example : get (6 ∷ []) written ≡ get (6 ∷ []) finished
get-agrees_example =
    get-agrees maps-IsExternal written finished Reach-Tracks_example written_commits (6 ∷ [])
      not_deleted

abbrev deleted : AccessData maps
deleted = record finished { db = λ key. replay (delete_op (5 ∷ []) ∷ []) key (stored.db key) }

delete_commits : transaction_commit (delete (5 ∷ []) stored) ≡ ok deleted
unfolding transaction_commit commit abort delete
delete_commits = refl

-- The key 5 is read as 7 in the transaction that deleted it.
get-delete_example :
    (get (5 ∷ []) (delete (5 ∷ []) stored) ≡ some (7 ∷ [])) × (get (5 ∷ []) deleted ≡ none)
get-delete_example = get-delete maps-IsExternal (5 ∷ []) stored deleted delete_commits

handle_get_n-handle_put_n_example :
    handle_get_n b'N' (1 ∷ []) (handle_put_n b'N' (1 ∷ []) 300 stored) ≡ ok (some 300)
handle_get_n-handle_put_n_example =
    handle_get_n-handle_put_n maps-IsExternal b'N' (1 ∷ []) 300 stored (omega arith)

-- The key 6 was put as 8, and its entry expired; and then it is put again, and expires again.
get-Run_example :
    ((get (6 ∷ []) (expired (6 ∷ []) written) ≡ some (8 ∷ []))
      ⊎ (get (6 ∷ []) (expired (6 ∷ []) written) ≡ none))
    × (get (6 ∷ []) (expired (6 ∷ []) (put (6 ∷ []) (9 ∷ []) (expired (6 ∷ []) written))) ≡ none)
unfolding put delete
get-Run_example =
    get-Run maps-IsExternal stored (expired (6 ∷ []) written)
      (expires (operated (operated started (step_delete (5 ∷ []))) (step_put (6 ∷ []) (8 ∷ [])))
        (6 ∷ []))
      stored-Tracks (6 ∷ []) (9 ∷ [])
