-- ===== src/Storage/Expiry.antt =====
-- What a transaction reads when entries of its cache expire: storage/cache.go sets each of them for
-- two minutes.
use bitmarkd.Common.{
  ℕ, ◌≡◌, refl, sym, ap, subst, true, false, Bool, [], ◌∷◌, ◌∙◌, ◌⊎◌, inl, inr, Bool-cases, List,
  Option, none, some, bytes_eq, bytes_eq_refl, if◌then◌else◌,
}
use bitmarkd.Go.{ok}
use bitmarkd.Storage.External.{
  External, IsExternal, CacheData, cached_put, cached_delete, put_op, delete_op,
}
use bitmarkd.Storage.Access.{
  AccessData, begin, put, delete, get, get_from_cache, cached_value, or_else,
}
use bitmarkd.Storage.View.{
  Tracks, Step, step_begin, step_put, step_delete, step_commit, step_abort, last_op, last_op-append,
  commit-Tracks, abort-Tracks, else-ok,
}

module _ {x : External} where
  -- The state when the entry of a key has expired.
  abbrev pub expired : List ℕ → AccessData x → AccessData x
  expired key d = record d { cache = x.cache_expire key d.cache }

  -- Operations, and entries that expire between them, in any order.
  pub data Run (start : AccessData x) : AccessData x → Type 0 where
    started : Run start start
    operated : {d d' : AccessData x} → Run start d → Step d d' → Run start d'
    expires : {d : AccessData x} → Run start d → (key : List ℕ) → Run start (expired key d)

  -- The cache has for each key what the batch did last to it, or nothing.
  abbrev pub Holds : AccessData x → Type 0
  Holds d =
      (key : List ℕ)
      → (x.cache_get key d.cache ≡ last_op d.batch key none) ⊎ (x.cache_get key d.cache ≡ none)

-- An operation that sets an entry, seen from any key.
hold_if :
    (t : Bool) (new a b : Option CacheData)
    → (a ≡ b) ⊎ (a ≡ none)
    → ((if t then new else a) ≡ (if t then new else b)) ⊎ ((if t then new else a) ≡ none)
hold_if true new a b h = inl refl
hold_if false new a b h = h

module _ {x : External} (laws : IsExternal x) where
  expired-Holds : (k : List ℕ) (d : AccessData x) → Holds d → Holds (expired k d)
  expired-Holds k d h key = elim (Bool-cases (bytes_eq k key)) [
    | inl e ↦ inr (
        laws.cache_get-expire k key d.cache
        ∙ ap (λ t. if t then none else x.cache_get key d.cache) e)
    | inr e ↦
        let same =
          laws.cache_get-expire k key d.cache
          ∙ ap (λ t. if t then none else x.cache_get key d.cache) e in
        elim (h key) [ inl held ↦ inl (same ∙ held) | inr gone ↦ inr (same ∙ gone) ]
  ]

  -- Where the batch has one operation more, and the cache its entry.
  set-Holds :
      (key k : List ℕ) (data' : CacheData) (d : AccessData x)
      → Holds d
      → (x.cache_get k (x.cache_set key data' d.cache)
          ≡ (if bytes_eq key k then some data' else last_op d.batch k none))
        ⊎ (x.cache_get k (x.cache_set key data' d.cache) ≡ none)
  set-Holds key k data' d h =
      let at = laws.cache_get-set key k data' d.cache in
      elim (hold_if (bytes_eq key k) (some data') (x.cache_get k d.cache) (last_op d.batch k none)
        (h k)) [ inl held ↦ inl (at ∙ held) | inr gone ↦ inr (at ∙ gone) ]

  put-Holds : (key value : List ℕ) (d : AccessData x) → Holds d → Holds (put key value d)
  unfolding put
  put-Holds key value d h k = elim (set-Holds key k (cached_put value) d h) [
    | inl held ↦ inl (held ∙ sym (last_op-append d.batch (put_op key value ∷ []) k none))
    | inr gone ↦ inr gone
  ]

  delete-Holds : (key : List ℕ) (d : AccessData x) → Holds d → Holds (delete key d)
  unfolding delete
  delete-Holds key d h k = elim (set-Holds key k cached_delete d h) [
    | inl held ↦ inl (held ∙ sym (last_op-append d.batch (delete_op key ∷ []) k none))
    | inr gone ↦ inr gone
  ]

  begin-Holds : (d d' : AccessData x) → begin d ≡ ok d' → Holds d → Holds d'
  unfolding begin
  begin-Holds d d' e h = subst Holds (else-ok d.in_use _ _ e) h

  Step-Holds : {d d' : AccessData x} → Step d d' → Holds d → Holds d'
  Step-Holds (step_begin e) h = begin-Holds _ _ e h
  Step-Holds (step_put key value) h = put-Holds key value _ h
  Step-Holds (step_delete key) h = delete-Holds key _ h
  Step-Holds (step_commit e) h = λ key. inl (commit-Tracks laws _ _ e key)
  Step-Holds step_abort h = λ key. inl (abort-Tracks laws _ key)

  Run-Holds : {start d : AccessData x} → Run start d → Holds start → Holds d
  Run-Holds started h = h
  Run-Holds (operated r s) h = Step-Holds s (Run-Holds r h)
  Run-Holds (expires {d = d} r key) h = expired-Holds key d (Run-Holds r h)

  get-expired :
      (key value : List ℕ) (d : AccessData x)
      → get key (expired key (put key value d)) ≡ x.db_get key d.db
  unfolding get get_from_cache put
  get-expired key value d =
      ap (λ c. or_else (cached_value c) (x.db_get key d.db))
        (laws.cache_get-expire key key (x.cache_set key (cached_put value) d.cache)
          ∙ ap
              (λ t.
                if t then none else x.cache_get key (x.cache_set key (cached_put value) d.cache))
              (bytes_eq_refl key))

  -- From a transaction whose cache holds what its batch did last to each key, after operations
  -- (begin, put, delete, commit and abort) and entries of the cache that expire, in any order, a
  -- key is read either as the batch's last operation on it says (the value of a put, and the
  -- database's where that is a delete or there is none), or as the database has it. After one more
  -- put of the key, whose entry then expires, it is read as the database has it, whatever was put.
  pub get-Run :
      (start d : AccessData x)
      → Run start d
      → Tracks start
      → (key value : List ℕ)
      → ((get key d ≡ or_else (cached_value (last_op d.batch key none)) (x.db_get key d.db))
          ⊎ (get key d ≡ x.db_get key d.db))
        × (get key (expired key (put key value d)) ≡ x.db_get key d.db)
  unfolding get get_from_cache
  get-Run start d r tracks key value =
      let read : Option CacheData → Option (List ℕ) =
        λ c. or_else (cached_value c) (x.db_get key d.db) in
      (
        elim (Run-Holds r (λ k. inl (tracks k)) key) [
          | inl held ↦ inl (ap read held)
          | inr gone ↦ inr (ap read gone)
        ],
        get-expired key value d,
      )
