-- ===== src/Storage/View.antt =====
-- What is read during a transaction and after it.
use bitmarkd.Common.{
  ℕ, ◌≡◌, refl, sym, ap, ◌∙◌, subst, arith, Bool, true, false, List, [], ◌∷◌, ◌++◌, Option, none,
  some, bytes_eq, if◌then◌else◌,
}
use bitmarkd.Fault.{Fault}
use bitmarkd.Go.{ok, err, >>=-eq-ok, ok-injective}
use bitmarkd.Storage.External.{
  External, IsExternal, Op, put_op, delete_op, CacheData, cached_put, cached_delete, replay,
}
use bitmarkd.Storage.Access.{
  AccessData, begin, put, delete, commit, abort, get, get_from_cache, cached_value, or_else,
}
use bitmarkd.Storage.Handle.{transaction_commit}

-- What the batch did last to a key.
abbrev pub last_op : List Op → List ℕ → Option CacheData → Option CacheData
last_op [] key seen = seen
last_op (put_op k value ∷ ops) key seen =
    last_op ops key (if bytes_eq k key then some (cached_put value) else seen)
last_op (delete_op k ∷ ops) key seen =
    last_op ops key (if bytes_eq k key then some cached_delete else seen)

pub last_op-append :
    (ops more : List Op) (key : List ℕ) (seen : Option CacheData)
    → last_op (ops ++ more) key seen ≡ last_op more key (last_op ops key seen)
last_op-append [] more key seen = refl
last_op-append (put_op k v ∷ ops) more key seen = last_op-append ops more key _
last_op-append (delete_op k ∷ ops) more key seen = last_op-append ops more key _

-- The value that a transaction is to leave at a key.
abbrev pub outcome : Option CacheData → Option (List ℕ) → Option (List ℕ)
outcome none old = old
outcome (some (cached_put value)) old = some value
outcome (some cached_delete) old = none

replay-last_op :
    (ops : List Op) (key : List ℕ) (seen : Option CacheData) (old : Option (List ℕ))
    → replay ops key (outcome seen old) ≡ outcome (last_op ops key seen) old
replay-last_op [] key seen old = refl
replay-last_op (put_op k v ∷ ops) key seen old =
    ground
      (arith, replay-last_op ops key seen old, replay-last_op ops key (some (cached_put v)) old)
replay-last_op (delete_op k ∷ ops) key seen old =
    ground (arith, replay-last_op ops key seen old, replay-last_op ops key (some cached_delete) old)

pub else-ok {ℓ} :
    {A : Type ℓ} (test : Bool) (fault : Fault) (value : A) {last : A}
    → (if test then err fault else ok value) ≡ ok last
    → value ≡ last
else-ok true fault value h = cc
else-ok false fault value h = cc

some-ok {ℓ κ} :
    {A : Type ℓ} {B : Type κ} (found : Option A) (next : A → B) (fault : Fault) {last : B}
    → elim found [ none ↦ err fault | some value ↦ ok (next value) ] ≡ ok last
    → (value : A) × (found ≡ some value) × (next value ≡ last)
some-ok none next fault h = cc
some-ok (some value) next fault h = (value, refl, ok-injective h)

module _ {x : External} where
  -- The cache holds what the batch did last to each key.
  abbrev pub Tracks : AccessData x → Type 0
  Tracks d = (key : List ℕ) → x.cache_get key d.cache ≡ last_op d.batch key none

  -- The operations of a transaction. That an entry of the cache expires is none of them.
  pub data Step : AccessData x → AccessData x → Type 0 where
    step_begin : {d d' : AccessData x} → begin d ≡ ok d' → Step d d'
    step_put : {d : AccessData x} (key value : List ℕ) → Step d (put key value d)
    step_delete : {d : AccessData x} (key : List ℕ) → Step d (delete key d)
    step_commit : {d d' : AccessData x} → transaction_commit d ≡ ok d' → Step d d'
    step_abort : {d : AccessData x} → Step d (abort d)

  pub data Reach (start : AccessData x) : AccessData x → Type 0 where
    here : Reach start start
    next : {d d' : AccessData x} → Reach start d → Step d d' → Reach start d'

module _ {x : External} (laws : IsExternal x) where
  pub put-Tracks : (key value : List ℕ) (d : AccessData x) → Tracks d → Tracks (put key value d)
  unfolding put
  put-Tracks key value d h k =
      laws.cache_get-set key k (cached_put value) d.cache
      ∙ ap (λ (c : Option CacheData). if bytes_eq key k then some (cached_put value) else c) (h k)
      ∙ sym (last_op-append d.batch (put_op key value ∷ []) k none)

  pub delete-Tracks : (key : List ℕ) (d : AccessData x) → Tracks d → Tracks (delete key d)
  unfolding delete
  delete-Tracks key d h k =
      laws.cache_get-set key k cached_delete d.cache
      ∙ ap (λ (c : Option CacheData). if bytes_eq key k then some cached_delete else c) (h k)
      ∙ sym (last_op-append d.batch (delete_op key ∷ []) k none)

  pub abort-Tracks : (d : AccessData x) → Tracks (abort d)
  unfolding abort
  abort-Tracks d k = laws.cache_get-flush k d.cache

  begin-Tracks : (d d' : AccessData x) → begin d ≡ ok d' → Tracks d → Tracks d'
  unfolding begin
  begin-Tracks d d' e h = subst Tracks (else-ok _ _ _ e) h

  pub commit-Tracks : (d d' : AccessData x) → transaction_commit d ≡ ok d' → Tracks d'
  unfolding transaction_commit commit
  commit-Tracks d d' e =
      let r = >>=-eq-ok (commit d) (λ c. ok (abort c)) e in
      subst Tracks (ok-injective r.2) (abort-Tracks r.0)

  Step-Tracks : {d d' : AccessData x} → Step d d' → Tracks d → Tracks d'
  Step-Tracks (step_begin e) h = begin-Tracks _ _ e h
  Step-Tracks (step_put key value) h = put-Tracks key value _ h
  Step-Tracks (step_delete key) h = delete-Tracks key _ h
  Step-Tracks (step_commit e) h = commit-Tracks _ _ e
  Step-Tracks step_abort h = abort-Tracks _

  -- From a transaction whose cache holds what its batch did last to each key, every sequence of
  -- operations (begin, put, delete, commit and abort) during which no entry of the cache expires
  -- leads to a state in which it does again.
  pub Reach-Tracks : {start d : AccessData x} → Reach start d → Tracks start → Tracks d
  Reach-Tracks here h = h
  Reach-Tracks (next r s) h = Step-Tracks s (Reach-Tracks r h)

  pub get-last_op :
      (d : AccessData x)
      → Tracks d
      → (key : List ℕ)
      → get key d ≡ or_else (cached_value (last_op d.batch key none)) (x.db_get key d.db)
  unfolding get get_from_cache
  get-last_op d h key = ap (λ c. or_else (cached_value c) (x.db_get key d.db)) (h key)

  pub get-abort : (d : AccessData x) (key : List ℕ) → get key (abort d) ≡ x.db_get key d.db
  unfolding abort
  get-abort d key = get-last_op (abort d) (abort-Tracks d) key

  commit-db_write :
      (d d' : AccessData x)
      → commit d ≡ ok d'
      → (db' : x.Db) × (x.db_write d.batch d.db ≡ some db') × (d'.db ≡ db')
  unfolding commit
  commit-db_write d d' e =
      let w = some-ok (x.db_write d.batch d.db) (λ db'. record d { db = db' }) _ e in
      (w.0, w.1, sym (ap (λ c. c.db) w.2))

  -- After a commit that reports no error, a key has the value that the last operation of the
  -- transaction on it left, none after a delete, and the value of the database before the
  -- transaction when it did not touch the key.
  pub get-transaction_commit :
      (d d' : AccessData x)
      → transaction_commit d ≡ ok d'
      → (key : List ℕ) → get key d' ≡ outcome (last_op d.batch key none) (x.db_get key d.db)
  unfolding transaction_commit
  get-transaction_commit d d' e key =
      let r = >>=-eq-ok (commit d) (λ c. ok (abort c)) e in
      let w = commit-db_write d r.0 r.1 in
      ap (get key) (sym (ok-injective r.2))
      ∙ get-abort r.0 key
      ∙ ap (x.db_get key) w.2
      ∙ laws.db_get-write d.batch d.db w.0 key w.1
      ∙ replay-last_op d.batch key none (x.db_get key d.db)
