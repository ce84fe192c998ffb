-- ===== src/Storage/Final.antt =====
-- What a commit of a transaction is to leave at each key.
use bitmarkd.Common.{
  ℕ, ◌≡◌, ◌≢◌, refl, sym, ap, ◌∙◌, List, [], ◌∷◌, Option, none, some, bytes_eq, if◌then◌else◌, Bool,
  true, false,
}
use bitmarkd.Storage.External.{
  External, IsExternal, CacheData, cached_put, cached_delete, put_op, delete_op,
}
use bitmarkd.Storage.Access.{AccessData, put, delete, get, or_else, cached_value}
use bitmarkd.Storage.Agree.{or_else-outcome}
use bitmarkd.Storage.View.{Tracks, last_op, last_op-append, outcome, get-last_op}

outcome-if :
    (test : Bool) (a b : Option CacheData) (old : Option (List ℕ))
    → outcome (if test then a else b) old ≡ (if test then outcome a old else outcome b old)
outcome-if true a b old = refl
outcome-if false a b old = refl

outcome-some :
    (c : Option CacheData) (old : Option (List ℕ)) (value : List ℕ)
    → outcome c old ≡ some value
    → or_else (cached_value c) old ≡ some value
outcome-some none old value h = h
outcome-some (some (cached_put v)) old value h = h
outcome-some (some cached_delete) old value h = cc

put-≢ :
    (test : Bool) (value : List ℕ) (c : Option CacheData)
    → c ≢ some cached_delete
    → (if test then some (cached_put value) else c) ≢ some cached_delete
put-≢ true value c h e = cc
put-≢ false value c h e = h e

module _ {x : External} where
  abbrev pub final : List ℕ → AccessData x → Option (List ℕ)
  final key d = outcome (last_op d.batch key none) (x.db_get key d.db)

  -- The transaction's last operation on the key is not a delete.
  abbrev pub NotDeleted : List ℕ → AccessData x → Type 0
  NotDeleted key d = last_op d.batch key none ≢ some cached_delete

  pub final-put :
      (k value key : List ℕ) (d : AccessData x)
      → final key (put k value d) ≡ (if bytes_eq k key then some value else final key d)
  unfolding put
  final-put k value key d =
      ap (λ c. outcome c (x.db_get key d.db))
        (last_op-append d.batch (put_op k value ∷ []) key none)
      ∙ outcome-if (bytes_eq k key) _ _ _

  pub final-delete :
      (k key : List ℕ) (d : AccessData x)
      → final key (delete k d) ≡ (if bytes_eq k key then none else final key d)
  unfolding delete
  final-delete k key d =
      ap (λ c. outcome c (x.db_get key d.db)) (last_op-append d.batch (delete_op k ∷ []) key none)
      ∙ outcome-if (bytes_eq k key) _ _ _

  pub NotDeleted-put :
      (k value key : List ℕ) (d : AccessData x) → NotDeleted key d → NotDeleted key (put k value d)
  unfolding put
  NotDeleted-put k value key d h e =
      put-≢ (bytes_eq k key) value _ h
        (sym (last_op-append d.batch (put_op k value ∷ []) key none) ∙ e)

  pub NotDeleted-delete :
      (k key : List ℕ) (d : AccessData x)
      → bytes_eq k key ≡ false
      → NotDeleted key d
      → NotDeleted key (delete k d)
  unfolding delete
  NotDeleted-delete k key d other h e = h (
      sym (ap (λ t. if t then some cached_delete else last_op d.batch key none) other)
      ∙ sym (last_op-append d.batch (delete_op k ∷ []) key none)
      ∙ e)

  pub get-NotDeleted :
      IsExternal x
      → (d : AccessData x) (key : List ℕ) → Tracks d
      → NotDeleted key d
      → get key d ≡ final key d
  get-NotDeleted laws d key tracks h =
      get-last_op laws d tracks key
      ∙ sym (or_else-outcome (last_op d.batch key none) (x.db_get key d.db) h)

  pub get-final :
      IsExternal x
      → (d : AccessData x) (key value : List ℕ) → Tracks d
      → final key d ≡ some value
      → get key d ≡ some value
  get-final laws d key value tracks e =
      get-last_op laws d tracks key
      ∙ outcome-some (last_op d.batch key none) (x.db_get key d.db) value e
