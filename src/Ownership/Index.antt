-- ===== src/Ownership/Index.antt =====
-- The two indexes of the owned items, one by count and one by transaction, and their counters.
use bitmarkd.Common.{
  ℕ, ◌+◌, ◌<◌, ◌≡◌, refl, sym, ap, ap₂, subst, ◌∙◌, arith, true, false, List, [], ◌∷◌, ◌++◌, length,
  Option, none, some, bytes_eq, bytes_eq→eq, bytes_eq_refl, if◌then◌else◌, ◌⊎◌, length-append,
  Bool-cases, inl, inr,
}
use bitmarkd.Go.Binary.{be_value}

-- What stands at the keys `owner ++ tx_id` of OwnerTxIndex, at the keys `owner ++ count` of OwnerList,
-- and, as a number, at the keys `owner` of OwnerNextCount.
pub record IsIndexed (index list : List ℕ → Option (List ℕ)) (next : List ℕ → ℕ) : Type 0 where
  pub index_listed :
      (owner tx_id count : List ℕ)
      → length tx_id ≡ 32
      → index (owner ++ tx_id) ≡ some count
      → (length count ≡ 8) × (list (owner ++ count) ≡ some tx_id) × (be_value count < next owner)
  pub listed_index :
      (owner tx_id count : List ℕ)
      → length count ≡ 8
      → list (owner ++ count) ≡ some tx_id
      → (length tx_id ≡ 32) × (index (owner ++ tx_id) ≡ some count)

pub IsIndexed-eq :
    (index index' list list' : List ℕ → Option (List ℕ)) (next next' : List ℕ → ℕ)
    → index' ≡ index
    → list' ≡ list
    → next' ≡ next
    → IsIndexed index list next
    → IsIndexed index' list' next'
IsIndexed-eq index index' list list' next next' a b c h =
    subst (λ i. IsIndexed i list' next') (sym a)
      (subst (λ l. IsIndexed index l next') (sym b) (subst (λ n. IsIndexed index list n) (sym c) h))

append-eq-append :
    (xs ys t u : List ℕ) → xs ++ t ≡ ys ++ u → length t ≡ length u → (xs ≡ ys) × (t ≡ u)
append-eq-append [] [] t u e h = (refl, e)
append-eq-append [] (y ∷ ys) t u e h =
    let f : ⊥ = omega (arith, h, ap length e, length-append ys u) in elim f [ ]
append-eq-append (x ∷ xs) [] t u e h =
    let f : ⊥ = omega (arith, h, ap length e, length-append xs t) in elim f [ ]
append-eq-append (x ∷ xs) (y ∷ ys) t u e h =
    let head : x ≡ y = cc in
    let tail : xs ++ t ≡ ys ++ u = cc in let (a, b) = append-eq-append xs ys t u tail h in (cc, b)

-- A map of keys to values, with the value of one key replaced.
abbrev pub set_at : List ℕ → Option (List ℕ) → (List ℕ → Option (List ℕ)) → List ℕ → Option (List ℕ)
set_at key value f k = if bytes_eq key k then value else f k

pub bytes_eq-cases : (xs ys : List ℕ) → (xs ≡ ys) ⊎ (bytes_eq xs ys ≡ false)
bytes_eq-cases xs ys = elim (Bool-cases (bytes_eq xs ys)) [
  | inl e ↦ inl (bytes_eq→eq xs ys e)
  | inr e ↦ inr e
]

bytes_eq-≢ : (xs ys : List ℕ) → xs ≡ ys → bytes_eq xs ys ≡ false → ⊥
bytes_eq-≢ xs ys e h =
    let both : true ≡ false = sym (bytes_eq_refl xs) ∙ ap (bytes_eq xs) e ∙ h in cc

pub set_at-same :
    (key k : List ℕ) (value : Option (List ℕ)) (f : List ℕ → Option (List ℕ))
    → key ≡ k
    → set_at key value f k ≡ value
set_at-same key k value f e =
    ap (λ t. if t then value else f k) (ap (bytes_eq key) (sym e) ∙ bytes_eq_refl key)

pub set_at-other :
    (key k : List ℕ) (value : Option (List ℕ)) (f : List ℕ → Option (List ℕ))
    → bytes_eq key k ≡ false
    → set_at key value f k ≡ f k
set_at-other key k value f e = ap (λ t. if t then value else f k) e

-- A key that has a value after the replacement has the new one, or is another key.
pub set_at-eq-some :
    (key k : List ℕ) (value : Option (List ℕ)) (f : List ℕ → Option (List ℕ)) (w : List ℕ)
    → set_at key value f k ≡ some w
    → ((key ≡ k) × (value ≡ some w)) ⊎ ((bytes_eq key k ≡ false) × (f k ≡ some w))
set_at-eq-some key k value f w h = elim (bytes_eq-cases key k) [
  | inl e ↦ inl (e, sym (set_at-same key k value f e) ∙ h)
  | inr e ↦ inr (e, sym (set_at-other key k value f e) ∙ h)
]

-- The counters, with the one of an owner replaced.
abbrev pub count_at : List ℕ → ℕ → (List ℕ → ℕ) → List ℕ → ℕ
count_at owner n next o = if bytes_eq owner o then n else next o

pub count_at-same :
    (owner o : List ℕ) (n : ℕ) (next : List ℕ → ℕ) → owner ≡ o → count_at owner n next o ≡ n
count_at-same owner o n next e =
    ap (λ t. if t then n else next o) (ap (bytes_eq owner) (sym e) ∙ bytes_eq_refl owner)

count_at-lt :
    (owner o : List ℕ) (n k : ℕ) (next : List ℕ → ℕ)
    → k < next o
    → next owner < n
    → k < count_at owner n next o
count_at-lt owner o n k next h up = elim (bytes_eq-cases owner o) [
  | inl e ↦
      let at : next o ≡ next owner = ap next (sym e) in
      rw (count_at-same owner o n next e) (omega (arith, h, at, up))
  | inr e ↦ rw (ap (λ t. if t then n else next o) e) h
]

module _ {index list : List ℕ → Option (List ℕ)} {next : List ℕ → ℕ}
    (indexed : IsIndexed index list next) (owner tx_id count : List ℕ) where
  -- The count that is next is in no entry of the list.
  unlisted :
      length count ≡ 8
      → be_value count ≡ next owner
      → (o t c : List ℕ) → length c ≡ 8
      → list (o ++ c) ≡ some t
      → bytes_eq (owner ++ count) (o ++ c) ≡ false
  unlisted size is_next o t c size' at = elim (bytes_eq-cases (owner ++ count) (o ++ c)) [
    | inl e ↦
        let (same_owner, same_count) = append-eq-append owner o count c e (size ∙ sym size') in
        let (size_t, at_index) = indexed.listed_index o t c size' at in
        let below = (indexed.index_listed o t c size_t at_index).2 in
        let f : ⊥ = omega (arith, below, is_next, ap be_value same_count, ap next same_owner) in
        elim f [ ]
    | inr e ↦ e
  ]

  -- A transaction that has no entry is in none.
  unindexed :
      index (owner ++ tx_id) ≡ none
      → (o t c : List ℕ) → index (o ++ t) ≡ some c
      → bytes_eq (owner ++ tx_id) (o ++ t) ≡ false
  unindexed fresh o t c at = elim (bytes_eq-cases (owner ++ tx_id) (o ++ t)) [
    | inl e ↦ let both : none ≡ some c = sym fresh ∙ ap index e ∙ at in cc
    | inr e ↦ e
  ]

  pub add-IsIndexed :
      length tx_id ≡ 32
      → index (owner ++ tx_id) ≡ none
      → length count ≡ 8
      → be_value count ≡ next owner
      → IsIndexed
          (set_at (owner ++ tx_id) (some count) index)
          (set_at (owner ++ count) (some tx_id) list)
          (count_at owner (next owner + 1) next)
  add-IsIndexed size fresh size_c is_next = record {
    index_listed = λ o t c size_t at.
        elim (set_at-eq-some (owner ++ tx_id) (o ++ t) (some count) index c at) [
          | inl (e, v) ↦
              let (a, b) = append-eq-append owner o tx_id t e (size ∙ sym size_t) in
              let same : count ≡ c = cc in
              (
                ap length (sym same) ∙ size_c,
                set_at-same (owner ++ count) (o ++ c) (some tx_id) list (ap₂ (λ u w. u ++ w) a same)
                    ∙ ap some b,
                rw (count_at-same owner o (next owner + 1) next a)
                    (omega (arith, is_next, ap be_value same)),
              )
          | inr (e, old) ↦
              let (size', at_list, below) = indexed.index_listed o t c size_t old in
              (
                size',
                set_at-other (owner ++ count) (o ++ c) (some tx_id) list
                      (unlisted size_c is_next o t c size' at_list)
                    ∙ at_list,
                count_at-lt owner o (next owner + 1) _ next below (omega arith),
              )
        ];
    listed_index = λ o t c size' at.
        elim (set_at-eq-some (owner ++ count) (o ++ c) (some tx_id) list t at) [
          | inl (e, v) ↦
              let (a, b) = append-eq-append owner o count c e (size_c ∙ sym size') in
              let same : tx_id ≡ t = cc in
              (
                ap length (sym same) ∙ size,
                set_at-same (owner ++ tx_id) (o ++ t) (some count) index
                      (ap₂ (λ u w. u ++ w) a same)
                    ∙ ap some b,
              )
          | inr (e, old) ↦
              let (size_t, at_index) = indexed.listed_index o t c size' old in
              (
                size_t,
                set_at-other (owner ++ tx_id) (o ++ t) (some count) index
                      (unindexed fresh o t c at_index)
                    ∙ at_index,
              )
        ];
  }

  -- The entries of the other transactions are at other keys.
  elsewhere_in_list :
      length tx_id ≡ 32
      → index (owner ++ tx_id) ≡ some count
      → (o t c : List ℕ) → length t ≡ 32
      → index (o ++ t) ≡ some c
      → length c ≡ 8
      → list (o ++ c) ≡ some t
      → bytes_eq (owner ++ tx_id) (o ++ t) ≡ false
      → bytes_eq (owner ++ count) (o ++ c) ≡ false
  elsewhere_in_list size at o t c size_t at_t size_c at_list other =
      elim (bytes_eq-cases (owner ++ count) (o ++ c)) [
        | inl e ↦
            let (size', listed, below) = indexed.index_listed owner tx_id count size at in
            let (a, b) = append-eq-append owner o count c e (size' ∙ sym size_c) in
            let both : some tx_id ≡ some t = sym listed ∙ ap list e ∙ at_list in
            let same : tx_id ≡ t = cc in
            elim (bytes_eq-≢ (owner ++ tx_id) (o ++ t) (ap₂ (λ u w. u ++ w) a same) other) [ ]
        | inr e ↦ e
      ]

  elsewhere_in_index :
      length tx_id ≡ 32
      → index (owner ++ tx_id) ≡ some count
      → (o t c : List ℕ) → length t ≡ 32
      → index (o ++ t) ≡ some c
      → bytes_eq (owner ++ count) (o ++ c) ≡ false
      → bytes_eq (owner ++ tx_id) (o ++ t) ≡ false
  elsewhere_in_index size at o t c size_t at_t other =
      elim (bytes_eq-cases (owner ++ tx_id) (o ++ t)) [
        | inl e ↦
            let (a, b) = append-eq-append owner o tx_id t e (size ∙ sym size_t) in
            let both : some count ≡ some c = sym at ∙ ap index e ∙ at_t in
            let same : count ≡ c = cc in
            elim (bytes_eq-≢ (owner ++ count) (o ++ c) (ap₂ (λ u w. u ++ w) a same) other) [ ]
        | inr e ↦ e
      ]

  pub remove-IsIndexed :
      length tx_id ≡ 32
      → index (owner ++ tx_id) ≡ some count
      → IsIndexed (set_at (owner ++ tx_id) none index) (set_at (owner ++ count) none list) next
  remove-IsIndexed size at = record {
    index_listed = λ o t c size_t at_t.
        elim (set_at-eq-some (owner ++ tx_id) (o ++ t) none index c at_t) [
          | inl (e, v) ↦ let both : none ≡ some c = v in cc
          | inr (e, old) ↦
              let (size', at_list, below) = indexed.index_listed o t c size_t old in
              (
                size',
                set_at-other (owner ++ count) (o ++ c) none list
                      (elsewhere_in_list size at o t c size_t old size' at_list e)
                    ∙ at_list,
                below,
              )
        ];
    listed_index = λ o t c size' at_c.
        elim (set_at-eq-some (owner ++ count) (o ++ c) none list t at_c) [
          | inl (e, v) ↦ let both : none ≡ some t = v in cc
          | inr (e, old) ↦
              let (size_t, at_index) = indexed.listed_index o t c size' old in
              (
                size_t,
                set_at-other (owner ++ tx_id) (o ++ t) none index
                      (elsewhere_in_index size at o t c size_t at_index e)
                    ∙ at_index,
              )
        ];
  }
