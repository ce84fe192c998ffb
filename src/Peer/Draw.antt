-- ===== src/Peer/Draw.antt =====
-- Among whom a draw is decided.
use bitmarkd.Common.{
  ℕ, ◌≡◌, refl, sym, subst, ◌∙◌, arith, Bool, true, false, not, ◌==◌, ◌||◌, List, [], ◌∷◌, length,
  all_zero, if◌then◌else◌, ◌⊎◌, inl, inr,
}
use bitmarkd.Go.{ok, panicked, refuse, ◌>>=◌, >>=-eq-ok, >>-eq-ok, ok-injective}
use bitmarkd.Fault.{votes_with_zero_count, votes_with_zero_height}
use bitmarkd.Peer.Voting.{
  Upstream, ElectionResult, Votes, same_vote_candidates, smaller_digest_than, smaller_of,
  smaller_digest_from, draw_winner,
}
use bitmarkd.Peer.Tally.{HasVotes, here, there}

-- Among the candidates of a draw.
abbrev Among : Upstream → List Upstream → Type 0
Among w [] = ⊥
Among w (c ∷ cs) = (c ≡ w) ⊎ Among w cs

choose :
    (b1 b2 : Bool) (u v : Upstream) (P : Upstream → Type 0)
    → P u
    → P v
    → P (if b1 then u else if b2 then v else u)
choose true b2 u v P p q = p
choose false true u v P p q = q
choose false false u v P p q = p

smaller_of-either : (c t : Upstream) → (smaller_of c t ≡ c) ⊎ (smaller_of c t ≡ t)
unfolding smaller_of
smaller_of-either c t =
    choose (all_zero c.cached_remote_digest || all_zero t.cached_remote_digest)
      (not (smaller_digest_than c.cached_remote_digest t.cached_remote_digest)) c t
      (λ u. (u ≡ c) ⊎ (u ≡ t)) (inl refl) (inr refl)

pub if-cases {ℓ} :
    {A : Type ℓ} (t : Bool) (a b : A) {v : A}
    → (if t then a else b) ≡ v
    → ((t ≡ true) × (a ≡ v)) ⊎ ((t ≡ false) × (b ≡ v))
if-cases true a b h = inl (refl, h)
if-cases false a b h = inr (refl, h)

smaller_digest_from-Among :
    (cs : List Upstream) (c : Upstream)
    → (smaller_digest_from cs c ≡ c) ⊎ Among (smaller_digest_from cs c) cs
unfolding smaller_digest_from
smaller_digest_from-Among [] c = inl refl
smaller_digest_from-Among (t ∷ ts) c = elim (smaller_digest_from-Among ts (smaller_of c t)) [
  | inl e ↦ elim (smaller_of-either c t) [
    | inl kept ↦ inl (e ∙ kept)
    | inr taken ↦ inr (inl (sym (e ∙ taken)))
  ]
  | inr at ↦ inr (inr at)
]

same_vote_candidates-HasVotes :
    (n : ℕ) (votes : Votes) (cs : List Upstream) (w : Upstream)
    → same_vote_candidates n votes ≡ ok cs
    → Among w cs
    → HasVotes w n votes
unfolding same_vote_candidates
same_vote_candidates-HasVotes n [] cs w h at =
    let none_found : Among w [] = subst (Among w) (sym (ok-injective h)) at in elim none_found [ ]
same_vote_candidates-HasVotes n ((digest, []) ∷ rest) cs w h at =
    elim (if-cases (0 == n) panicked (same_vote_candidates n rest) h) [
      | inl (e, p) ↦ let both : panicked ≡ ok cs = p in cc
      | inr (e, found) ↦ there (same_vote_candidates-HasVotes n rest cs w found at)
    ]
same_vote_candidates-HasVotes n ((digest, first ∷ voters) ∷ rest) cs w h at =
    elim (if-cases (length (first ∷ voters) == n)
      (same_vote_candidates n rest >>= λ (found : List Upstream). ok (first.candidate ∷ found))
      (same_vote_candidates n rest) h) [
        | inl (e, joined) ↦
            let (found, later, all) = >>=-eq-ok (same_vote_candidates n rest) _ joined in
            elim (subst (Among w) (sym (ok-injective all)) at) [
              | inl chosen ↦ here (ground (arith, e)) chosen
              | inr more ↦ there (same_vote_candidates-HasVotes n rest found w later more)
            ]
        | inr (e, found) ↦ there (same_vote_candidates-HasVotes n rest cs w found at)
      ]

first_chosen :
    (cs : List Upstream) (w : Upstream)
    → elim cs [ [] ↦ panicked | first ∷ rest ↦ ok (smaller_digest_from rest first) ] ≡ ok w
    → Among w cs
first_chosen [] w h = cc
first_chosen (c ∷ cs) w h =
    subst (λ u. Among u (c ∷ cs)) (ok-injective h)
      (elim (smaller_digest_from-Among cs c) [ inl e ↦ inl (sym e) | inr at ↦ inr at ])

pub draw_winner-HasVotes :
    (votes : Votes) (r : ElectionResult) (w : Upstream)
    → draw_winner votes r ≡ ok w
    → HasVotes w r.highest_num_votes votes
unfolding draw_winner
draw_winner-HasVotes votes r w h =
    let (counted, h') = >>-eq-ok (refuse (r.highest_num_votes == 0) votes_with_zero_count) _ h in
    let (height, h'') = >>-eq-ok (refuse (0 == r.majority_height) votes_with_zero_height) _ h' in
    let (cs, found, chosen) = >>=-eq-ok (same_vote_candidates r.highest_num_votes votes) _ h'' in
    same_vote_candidates-HasVotes r.highest_num_votes votes cs w found (first_chosen cs w chosen)
