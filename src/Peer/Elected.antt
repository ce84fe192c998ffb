-- ===== src/Peer/Elected.antt =====
-- Whom an election elects.
use bitmarkd.Common.{ℕ, ◌≡◌, sym, ap, ◌∙◌, Bool, not, Option, none, some, ◌⊎◌, inl, inr}
use bitmarkd.Go.{Result, ok, err, exhausted, ◌>>◌, panicked, refuse, >>-eq-ok, ok-injective}
use bitmarkd.Fault.{votes_with_empty_winner, votes_insufficient}
use bitmarkd.Peer.Voting.{
  Upstream, ElectionResult, Votes, VotingData, no_result, count_entries, counted_winner,
  sufficient_votes, draw_winner, draw_election, end_election, elected_candidate,
}
use bitmarkd.Peer.Tally.{HasVotes, AtMost, count_entries-highest, count_entries-winner}
use bitmarkd.Peer.Draw.{if-cases, draw_winner-HasVotes}

same_winner :
    (winner w : Upstream) (height : ℕ)
    → ◌≡◌ {A = Result (Upstream × ℕ)} (ok (winner, winner.cached_remote_height)) (ok (w, height))
    → (ok winner ≡ ok w) × (height ≡ w.cached_remote_height)
same_winner winner w height h =
    let pair = ok-injective h in
    let same : winner ≡ w = ap (λ p. p.0) pair in
    (ap ok same, sym (ap (λ p. p.1) pair) ∙ ap (λ u. u.cached_remote_height) same)

winner_ok :
    (found : Option Upstream) (few : Bool) (w : Upstream)
    → elim found [
      | none ↦ err votes_with_empty_winner
      | some winner ↦ refuse few votes_insufficient >> ok winner
    ]
      ≡ ok w
    → found ≡ some w
winner_ok none few w h = cc
winner_ok (some winner) few w h =
    ap some (ok-injective ((>>-eq-ok (refuse few votes_insufficient) (ok winner) h).1))

draw_election-ok :
    (v v' : VotingData) (r : ElectionResult) (d : Result Upstream) (w : Upstream) (height : ℕ)
    → draw_election v r d ≡ (v', ok (w, height))
    → (d ≡ ok w) × (height ≡ w.cached_remote_height)
unfolding draw_election
draw_election-ok v v' r (ok winner) w height h = same_winner winner w height (ap (λ p. p.1) h)
draw_election-ok v v' r (err fault) w height h =
    let both : err fault ≡ ok (w, height) = ap (λ p. p.1) h in cc
draw_election-ok v v' r panicked w height h =
    let both : panicked ≡ ok (w, height) = ap (λ p. p.1) h in cc
draw_election-ok v v' r exhausted w height h =
    let both : exhausted ≡ ok (w, height) = ap (λ p. p.1) h in cc

end_election-ok :
    (v v' : VotingData) (r : ElectionResult) (c : Result Upstream) (w : Upstream) (height : ℕ)
    → end_election v r c ≡ (v', ok (w, height))
    → ((c ≡ ok w) ⊎ (draw_winner v.votes r ≡ ok w)) × (height ≡ w.cached_remote_height)
unfolding end_election
end_election-ok v v' r (ok winner) w height h =
    elim (if-cases r.draw (draw_election v r (draw_winner v.votes r)) _ h) [
      | inl (e, drawn) ↦
          let (found, at) = draw_election-ok v v' r (draw_winner v.votes r) w height drawn in
          (inr found, at)
      | inr (e, counted) ↦
          let (found, at) = same_winner winner w height (ap (λ p. p.1) counted) in (inl found, at)
    ]
end_election-ok v v' r (err fault) w height h =
    let both : err fault ≡ ok (w, height) = ap (λ p. p.1) h in cc
end_election-ok v v' r panicked w height h =
    let both : panicked ≡ ok (w, height) = ap (λ p. p.1) h in cc
end_election-ok v v' r exhausted w height h =
    let both : exhausted ≡ ok (w, height) = ap (λ p. p.1) h in cc

counted_winner-ok :
    (votes : Votes) (r : ElectionResult) (w : Upstream)
    → counted_winner votes r ≡ ok w
    → r.winner ≡ some w
unfolding counted_winner
counted_winner-ok votes r w h = winner_ok r.winner (not (sufficient_votes votes r)) w h

-- After an election from a voting that has no result yet (a new one, or one that was reset and
-- voted in), the candidate that is elected is the first voter of an entry with the most votes, whatever the
-- order of the entries, and the height that is returned is the candidate's.
pub elected_candidate-HasVotes :
    (v v' : VotingData) (w : Upstream) (height : ℕ)
    → v.result ≡ no_result
    → elected_candidate v ≡ (v', ok (w, height))
    → (n : ℕ) × HasVotes w n v.votes × AtMost n v.votes × (height ≡ w.cached_remote_height)
unfolding elected_candidate no_result
elected_candidate-HasVotes v v' w height start h =
    let r = count_entries v.votes v.result in
    let (found, at) = end_election-ok v v' r (counted_winner v.votes r) w height h in
    (
      r.highest_num_votes,
      elim found [
        | inl counted ↦
            elim (count_entries-winner v.votes v.result w (counted_winner-ok v.votes r w counted)) [
              | inl (before, same) ↦
                  let both : none ≡ some w = sym (ap (λ q. q.winner) start) ∙ before in cc
              | inr votes ↦ votes
            ]
        | inr drawn ↦ draw_winner-HasVotes v.votes r w drawn
      ],
      (count_entries-highest v.votes v.result).1,
      at,
    )
