-- ===== src/Tests/Voting.antt =====
-- An election among four voters.
use bitmarkd.Common.{ℕ, ◌≡◌, refl, true, [], ◌∷◌}
use bitmarkd.Go.{ok}
use bitmarkd.Peer.Voting.{
  Upstream, VotingData, new_voting, no_result, vote_by, elected_candidate, smaller_digest_than,
}
use bitmarkd.Peer.Tally.{HasVotes, AtMost}
use bitmarkd.Peer.Elected.{elected_candidate-HasVotes}

abbrev near : Upstream
near = record { location = 1; cached_remote_height = 10; cached_remote_digest = 1 ∷ 2 ∷ [] }

abbrev far : Upstream
far = record { location = 2; cached_remote_height = 12; cached_remote_digest = 2 ∷ 1 ∷ [] }

abbrev voted : VotingData
unfolding vote_by new_voting
voted = vote_by near (vote_by far (vote_by near (vote_by near new_voting)))

-- Each of two digests is the smaller one.
smaller_both_ways :
    (smaller_digest_than (1 ∷ 2 ∷ []) (2 ∷ 1 ∷ []) ≡ true)
    × (smaller_digest_than (2 ∷ 1 ∷ []) (1 ∷ 2 ∷ []) ≡ true)
unfolding smaller_digest_than
smaller_both_ways = (refl, refl)

abbrev after : VotingData
unfolding voted elected_candidate
after = (elected_candidate voted).0

near_elected : elected_candidate voted ≡ (after, ok (near, 10))
unfolding voted after elected_candidate new_voting vote_by
near_elected = refl

voted_start : voted.result ≡ no_result
unfolding voted vote_by new_voting
voted_start = refl

elected_candidate-HasVotes_example :
    (n : ℕ) × HasVotes near n voted.votes × AtMost n voted.votes × (10 ≡ near.cached_remote_height)
elected_candidate-HasVotes_example =
    elected_candidate-HasVotes voted after near 10 voted_start near_elected
