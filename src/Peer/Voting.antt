-- ===== src/Peer/Voting.antt =====
-- peer/voting/voting.go: the votes of the connected peers for the digest of the local block.
-- The votes are the entries of the map, in the order in which a loop over it meets them.
use bitmarkd.Common.{
  ℕ, ◌+◌, Bool, true, false, not, ◌||◌, List, [], ◌∷◌, ◌++◌, length, Option, none, some, ltb, leb,
  ◌==◌, bytes_eq, all_zero, if◌then◌else◌,
}
use bitmarkd.Fault.{
  votes_insufficient, votes_with_empty_winner, votes_with_zero_count, votes_with_zero_height,
}
use bitmarkd.Go.{Result, ok, err, panicked, exhausted, ◌>>=◌, ◌>>◌, refuse}

-- An upstream.Upstream: where it lives, by which two of them are told apart, and what is read of it,
-- its two cached values, which do not change in an election.
pub record Upstream : Type 0 where
  pub location : ℕ
  pub cached_remote_height : ℕ
  pub cached_remote_digest : List ℕ

pub record Voter : Type 0 where
  pub candidate : Upstream
  pub height : ℕ

pub record ElectionResult : Type 0 where
  pub highest_num_votes : ℕ
  pub majority_height : ℕ
  pub winner : Option Upstream
  pub draw : Bool

abbrev pub Votes : Type 0
Votes = List (List ℕ × List Voter)

pub record VotingData : Type 0 where
  pub votes : Votes
  pub min_height : ℕ
  pub result : ElectionResult

unfoldable pub no_result : ElectionResult
no_result = record { highest_num_votes = 0; majority_height = 0; winner = none; draw = false }

unfoldable pub new_voting : VotingData
unfolding no_result
new_voting = record { votes = []; min_height = 0; result = no_result }

unfoldable pub set_min_height : ℕ → VotingData → VotingData
set_min_height height v = record v { min_height = height }

-- Reset
unfoldable pub reset : VotingData → VotingData
unfolding no_result
reset v = record { votes = []; min_height = 0; result = no_result }

unfoldable pub num_vote_of_digest : List ℕ → Votes → ℕ
num_vote_of_digest digest [] = 0
num_vote_of_digest digest ((d, voters) ∷ rest) =
    let others = num_vote_of_digest digest rest in
    if bytes_eq d digest then length voters else others

-- The voter joins the votes of the digest, or is the first of a new entry.
unfoldable pub add_vote : List ℕ → Voter → Votes → Votes
add_vote digest e [] = (digest, e ∷ []) ∷ []
add_vote digest e ((d, voters) ∷ rest) =
    let others = add_vote digest e rest in
    if bytes_eq d digest then (d, voters ++ (e ∷ [])) ∷ rest else (d, voters) ∷ others

unfoldable pub vote_by : Upstream → VotingData → VotingData
unfolding add_vote
vote_by candidate v =
    if leb v.min_height candidate.cached_remote_height
    then record v {
      votes =
          add_vote candidate.cached_remote_digest
            (record { candidate = candidate; height = candidate.cached_remote_height }) v.votes;
    }
    else v

-- One round of the loop of countVotes. An entry without voters is not made; its first voter would
-- be read only if it had more than the highest count, which it has not.
unfoldable pub count_entry : List Voter → ElectionResult → ElectionResult
count_entry [] r = if r.highest_num_votes == 0 then record r { draw = true } else r
count_entry (first ∷ others) r =
    if ltb r.highest_num_votes (length (first ∷ others))
    then record {
      highest_num_votes = length (first ∷ others);
      majority_height = first.height;
      winner = some first.candidate;
      draw = false;
    }
    else if r.highest_num_votes == length (first ∷ others)
    then record r { draw = true }
    else r

unfoldable pub count_entries : Votes → ElectionResult → ElectionResult
unfolding count_entry
count_entries [] r = r
count_entries ((digest, voters) ∷ rest) r = count_entries rest (count_entry voters r)

unfoldable pub draw_votes : ℕ → Votes → ℕ
draw_votes highest [] = 0
draw_votes highest ((digest, voters) ∷ rest) =
    let more = draw_votes highest rest in
    if highest == length voters then length voters + more else more

-- (1 + minimumClients) / 2
abbrev pub sufficient : ℕ
sufficient = 3

unfoldable pub sufficient_votes : Votes → ElectionResult → Bool
unfolding draw_votes
sufficient_votes votes r =
    if not r.draw
    then leb sufficient r.highest_num_votes
    else leb sufficient (draw_votes r.highest_num_votes votes)

-- The winner of the count, after the tests at the end of countVotes.
unfoldable pub counted_winner : Votes → ElectionResult → Result Upstream
unfolding sufficient_votes
counted_winner votes r = elim r.winner [
  | none ↦ err votes_with_empty_winner
  | some winner ↦ refuse (not (sufficient_votes votes r)) votes_insufficient >> ok winner
]

unfoldable pub same_vote_candidates : ℕ → Votes → Result (List Upstream)
same_vote_candidates count [] = ok []
same_vote_candidates count ((digest, []) ∷ rest) =
    let others = same_vote_candidates count rest in if 0 == count then panicked else others
same_vote_candidates count ((digest, first ∷ voters) ∷ rest) =
    let others = same_vote_candidates count rest in
    if length (first ∷ voters) == count
    then (others >>= λ (found : List Upstream). ok (first.candidate ∷ found))
    else others

-- blockdigest/digest.go: SmallerDigestThan, whose loop goes on where the bytes are not smaller; the
-- order in which it meets the bytes does not change what it returns.
unfoldable pub smaller_digest_than : List ℕ → List ℕ → Bool
smaller_digest_than [] target = false
smaller_digest_than (b ∷ bs) [] = false
smaller_digest_than (b ∷ bs) (t ∷ ts) = ltb b t || smaller_digest_than bs ts

-- One round of the loop: the candidate that stays elected.
unfoldable pub smaller_of : Upstream → Upstream → Upstream
unfolding smaller_digest_than
smaller_of elected target =
    if all_zero elected.cached_remote_digest || all_zero target.cached_remote_digest
    then elected
    else if not (smaller_digest_than elected.cached_remote_digest target.cached_remote_digest)
    then target
    else elected

unfoldable pub smaller_digest_from : List Upstream → Upstream → Upstream
unfolding smaller_of
smaller_digest_from [] elected = elected
smaller_digest_from (target ∷ rest) elected = smaller_digest_from rest (smaller_of elected target)

unfoldable pub draw_winner : Votes → ElectionResult → Result Upstream
unfolding same_vote_candidates smaller_digest_from
draw_winner votes r = do
  refuse (r.highest_num_votes == 0) votes_with_zero_count
  refuse (0 == r.majority_height) votes_with_zero_height
  candidates ← same_vote_candidates r.highest_num_votes votes
  elim candidates [ [] ↦ panicked | first ∷ rest ↦ ok (smaller_digest_from rest first) ]

-- drawElection: its winner is recorded, and none with an error.
unfoldable pub draw_election :
    VotingData → ElectionResult → Result Upstream → VotingData × Result (Upstream × ℕ)
draw_election v r (ok winner) = (
  record v { result = record r { winner = some winner } },
  ok (winner, winner.cached_remote_height),
)
draw_election v r (err fault) = (record v { result = record r { winner = none } }, err fault)
draw_election v r panicked = (record v { result = r }, panicked)
draw_election v r exhausted = (record v { result = r }, exhausted)

unfoldable pub end_election :
    VotingData → ElectionResult → Result Upstream → VotingData × Result (Upstream × ℕ)
unfolding draw_election draw_winner
end_election v r (ok winner) =
    if r.draw
    then draw_election v r (draw_winner v.votes r)
    else (record v { result = r }, ok (winner, winner.cached_remote_height))
end_election v r (err fault) = (record v { result = r }, err fault)
end_election v r panicked = (record v { result = r }, panicked)
end_election v r exhausted = (record v { result = r }, exhausted)

-- ElectedCandidate: the voting after it, and the candidate with its height.
unfoldable pub elected_candidate : VotingData → VotingData × Result (Upstream × ℕ)
unfolding end_election counted_winner count_entries
elected_candidate v =
    let r = count_entries v.votes v.result in end_election v r (counted_winner v.votes r)
