-- ===== src/Peer/Tally.antt =====
-- What the count of the votes leaves as the highest count and as the winner.
use bitmarkd.Common.{
  ℕ, ◌≤◌, ◌≡◌, refl, sym, ap, subst, ◌∙◌, arith, true, false, ◌==◌, List, [], ◌∷◌, length, some,
  ltb, All, if◌then◌else◌, Bool-cases, ◌⊎◌, inl, inr,
}
use bitmarkd.Peer.Voting.{Upstream, Voter, ElectionResult, Votes, count_entry, count_entries}

-- An entry of the votes has the count, with the candidate as its first voter.
pub data HasVotes (w : Upstream) (n : ℕ) : Votes → Type 0 where
  here :
      {digest : List ℕ} {first : Voter} {others : List Voter} {rest : Votes}
      → length (first ∷ others) ≡ n
      → first.candidate ≡ w
      → HasVotes w n ((digest, first ∷ others) ∷ rest)
  there :
      {entry : List ℕ × List Voter} {rest : Votes} → HasVotes w n rest → HasVotes w n (entry ∷ rest)

abbrev pub AtMost : ℕ → Votes → Type 0
AtMost n votes = All (λ (entry : List ℕ × List Voter). length entry.1 ≤ n) votes

count_entry-highest :
    (voters : List Voter) (r : ElectionResult)
    → (r.highest_num_votes ≤ (count_entry voters r).highest_num_votes)
      × (length voters ≤ (count_entry voters r).highest_num_votes)
unfolding count_entry
count_entry-highest [] r = ground arith
count_entry-highest (first ∷ others) r = ground arith

pub count_entries-highest :
    (votes : Votes) (r : ElectionResult)
    → (r.highest_num_votes ≤ (count_entries votes r).highest_num_votes)
      × AtMost (count_entries votes r).highest_num_votes votes
unfolding count_entries
count_entries-highest [] r = (omega arith, tt)
count_entries-highest ((digest, voters) ∷ rest) r =
    let (a, b) = count_entry-highest voters r in
    let (c, d) = count_entries-highest rest (count_entry voters r) in
    (omega (arith, a, c), (omega (arith, b, c), d))

-- An entry of more votes than the highest count.
abbrev taken : Voter → List Voter → ElectionResult
taken first others = record {
  highest_num_votes = length (first ∷ others);
  majority_height = first.height;
  winner = some first.candidate;
  draw = false;
}

count_entry-more :
    (first : Voter) (others : List Voter) (r : ElectionResult)
    → ltb r.highest_num_votes (length (first ∷ others)) ≡ true
    → count_entry (first ∷ others) r ≡ taken first others
unfolding count_entry
count_entry-more first others r e =
    ap
      (λ t.
        if t
        then taken first others
        else if r.highest_num_votes == length (first ∷ others)
        then record r { draw = true }
        else r)
      e

-- The winner before an entry is counted, with the count it had, or the first voter of the entry.
count_entry-winner :
    (digest : List ℕ) (rest : Votes) (voters : List Voter) (r : ElectionResult) (w : Upstream)
    → (count_entry voters r).winner ≡ some w
    → ((r.winner ≡ some w) × ((count_entry voters r).highest_num_votes ≡ r.highest_num_votes))
      ⊎ HasVotes w (count_entry voters r).highest_num_votes ((digest, voters) ∷ rest)
unfolding count_entry
count_entry-winner digest rest [] r w h = inl (ground (arith, h))
count_entry-winner digest rest (first ∷ others) r w h =
    elim (Bool-cases (ltb r.highest_num_votes (length (first ∷ others)))) [
      | inl e ↦
          let same = count_entry-more first others r e in
          let chosen : some first.candidate ≡ some w = ap (λ q. q.winner) (sym same) ∙ h in
          inr (
            subst (λ q. HasVotes w q.highest_num_votes ((digest, first ∷ others) ∷ rest)) (sym same)
              (here refl cc))
      | inr e ↦ inl (ground (arith, e, h))
    ]

pub count_entries-winner :
    (votes : Votes) (r : ElectionResult) (w : Upstream)
    → (count_entries votes r).winner ≡ some w
    → ((r.winner ≡ some w) × ((count_entries votes r).highest_num_votes ≡ r.highest_num_votes))
      ⊎ HasVotes w (count_entries votes r).highest_num_votes votes
unfolding count_entries
count_entries-winner [] r w h = inl (h, refl)
count_entries-winner ((digest, voters) ∷ rest) r w h =
    elim (count_entries-winner rest (count_entry voters r) w h) [
      | inr later ↦ inr (there later)
      | inl (now, same) ↦ elim (count_entry-winner digest rest voters r w now) [
        | inl (before, kept) ↦ inl (before, same ∙ kept)
        | inr at ↦ inr (subst (λ n. HasVotes w n ((digest, voters) ∷ rest)) (sym same) at)
      ]
    ]
