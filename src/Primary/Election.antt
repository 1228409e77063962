-- ===== src/Primary/Election.antt =====
-- primary/src/election.rs: elections, the state of a round, and its tally.
pub mod Tallies
use nero_consensus.Prelude.{
  ℕ, ◌+◌, ◌%◌, ◌^◌, Bool, true, false, ◌&&◌, List, [], ◌∷◌, ◌==◌, if◌then◌else◌,
}
use nero_consensus.Prelude.Map.{Map}
use nero_consensus.Primary.Vote.{
  VoteHash, BlockHash, Round, VoteType, Value, PrimaryVote, initial_vote, commit, decide, type_eq,
  value_eq,
}

pub record Tally : Type 0 where
  pub zero_votes : ℕ
  pub zero_commits : ℕ
  pub one_votes : ℕ
  pub one_commits : ℕ
  pub zero_decides : ℕ
  pub one_decides : ℕ

-- `Tally::new`
abbrev pub new_tally : Tally
new_tally = record {
  zero_votes = 0;
  zero_commits = 0;
  one_votes = 0;
  one_commits = 0;
  zero_decides = 0;
  one_decides = 0;
}

-- `+= 1` on a `u64`
abbrev pub inc : ℕ → ℕ
inc n = (n + 1) % 2 ^ 64

-- The body of the loop of `Tally::from_votes`.
unfoldable pub count_vote : Tally → PrimaryVote → Tally
count_vote t vote =
    if vote.value == Value.zero && vote.vote_type == initial_vote
    then record t { zero_votes = inc t.zero_votes }
    else if vote.value == Value.zero && vote.vote_type == commit
    then record t { zero_commits = inc t.zero_commits }
    else if vote.value == Value.zero && vote.vote_type == decide
    then record t { zero_decides = inc t.zero_decides }
    else if vote.value == Value.one && vote.vote_type == initial_vote
    then record t { one_votes = inc t.one_votes }
    else if vote.value == Value.one && vote.vote_type == commit
    then record t { one_commits = inc t.one_commits }
    else if vote.value == Value.one && vote.vote_type == decide
    then record t { one_decides = inc t.one_decides }
    else t

unfoldable pub count_votes : Tally → List PrimaryVote → Tally
count_votes t [] = t
count_votes t (vote ∷ votes) = count_votes (count_vote t vote) votes

-- `Tally::from_votes`
unfoldable pub from_votes : List PrimaryVote → Tally
unfolding count_votes
from_votes votes = count_votes new_tally votes

pub record RoundState : Type 0 where
  pub tally : Tally
  pub voted : Bool
  pub timed_out : Bool
  pub validated_votes : Map VoteHash PrimaryVote
  pub unvalidated_votes : Map PrimaryVote (List VoteHash)
  pub election_hash : BlockHash

-- `RoundState::new`
abbrev pub new_round_state : BlockHash → RoundState
new_round_state election_hash = record {
  tally = new_tally;
  voted = false;
  timed_out = false;
  validated_votes = [];
  unvalidated_votes = [];
  election_hash = election_hash;
}

-- The increments of `RoundState::tally_vote`; the last condition is the one above it once more.
unfoldable pub add_to_tally : Tally → PrimaryVote → Tally
add_to_tally t vote =
    if vote.vote_type == initial_vote && vote.value == Value.zero
    then record t { zero_votes = inc t.zero_votes }
    else if vote.vote_type == commit && vote.value == Value.zero
    then record t { zero_commits = inc t.zero_commits }
    else if vote.vote_type == initial_vote && vote.value == Value.one
    then record t { one_votes = inc t.one_votes }
    else if vote.vote_type == commit && vote.value == Value.one
    then record t { one_commits = inc t.one_commits }
    else if vote.vote_type == decide && vote.value == Value.one
    then record t { one_decides = inc t.one_decides }
    else if vote.vote_type == decide && vote.value == Value.one
    then record t { zero_decides = inc t.zero_decides }
    else t

-- `RoundState::tally_vote`
unfoldable pub tally_vote : RoundState → PrimaryVote → RoundState
unfolding add_to_tally
tally_vote rs vote = record rs { tally = add_to_tally rs.tally vote }

pub record Election : Type 0 where
  pub hash : BlockHash
  pub state : Map Round RoundState
  pub is_decided : Bool

-- `Election::new`
abbrev pub new_election : BlockHash → Election
new_election hash = record { hash = hash; state = []; is_decided = false }
