-- ===== src/Tests/Votes.antt =====
-- primary/src/election.rs and the decisions of core.rs on concrete votes.
use nero_consensus.Prelude.{◌≡◌, some, List, [], ◌∷◌, nat_eq}
use nero_consensus.Crypto.{PublicKey}
use nero_consensus.Primary.Vote.{
  VoteType, Value, PrimaryVote, commit, decide, zero, one, type_eq, value_eq,
}
use nero_consensus.Primary.Election.{new_tally, add_to_tally, from_votes}
use nero_consensus.Primary.Election.Tallies.{
  counted, tally_all, add_to_tally-count_vote, tally_all-from_votes,
}

abbrev vote : PublicKey → VoteType → Value → PrimaryVote
vote signer type value = record {
  signer = signer;
  round = 3;
  value = value;
  vote_type = type;
  proof = some [];
  election_hash = 7;
}

abbrev mixed : List PrimaryVote
mixed = vote 0 decide zero ∷ vote 1 commit one ∷ vote 2 commit one ∷ []

add_to_tally-count_vote_example : add_to_tally new_tally (vote 0 decide zero) ≡ new_tally
add_to_tally-count_vote_example = add_to_tally-count_vote new_tally (vote 0 decide zero)

tally_all-from_votes_example :
    tally_all new_tally mixed ≡ from_votes (vote 1 commit one ∷ vote 2 commit one ∷ [])
unfolding counted
tally_all-from_votes_example = tally_all-from_votes mixed
