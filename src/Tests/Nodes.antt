-- ===== src/Tests/Nodes.antt =====
-- primary/src/core.rs on concrete events.
use nero_consensus.Prelude.{
  ℕ, ◌*◌, ◌^◌, ◌≡◌, refl, true, false, Option, none, some, List, [], ◌∷◌, All, arith, ap, is_some,
  unwrap_or, nat_eq,
}
use nero_consensus.Prelude.Map.{Map, get}
use nero_consensus.Random
use nero_consensus.Prelude.Map
use nero_consensus.Prelude.Sets
use nero_consensus.Network.ReliableSender
use nero_consensus.Primary.Vote
use nero_consensus.Primary.Election
use nero_consensus.Primary.Core.Validate
use nero_consensus.Primary.Core.State
use nero_consensus.Primary.Core.Handlers
use nero_consensus.Random.{Rng}
use nero_consensus.Crypto.{PublicKey}
use nero_consensus.Network.Address.{SocketAddr}
use nero_consensus.Primary.Vote.{
  BlockHash, Round, VoteType, Value, PrimaryVote, initial_vote, commit, decide, zero, one,
}
use nero_consensus.Primary.Core.State.{Core, Env, Sent, spawn}
use nero_consensus.Primary.Core.Handlers.{
  Event, vote_received, transactions_received, handle_vote, run,
}
use nero_consensus.Primary.Core.Loads.{round_of}
use nero_consensus.Primary.Core.Invariant.{Inv, OnePerRound}
use nero_consensus.Primary.Core.Runs.{spawn-Inv, run-Inv}
use nero_consensus.Primary.Core.Byzantine.{byzantine_votes, byzantine_votes-none}
use nero_consensus.Primary.Core.Decided.{Records, handle_vote-Records}
use mathlib.Core.List.Perm
use nero_consensus.Primary.Vote.{Round, VoteType, zero}
use nero_consensus.Prelude.{map}
use nero_consensus.Primary.Vote.{valid}
use nero_consensus.Primary.Election.{RoundState, new_round_state, new_tally}
use nero_consensus.Primary.Election.Tallies.{tally_all}
use nero_consensus.Primary.Core.Validate.{judge, make_decision}
use nero_consensus.Primary.Core.Handlers.{next_round_vote}
use nero_consensus.Primary.Core.Acceptance.{judge-next_round_vote}
use nero_consensus.Primary.Core.Panics.{Stops, handle_vote-none}
use nero_consensus.Primary.Core.Safety.{
  IsOwn, decided_stays, run-OnePerRound, run-IsOwn, run_settled,
}

-- A hash that tells signers apart, and an encoding that nobody reads.
abbrev pub env : Env
env = record { sha512 = λ key. key * 2 ^ 256; serialize = λ m. [] }

-- Every draw is 1.
abbrev pub ones : Rng
ones = record { draw = λ i. 1; position = 0 }

abbrev pub address : ℕ → SocketAddr
address n = record { ip = 127; port = n }

abbrev pub peers : List (PublicKey × SocketAddr)
peers = (1, address 1) ∷ (2, address 2) ∷ (3, address 3) ∷ []

abbrev pub node : Core
node = spawn env 0 peers false ones ones

abbrev pub first_vote : PublicKey → PrimaryVote
first_vote signer = record {
  signer = signer;
  round = 0;
  value = one;
  vote_type = initial_vote;
  proof = none;
  election_hash = 7;
}

abbrev pub commit_vote : PublicKey → PrimaryVote
commit_vote signer = record {
  signer = signer;
  round = 1;
  value = one;
  vote_type = commit;
  proof = some (0 ∷ 1 ∷ 2 ∷ []);
  election_hash = 7;
}

-- The node votes, hears two votes of round 0 and commits, hears two of round 1 and decides.
abbrev pub happy : List Event
happy =
    transactions_received (record { digest = 7 } ∷ [])
    ∷ vote_received (first_vote 1)
    ∷ vote_received (first_vote 2)
    ∷ vote_received (commit_vote 1)
    ∷ vote_received (commit_vote 2)
    ∷ []

-- A result that is there.
pub found : (o : Option Core) (d : Core) → is_some o ≡ true → o ≡ some (unwrap_or o d)
found none d h = absurd (ground arith)
found (some core) d h = refl

abbrev pub after : List Event → Core
after events = unwrap_or (run node events) node

-- Two votes of another node that come late.
abbrev late : List Event
late = vote_received (first_vote 3) ∷ vote_received (commit_vote 3) ∷ []

abbrev brink : List Event
brink =
    transactions_received (record { digest = 7 } ∷ [])
    ∷ vote_received (first_vote 1)
    ∷ vote_received (first_vote 2)
    ∷ vote_received (commit_vote 1)
    ∷ []

-- A vote of a later round that brings no proof.
abbrev bare : PrimaryVote
bare = record (commit_vote 3) { proof = none }

-- A vote in the name of a key that belongs to nobody.
abbrev stranger_vote : PublicKey → Round → VoteType → Option (List ℕ) → PrimaryVote
stranger_vote signer round type proof = record {
  signer = signer;
  round = round;
  value = zero;
  vote_type = type;
  proof = proof;
  election_hash = 7;
}

-- Votes of strangers alone.
abbrev strangers : List Event
strangers = map vote_received (
    stranger_vote 101 0 initial_vote none
    ∷ stranger_vote 102 0 initial_vote none
    ∷ stranger_vote 103 0 initial_vote none
    ∷ stranger_vote 101 1 commit (some (101 ∷ 102 ∷ 103 ∷ []))
    ∷ stranger_vote 102 1 commit (some (101 ∷ 102 ∷ 103 ∷ []))
    ∷ stranger_vote 101 2 commit (some (101 ∷ 102 ∷ []))
    ∷ stranger_vote 102 2 commit (some (101 ∷ 102 ∷ []))
    ∷ [])

-- What the runs come to.
facts :
    (is_some (run node happy) ≡ true)
    × (is_some (run (after happy) late) ≡ true)
    × (is_some (run node brink) ≡ true)
    × (is_some (handle_vote (after brink) (commit_vote 2)) ≡ true)
    × ((after happy).decided ≡ (7, one) ∷ [])
    × Stops (after happy) bare
    × ((after strangers).decided ≡ (7, zero) ∷ [])
unfolding run spawn Map.get Map.insert Sets.contains Sets.include Sets.insert Sets.collect
    Sets.remove Vote.digest Vote.random_vote Vote.random_decision Vote.vote_beq
    Validate.validate_vote Validate.make_decision Validate.tally_decision Validate.find_round
    Validate.validate_proof Validate.proof_votes Validate.proof_tally Validate.judge
    Election.from_votes Election.tally_vote Election.add_to_tally Election.count_vote
    Election.count_votes ReliableSender.broadcast ReliableSender.send Handlers.accept_vote
    Handlers.admit_vote Handlers.advance Handlers.answer Handlers.await_proof
    Handlers.cast_initial_vote Handlers.cast_next Handlers.cast_vote Handlers.dispatch_vote
    Handlers.handle_noted Handlers.handle_transaction Handlers.handle_transactions handle_vote
    Handlers.load_election Handlers.load_round Handlers.next_round_vote Handlers.note_vote
    Handlers.promote Handlers.promote_valid Handlers.record_decision Handlers.settle
    Handlers.settle_all Handlers.step Handlers.store_election Handlers.try_advance
    Handlers.validate_pending_votes State.broadcast_message Random.gen_range
facts = (refl, refl, refl, refl, refl, (refl, ((λ e. ground (arith, e)), refl, (_, refl))), refl)

pub happy_ran : run node happy ≡ some (after happy)
happy_ran = found (run node happy) node facts.0

late_ran : run (after happy) late ≡ some (unwrap_or (run (after happy) late) node)
late_ran = found (run (after happy) late) node facts.1

brink_ran : run node brink ≡ some (after brink)
brink_ran = found (run node brink) node facts.2

happy-Inv : Inv (after happy)
happy-Inv = run-Inv node happy (spawn-Inv env 0 peers false ones ones) happy_ran

decided_stays_example : get 7 (unwrap_or (run (after happy) late) node).decided ≡ some one
unfolding Map.get
decided_stays_example =
    decided_stays env 0 peers false ones ones happy happy_ran late 7 one late_ran
      (ap (get 7) facts.4)

run-OnePerRound_example : OnePerRound (after happy).log
run-OnePerRound_example = run-OnePerRound env 0 peers false ones ones happy happy_ran

run-IsOwn_example : All (λ s. IsOwn (after happy).id s.message) (after happy).log
run-IsOwn_example = run-IsOwn env 0 peers false ones ones happy happy_ran

run_settled_example : (round_of (after happy) 7 1).unvalidated_votes ≡ []
run_settled_example = run_settled env 0 peers false ones ones happy happy_ran 7 1

handle_vote-none_example : handle_vote (after happy) bare ≡ none
handle_vote-none_example = (handle_vote-none (after happy) bare happy-Inv).1 facts.5

-- Elections and round are known and the votes are a quorum, so nothing but the loop is in the way.
byzantine_votes-none_example :
    byzantine_votes 50 (after happy) 0 7 3 (first_vote 0 ∷ first_vote 1 ∷ first_vote 2 ∷ []) ≡ none
byzantine_votes-none_example =
    byzantine_votes-none 50 (after happy) 0 7 2 (first_vote 0 ∷ first_vote 1 ∷ first_vote 2 ∷ [])

-- The vote that makes the node decide.
abbrev decided_by : Core
decided_by = unwrap_or (handle_vote (after brink) (commit_vote 2)) node

handle_vote-Records_example : Records (after brink).decided 7 decided_by.decided
handle_vote-Records_example =
    handle_vote-Records (after brink) (commit_vote 2)
      (run-Inv node brink (spawn-Inv env 0 peers false ones ones) brink_ran)
      (found (handle_vote (after brink) (commit_vote 2)) node facts.3)

abbrev cast_votes : List PrimaryVote
cast_votes = first_vote 0 ∷ first_vote 1 ∷ first_vote 2 ∷ []

abbrev heard_votes : List PrimaryVote
heard_votes = first_vote 1 ∷ first_vote 0 ∷ first_vote 2 ∷ []

abbrev full_round : RoundState
full_round = record (new_round_state 7) { tally = tally_all new_tally cast_votes }

abbrev next_vote : PrimaryVote
next_vote = next_round_vote node (make_decision node full_round.tally).0 full_round 1 7

judge-next_round_vote_example : (judge node next_vote heard_votes).0 ≡ valid
unfolding spawn
judge-next_round_vote_example =
    judge-next_round_vote node node full_round 1 7 cast_votes heard_votes refl refl refl
      (refl, (refl, (refl, tt))) (Perm.swap (first_vote 1) (first_vote 0) (first_vote 2 ∷ []))
