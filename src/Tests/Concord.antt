-- ===== src/Tests/Concord.antt =====
-- primary/src/core.rs on the rounds of two nodes that have run.
use nero_consensus.Prelude.Map.{values}
use nero_consensus.Prelude.{◌%◌, ◌^◌}
use nero_consensus.Primary.Vote.{commit}
use nero_consensus.Prelude.{
  ◌≡◌, ◌≤◌, refl, true, false, List, [], ◌∷◌, arith, is_some, unwrap_or, nat_eq,
}
use nero_consensus.Prelude.Map.{Map}
use nero_consensus.Random
use nero_consensus.Prelude.Map
use nero_consensus.Prelude.Sets
use nero_consensus.Network.ReliableSender
use nero_consensus.Primary.Vote
use nero_consensus.Primary.Election
use nero_consensus.Primary.Core.Agreement
use nero_consensus.Primary.Core.Validate
use nero_consensus.Primary.Core.State
use nero_consensus.Primary.Core.Handlers
use nero_consensus.Crypto.{PublicKey}
use nero_consensus.Primary.Vote.{PrimaryVote, one, decide}
use nero_consensus.Primary.Core.State.{Core, spawn}
use nero_consensus.Primary.Core.Handlers.{Event, vote_received, transactions_received, run}
use nero_consensus.Primary.Core.Validate.{tally_decision}
use nero_consensus.Primary.Core.Loads.{round_of}
use nero_consensus.Primary.Core.Tallied.{key_hash}
use nero_consensus.Primary.Core.Counted.{run-entry}
use nero_consensus.Primary.Election.Tallies.{count}
use nero_consensus.Primary.General.{number_of_byzantine_nodes}
use nero_consensus.Primary.Core.Agreement.{equivocators}
use nero_consensus.Primary.Core.Views.{view_of}
use nero_consensus.Primary.Core.Concord.{IsReached, IsOpen, run-decisions_agree}
use nero_consensus.Tests.Nodes.{
  env, ones, peers, first_vote, commit_vote, happy, after, found, happy_ran,
}

only : (n m : PublicKey) → key_hash env m ≡ key_hash env n → m ≡ n
only n m h = omega arith

run-entry_example :
    (round_of (after happy) 7 1).tally.one_commits
    ≡ count one commit (values (round_of (after happy) 7 1).validated_votes) % 2 ^ 64
run-entry_example =
    run-entry env 0 peers false ones ones happy (after happy) 7 1 (only 0) happy_ran one commit

abbrev other : Core
other = spawn env 3 peers false ones ones

-- What a fourth node hears of the same election.
abbrev elsewhere : List Event
elsewhere =
    transactions_received (record { digest = 7 } ∷ [])
    ∷ vote_received (first_vote 0)
    ∷ vote_received (first_vote 1)
    ∷ vote_received (first_vote 2)
    ∷ vote_received (commit_vote 0)
    ∷ vote_received (commit_vote 1)
    ∷ []

abbrev ended : Core
ended = unwrap_or (run other elsewhere) other

facts :
    (is_some (run other elsewhere) ≡ true)
    × ((tally_decision (round_of ended 7 1).tally).vote_type ≡ decide)
    × ((tally_decision (round_of (after happy) 7 1).tally).vote_type ≡ decide)
    × IsOpen (0 ∷ 1 ∷ 2 ∷ 3 ∷ []) (round_of (after happy) 7 1)
    × IsOpen (0 ∷ 1 ∷ 2 ∷ 3 ∷ []) (round_of ended 7 1)
    × (equivocators
          (view_of (key_hash env) (round_of (after happy) 7 1).validated_votes)
          (view_of (key_hash env) (round_of ended 7 1).validated_votes)
          (0 ∷ 1 ∷ 2 ∷ 3 ∷ [])
        ≤ number_of_byzantine_nodes)
unfolding run spawn Map.get Map.insert Sets.contains Sets.include Sets.insert Sets.collect
    Sets.remove Vote.digest Vote.random_vote Vote.random_decision Vote.vote_beq
    Validate.validate_vote Validate.make_decision Validate.tally_decision Validate.find_round
    Validate.validate_proof Validate.proof_votes Validate.proof_tally Validate.judge
    Election.from_votes Election.tally_vote Election.add_to_tally Election.count_vote
    Election.count_votes ReliableSender.broadcast ReliableSender.send Handlers.accept_vote
    Handlers.admit_vote Handlers.advance Handlers.answer Handlers.await_proof
    Handlers.cast_initial_vote Handlers.cast_next Handlers.cast_vote Handlers.dispatch_vote
    Handlers.handle_noted Handlers.handle_transaction Handlers.handle_transactions
    Handlers.handle_vote Handlers.load_election Handlers.load_round Handlers.next_round_vote
    Handlers.note_vote Handlers.promote Handlers.promote_valid Handlers.record_decision
    Handlers.settle Handlers.settle_all Handlers.step Handlers.store_election Handlers.try_advance
    Agreement.tested Handlers.validate_pending_votes State.broadcast_message Random.gen_range
facts = (
  refl,
  refl,
  refl,
  ((refl, refl), ((refl, refl), ((refl, refl), tt))),
  ((refl, refl), ((refl, refl), ((refl, refl), tt))),
  ground arith,
)

here : IsReached env 0 (after happy)
here = record {
  peers = peers;
  byzantine = false;
  rng = ones;
  seed = ones;
  events = happy;
  ran = happy_ran;
}

there : IsReached env 3 ended
there = record {
  peers = peers;
  byzantine = false;
  rng = ones;
  seed = ones;
  events = elsewhere;
  ran = found (run other elsewhere) other facts.0;
}

run-decisions_agree_example :
    (tally_decision (round_of (after happy) 7 1).tally).value
    ≡ (tally_decision (round_of ended 7 1).tally).value
unfolding Sets.contains
run-decisions_agree_example =
    run-decisions_agree env (0 ∷ 1 ∷ 2 ∷ 3 ∷ []) refl (refl, (refl, (refl, (refl, tt)))) only 0 3
      (after happy) ended 7 1 here there facts.3 facts.4 facts.5 facts.2 facts.1
