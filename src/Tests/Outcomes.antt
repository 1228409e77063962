-- ===== src/Tests/Outcomes.antt =====
-- primary/src/core.rs: what four nodes, of which one is byzantine, come to.
use nero_consensus.Prelude.{
  All, length, ◌≤◌, ◌≡◌, refl, inl, inr, some, List, [], ◌∷◌, arith, nat_eq, none, if◌then◌else◌,
  subst,
}
use nero_consensus.Prelude.Map.{Map, get}
use nero_consensus.Random
use nero_consensus.Random.{Rng}
use nero_consensus.Prelude.Map
use nero_consensus.Prelude.Sets
use nero_consensus.Network.ReliableSender
use nero_consensus.Primary.Vote
use nero_consensus.Primary.Election
use nero_consensus.Primary.Core.Validate
use nero_consensus.Primary.Core.State
use nero_consensus.Primary.Core.Handlers
use nero_consensus.Crypto.{PublicKey}
use nero_consensus.Primary.Vote.{PrimaryVote, VoteType, zero, one, initial_vote, commit, decide}
use nero_consensus.Primary.General.{quorum}
use nero_consensus.Primary.Election.{from_votes}
use nero_consensus.Primary.Election.Tallies.{counted}
use nero_consensus.Primary.Core.Validate.{tally_decision}
use nero_consensus.Primary.Core.Loads.{round_of}
use nero_consensus.Protocol.Liveness.{last_round, quorum_records}
use nero_consensus.Primary.Core.State.{Core, Sent, spawn}
use nero_consensus.Primary.Core.Handlers.{Event, vote_received, transactions_received, run, step}
use nero_consensus.Primary.Core.Tallied.{key_hash}
use nero_consensus.Primary.Core.Honest.{SentIn}
use nero_consensus.Protocol.Network.{first_of}
use nero_consensus.Protocol.Shares.{tally_of}
use nero_consensus.Protocol.Decisions.{recorded_agree}
use nero_consensus.Protocol.Validity.{recorded_valid}
use nero_consensus.Tests.Nodes.{env, commit_vote}
use nero_consensus.Tests.Networks.{
  nodes, zero_vote, decide_vote, byzantine, cores, IsForOne, AreOnes, facts, members,
}

sent_ones :
    (w : PrimaryVote) (log : List Sent)
    → All AreOnes log
    → SentIn w log
    → w.round ≡ 0
    → w.value ≡ one
sent_ones w [] all out = absurd out
sent_ones w (s ∷ log) all (inl now) = subst IsForOne now all.0
sent_ones w (s ∷ log) all (inr before) = sent_ones w log all.1 before

only : (n m : PublicKey) → key_hash env m ≡ key_hash env n → m ≡ n
only n m h = omega arith

recorded_agree_example : one ≡ one
unfolding Sets.contains
recorded_agree_example =
    recorded_agree env nodes cores byzantine members only refl (refl, (refl, (refl, (refl, tt)))) 0
      2 7 one one (refl, refl) (refl, refl) facts.4 facts.5

recorded_valid_example : one ≡ one
unfolding Sets.contains
recorded_valid_example =
    recorded_valid env nodes cores byzantine members only refl (refl, (refl, (refl, (refl, tt)))) 7
      one (λ n w there out at_7 first. sent_ones w (cores n).log (facts.9 n there) out first) 0 one
      (refl, refl) facts.4

-- What the theorems on the first votes ask of the four nodes.
votes :
    (quorum
      ≤ (tally_of
          (λ n.
            first_of
              (λ m.
                if byzantine m
                then none
                else get (key_hash env n) (round_of (cores m) 7 0).validated_votes)
              nodes)
          nodes).one_votes)
    × (quorum ≤ length (round_of (cores 1) 7 2).validated_votes)
unfolding run spawn Map.get Map.insert Sets.contains Sets.include Sets.insert Sets.collect
    Sets.remove Vote.digest Vote.random_vote Vote.random_decision Vote.vote_beq
    Validate.validate_vote Validate.make_decision Validate.tally_decision Validate.find_round
    Validate.validate_proof Validate.proof_votes Validate.proof_tally Validate.judge
    Election.from_votes Election.tally_vote Election.add_to_tally Election.count_vote
    Election.count_votes ReliableSender.broadcast ReliableSender.send Handlers.accept_vote
    Handlers.admit_vote Handlers.advance Handlers.answer Handlers.await_proof
    Handlers.cast_initial_vote Handlers.cast_next Handlers.cast_vote Handlers.dispatch_vote
    Handlers.handle_noted Handlers.handle_transaction Handlers.handle_transactions
    Handlers.handle_vote Handlers.load_election Handlers.load_round Handlers.next_round_vote
    Handlers.note_vote Handlers.promote Handlers.promote_valid Handlers.record_decision
    Handlers.settle Handlers.settle_all Handlers.step Handlers.store_election Handlers.try_advance
    Handlers.validate_pending_votes State.broadcast_message Random.gen_range first_of
votes = (omega arith, omega arith)

last_round_example : (decide_vote 1).round ≤ 3
unfolding Sets.contains
last_round_example =
    last_round env nodes cores byzantine members only refl (refl, (refl, (refl, (refl, tt)))) 7
      votes.0 1 (decide_vote 1) (refl, refl) facts.7.2 refl

quorum_records_example : get 7 (cores 1).decided ≡ some one
unfolding Sets.contains
quorum_records_example =
    quorum_records env nodes cores byzantine members only refl (refl, (refl, (refl, (refl, tt)))) 7
      votes.0 1 (refl, refl) votes.1

-- A decision for zero is not counted, so two commits beside it lead to another commit; for one they
-- lead to a decision.
uncounted :
    (tally_decision
        (from_votes (counted (zero_vote commit ∷ zero_vote commit ∷ zero_vote decide ∷ [])))
      ≡ record { value = zero; vote_type = commit })
    × (tally_decision (from_votes (counted (commit_vote 0 ∷ commit_vote 1 ∷ decide_vote 2 ∷ [])))
        ≡ record { value = one; vote_type = decide })
unfolding from_votes counted tally_decision Election.count_votes Election.count_vote
uncounted = (refl, refl)
