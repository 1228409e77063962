-- ===== src/Tests/Wires.antt =====
-- The votes of a node on their way to another, with an encoding that lists the fields.
use nero_consensus.Prelude.{
  ℕ, ◌≡◌, refl, ap, All, Option, none, some, List, [], ◌∷◌, ◌++◌, map, ◌==◌, nat_eq, if◌then◌else◌,
  is_some, unwrap_or, true, false, ◌^◌, ◌*◌,
}
use nero_consensus.Prelude.Map
use nero_consensus.Prelude.Sets
use nero_consensus.Random
use nero_consensus.Network.ReliableSender
use nero_consensus.Primary.Vote
use nero_consensus.Primary.Election
use nero_consensus.Primary.Core.Validate
use nero_consensus.Primary.Core.State
use nero_consensus.Primary.Core.Handlers
use nero_consensus.Primary.Core.Outbox
use nero_consensus.Primary.Dispatch.Channels
use nero_consensus.Network.Receiver.{message, spawn_runner}
use nero_consensus.Network.ReliableSender.Broadcast.{channel}
use nero_consensus.Network.Address.{Bytes, addr_eq}
use nero_consensus.Primary.Vote.{
  PrimaryVote, VoteType, Value, zero, one, initial_vote, commit, decide,
}
use nero_consensus.Primary.Message.{
  PrimaryMessage, Transaction, send_vote, timer_expired, transactions,
}
use nero_consensus.Primary.Dispatch.{TxReceiverHandler, dispatch}
use nero_consensus.Primary.Core.State.{Core, Env, spawn}
use nero_consensus.Primary.Core.Handlers.{Event, run}
use nero_consensus.Primary.Core.Honest.{SentIn}
use nero_consensus.Primary.Core.Outbox.{contents}
use nero_consensus.Protocol.Delivery.{votes_sent, channel-delivered}
use nero_consensus.Tests.Nodes.{ones, peers, address, first_vote, commit_vote, happy, found}

abbrev value_tag : Value → ℕ
value_tag zero = 0
value_tag one = 1

abbrev type_tag : VoteType → ℕ
type_tag initial_vote = 0
type_tag commit = 1
type_tag decide = 2

abbrev proof_fields : Option (List ℕ) → Bytes
proof_fields none = 0 ∷ []
proof_fields (some hashes) = 1 ∷ hashes

abbrev vote_fields : PrimaryVote → Bytes
vote_fields v =
    v.signer
    ∷ v.round
    ∷ value_tag v.value
    ∷ type_tag v.vote_type
    ∷ v.election_hash
    ∷ proof_fields v.proof

abbrev encode : PrimaryMessage → Bytes
encode (send_vote v) = 0 ∷ vote_fields v
encode (timer_expired v) = 1 ∷ vote_fields v
encode (transactions txs) = 2 ∷ map (λ tx. tx.digest) txs

abbrev decode_vote : Bytes → Option PrimaryVote
decode_vote (signer ∷ round ∷ value ∷ type ∷ hash ∷ present ∷ hashes) = some (record {
  signer = signer;
  round = round;
  value = if value == 0 then zero else one;
  vote_type = if type == 0 then initial_vote else if type == 1 then commit else decide;
  proof = if present == 0 then none else some hashes;
  election_hash = hash;
})
decode_vote _ = none

abbrev sent_if : (PrimaryVote → PrimaryMessage) → Option PrimaryVote → Option PrimaryMessage
sent_if f none = none
sent_if f (some v) = some (f v)

abbrev decode : Bytes → Option PrimaryMessage
decode [] = none
decode (tag ∷ fields) =
    if tag == 0
    then sent_if send_vote (decode_vote fields)
    else if tag == 1
    then sent_if timer_expired (decode_vote fields)
    else some (transactions (map (λ n. record { digest = n }) fields))

value_back : (x : Value) → (if value_tag x == 0 then zero else one) ≡ x
value_back zero = refl
value_back one = refl

type_back :
    (y : VoteType)
    → (if type_tag y == 0 then initial_vote else if type_tag y == 1 then commit else decide) ≡ y
type_back initial_vote = refl
type_back commit = refl
type_back decide = refl

decode_vote-vote_fields : (v : PrimaryVote) → decode_vote (vote_fields v) ≡ some v
decode_vote-vote_fields v = with_proof v.proof refl
  where
    with_proof : (p : Option (List ℕ)) → v.proof ≡ p → decode_vote (vote_fields v) ≡ some v
    with_proof none same = rw (same, value_back v.value, type_back v.vote_type) refl
    with_proof (some hashes) same = rw (same, value_back v.value, type_back v.vote_type) refl

digests_back :
    (txs : List Transaction) → map (λ n. record { digest = n }) (map (λ tx. tx.digest) txs) ≡ txs
digests_back [] = refl
digests_back (tx ∷ txs) = ap (λ rest. tx ∷ rest) (digests_back txs)

decode-encode : (m : PrimaryMessage) → decode (encode m) ≡ some m
decode-encode (send_vote v) = ap (sent_if send_vote) (decode_vote-vote_fields v)
decode-encode (timer_expired v) = ap (sent_if timer_expired) (decode_vote-vote_fields v)
decode-encode (transactions txs) = ap (λ ts. some (transactions ts)) (digests_back txs)

abbrev env : Env
env = record { sha512 = λ key. key * 2 ^ 256; serialize = encode }

abbrev start : Core
start = spawn env 0 peers false ones ones

abbrev sender : Core
sender = unwrap_or (run start happy) start

facts :
    (is_some (run start happy) ≡ true)
    × (votes_sent decode sender.log
        ≡ first_vote 0
          ∷ commit_vote 0
          ∷ record (commit_vote 0) { round = 2; vote_type = decide }
          ∷ [])
unfolding run spawn Map.get Map.insert Sets.contains Sets.include Sets.insert Sets.collect
    Sets.remove Vote.digest Vote.random_vote Vote.random_decision Vote.vote_beq
    Validate.validate_vote Validate.make_decision Validate.tally_decision Validate.find_round
    Validate.validate_proof Validate.proof_votes Validate.proof_tally Validate.judge
    Election.from_votes Election.tally_vote Election.add_to_tally Election.count_vote
    Election.count_votes ReliableSender.broadcast ReliableSender.send Handlers.accept_vote
    Handlers.admit_vote Handlers.advance Handlers.answer Handlers.await_proof
    Handlers.cast_initial_vote Handlers.cast_next Handlers.cast_vote Handlers.dispatch_vote
    Handlers.handle_noted Handlers.handle_transaction Handlers.handle_transactions
    Handlers.handle_vote Handlers.load_election Handlers.load_round Handlers.next_round_vote
    Handlers.note_vote Handlers.promote Handlers.promote_valid Handlers.record_decision
    Handlers.settle Handlers.settle_all Handlers.step Handlers.store_election Handlers.try_advance
    Handlers.validate_pending_votes State.broadcast_message Random.gen_range Outbox.messages
    Channels.votes_in
facts = (refl, refl)

abbrev empty : TxReceiverHandler
empty = record { tx_transactions = []; tx_votes = [] }

channel-delivered_example :
    ((spawn_runner
        (dispatch decode)
        (map message (contents (channel (address 1) sender.network)))
        empty).0.tx_votes
      ≡ empty.tx_votes ++ votes_sent decode sender.log)
    × All (λ v. SentIn v sender.log) (votes_sent decode sender.log)
unfolding Outbox.times
channel-delivered_example =
    channel-delivered decode env 0 peers false ones ones happy sender (address 1) empty refl
      decode-encode (found (run start happy) start facts.0)
