-- ===== src/Primary/Core/Handlers.antt =====
-- primary/src/core.rs: the handlers of transactions and votes. A handler returns the new state, or
-- `none` where the code panics.
use nero_consensus.Prelude.{
  ◌+◌, ◌%◌, ◌^◌, true, not, ◌&&◌, Option, some, List, [], ◌∷◌, leb, ◌==◌, nat_eq, if◌then◌else◌,
  length, unwrap_or, ◌>>=◌,
}
use nero_consensus.Prelude.Map.{Map, get, insert, contains_key, keys}
use nero_consensus.Prelude.Sets.{contains, include, remove, collect}
use nero_consensus.Primary.General.{quorum}
use nero_consensus.Primary.Vote.{
  VoteHash, BlockHash, Round, Decision, PrimaryVote, ValidationStatus, decide, valid, invalid,
  pending, type_eq, value_eq, vote_eq, random_vote,
}
use nero_consensus.Primary.Election.{
  RoundState, Election, new_round_state, new_election, tally_vote,
}
use nero_consensus.Primary.Message.{Transaction, block_hash, send_vote}
use nero_consensus.Primary.Core.State.{Core, vote_hash, addresses, broadcast_message, unawaited}
use nero_consensus.Primary.Core.Validate.{make_decision, validate_vote}

unfoldable pub load_election : Core → BlockHash → Election
load_election core hash = unwrap_or (get hash core.elections) (new_election hash)

unfoldable pub load_round : Election → BlockHash → Round → RoundState
load_round election hash round = unwrap_or (get round election.state) (new_round_state hash)

-- `self.elections.insert`
unfoldable pub store_election : Core → BlockHash → Election → Core
store_election core hash election = record core { elections = insert hash election core.elections }

-- A vote of this node enters the state of its round, and goes out.
unfoldable pub cast_vote : Core → RoundState → PrimaryVote → RoundState × Core
unfolding broadcast_message
cast_vote core rs vote =
    let rs1 = record rs {
      validated_votes = insert (vote_hash core vote) vote rs.validated_votes;
    } in
    (
      record (tally_vote rs1 vote) { voted = true },
      broadcast_message core (send_vote vote) (addresses core) vote.round,
    )

-- The random vote of round 0.
unfoldable pub cast_initial_vote : Core → RoundState → BlockHash → RoundState × Core
unfolding cast_vote
cast_initial_vote core rs hash =
    let (own_vote, rng1) = random_vote core.id hash core.rng in
    cast_vote (record core { rng = rng1 }) rs own_vote

unfoldable pub handle_transaction : Core → Transaction → Core
unfolding cast_initial_vote load_election load_round store_election
handle_transaction core tx =
    let hash = block_hash tx in
    let election = load_election core hash in
    let rs = load_round election hash 0 in
    let (rs1, core1) = if rs.voted then (rs, core) else cast_initial_vote core rs hash in
    store_election core1 hash (record election { state = insert 0 rs1 election.state })

-- A vote that was pending enters the stored state of its round.
unfoldable pub promote : Core → PrimaryVote → Option Core
unfolding store_election
promote core v = do
  election ← get v.election_hash core.elections
  rs ← get v.round election.state
  let rs1 = record rs { validated_votes = insert (vote_hash core v) v rs.validated_votes }
  some (
      store_election core v.election_hash
        (record election { state = insert v.round rs1 election.state }))

-- The inner test of the loop of `validate_pending_votes`.
unfoldable pub promote_valid : Core → PrimaryVote → Option Core
unfolding promote
promote_valid core v = do
  (status, core1) ← validate_vote core v
  elim status [ valid ↦ promote core1 v | _ ↦ some core1 ]

-- The body of that loop, for a pending vote `v` that waits for the hashes `vs`.
unfoldable pub settle :
    PrimaryVote → RoundState → Core → PrimaryVote × List VoteHash → Option (RoundState × Core)
unfolding promote_valid
settle vote rs core (v, vs) =
    if contains (vote_hash core vote) vs
    then (do
      waiting ← get v rs.unvalidated_votes
      let rest = remove (vote_hash core vote) waiting
      core1 ← (if length rest == 0 then promote_valid core v else some core)
      some (record rs { unvalidated_votes = insert v rest rs.unvalidated_votes }, core1))
    else some (rs, core)

unfoldable pub settle_all :
    PrimaryVote → RoundState → Core → Map PrimaryVote (List VoteHash) → Option (RoundState × Core)
unfolding settle
settle_all vote rs core [] = some (rs, core)
settle_all vote rs core (entry ∷ entries) = do
  (rs1, core1) ← settle vote rs core entry
  settle_all vote rs1 core1 entries

unfoldable pub validate_pending_votes : Core → PrimaryVote → RoundState → Option (RoundState × Core)
unfolding settle_all
validate_pending_votes core vote rs = settle_all vote rs core rs.unvalidated_votes

-- The vote of the next round, with the hashes of this one for a proof.
unfoldable pub next_round_vote : Core → Decision → RoundState → Round → BlockHash → PrimaryVote
next_round_vote core decision rs next_round hash = record {
  signer = core.id;
  round = next_round;
  value = decision.value;
  vote_type = decision.vote_type;
  proof = some (collect (keys rs.validated_votes));
  election_hash = hash;
}

-- `if next_round_vote.vote_type == Decide`
unfoldable pub record_decision : Core → Election → PrimaryVote → Election × Core
record_decision core election vote =
    if vote.vote_type == decide
    then (
      record election { is_decided = true },
      record core { decided = insert vote.election_hash vote.value core.decided },
    )
    else (election, core)

-- The vote of the next round is cast, and recorded if it decides.
unfoldable pub cast_next : Core → Election → RoundState → Round → PrimaryVote → Election × Core
unfolding cast_vote record_decision
cast_next core election next_rs next_round vote =
    let (next_rs1, core1) = cast_vote core next_rs vote in
    let (election1, core2) = record_decision core1 election vote in
    (record election1 { state = insert next_round next_rs1 election1.state }, core2)

unfoldable pub advance :
    Core → Election → RoundState → RoundState → Round → BlockHash → Election × Core
unfolding next_round_vote cast_next
advance core election rs next_rs next_round hash =
    let (decision, core1) = make_decision core rs.tally in
    cast_next core1 election next_rs next_round (next_round_vote core1 decision rs next_round hash)

-- The round after, as a `u32`.
abbrev pub next : Round → Round
next round = (round + 1) % 2 ^ 32

-- The end of the `Valid` arm: the vote of the next round, once there is a quorum in this one.
unfoldable pub try_advance : Core → Election → RoundState → PrimaryVote → Election × Core
unfolding advance load_round
try_advance core election rs vote =
    let next_rs = load_round election vote.election_hash (next vote.round) in
    if leb quorum (length rs.validated_votes) && not next_rs.voted && not election.is_decided
    then advance core election rs next_rs (next vote.round) vote.election_hash
    else (election, core)

-- The vote enters the state of its round.
unfoldable pub admit_vote : Core → RoundState → PrimaryVote → RoundState
admit_vote core rs vote =
    let rs1 = if vote.signer == core.id then record rs { voted = true } else rs in
    let rs2 = tally_vote rs1 vote in
    record rs2 { validated_votes = insert (vote_hash core vote) vote rs2.validated_votes }

-- `if !round_state.voted && vote.round.0 == 0`
unfoldable pub answer : Core → RoundState → PrimaryVote → RoundState × Core
unfolding cast_initial_vote
answer core rs vote =
    if not rs.voted && vote.round == 0
    then cast_initial_vote core rs vote.election_hash
    else (rs, core)

-- The `Valid` arm of `handle_vote`.
unfoldable pub accept_vote : Core → Election → RoundState → PrimaryVote → Option (Election × Core)
unfolding admit_vote validate_pending_votes answer try_advance
accept_vote core election rs vote = do
  (rs1, core1) ← validate_pending_votes core vote (admit_vote core rs vote)
  let (rs2, core2) = answer core1 rs1 vote
  some (
      try_advance core2 (record election { state = insert vote.round rs2 election.state }) rs2 vote)

-- The `Pending` arm of `handle_vote`: the round's state that waits for the proof.
unfoldable pub await_proof : RoundState → PrimaryVote → Option RoundState
await_proof rs vote = do
  proof ← vote.proof
  some (record rs { unvalidated_votes = insert vote proof rs.unvalidated_votes })

-- The `match` of `handle_vote`. The `Pending` arm changes its copy of the round's state, which is
-- then dropped.
unfoldable pub dispatch_vote :
    ValidationStatus → Core → Election → RoundState → PrimaryVote → Option Core
unfolding accept_vote await_proof store_election
dispatch_vote valid core election rs vote = do
  (election1, core1) ← accept_vote core election rs vote
  some (store_election core1 vote.election_hash election1)
dispatch_vote invalid core election rs vote = some core
dispatch_vote pending core election rs vote = do
  _ ← await_proof rs vote
  some (store_election core vote.election_hash election)

-- The top of `handle_vote`: the broadcast is not awaited.
unfoldable pub note_vote : Core → PrimaryVote → Core
note_vote core vote =
    let relay : Core → Core =
      λ c. broadcast_message c (send_vote vote) (addresses core) vote.round in
    let core1 = if contains vote core.sent_votes then core else unawaited relay core in
    record core1 { sent_votes = include vote core.sent_votes }

-- The rest of `handle_vote`, below the note of the vote.
unfoldable pub handle_noted : Core → PrimaryVote → Option Core
unfolding load_election load_round store_election dispatch_vote
handle_noted core vote =
    let election = load_election core vote.election_hash in
    let rs = load_round election vote.election_hash vote.round in
    if contains_key (vote_hash core vote) rs.validated_votes
    then some (store_election core vote.election_hash election)
    else (do (status, core1) ← validate_vote core vote; dispatch_vote status core1 election rs vote)

unfoldable pub handle_vote : Core → PrimaryVote → Option Core
unfolding note_vote handle_noted
handle_vote core vote = handle_noted (note_vote core vote) vote

unfoldable pub handle_transactions : Core → List Transaction → Core
unfolding handle_transaction
handle_transactions core [] = core
handle_transactions core (tx ∷ txs) = handle_transactions (handle_transaction core tx) txs

-- What `run` receives.
pub data Event : Type 0 where
  vote_received : PrimaryVote → Event
  transactions_received : List Transaction → Event

-- One turn of the loop of `run`.
unfoldable pub step : Core → Event → Option Core
unfolding handle_vote handle_transactions
step core (vote_received vote) = handle_vote core vote
step core (transactions_received txs) = some (handle_transactions core txs)

unfoldable pub run : Core → List Event → Option Core
unfolding step
run core [] = some core
run core (event ∷ events) = do core1 ← step core event; run core1 events
