-- ===== src/Primary/Core/State.antt =====
-- primary/src/core.rs: the state of a node, and how it broadcasts.
use nero_consensus.Prelude.{ℕ, Bool, List, [], ◌∷◌, ◌++◌, map, nat_eq, unwrap_or}
use nero_consensus.Prelude.Map.{Map, get, insert}
use nero_consensus.Random.{Rng, gen_range}
use nero_consensus.Crypto.{PublicKey}
use nero_consensus.Network.Address.{Bytes, SocketAddr}
use nero_consensus.Network.ReliableSender.{ReliableSender, CancelHandler}
use nero_consensus.Network.ReliableSender
use nero_consensus.Primary.Vote.{
  VoteHash, BlockHash, Round, VoteType, Value, Decision, PrimaryVote, ValidationStatus,
  initial_vote, commit, decide, valid, invalid, pending, type_eq, value_eq, vote_eq,
  random_decision, random_vote,
}
use nero_consensus.Primary.Vote
use nero_consensus.Primary.Election.{Election}
use nero_consensus.Primary.Message.{PrimaryMessage}

-- The third-party code that the handlers call.
pub record Env : Type 0 where
  pub sha512 : PublicKey → ℕ
  pub serialize : PrimaryMessage → Bytes

-- What the log says of a broadcast: the message, the addresses and the round.
pub record Sent : Type 0 where
  pub message : PrimaryMessage
  pub addresses : List SocketAddr
  pub round : Round

pub record Core : Type 0 where
  pub env : Env
  pub id : PublicKey
  pub primary_addresses : List (PublicKey × SocketAddr)
  pub network : ReliableSender
  pub cancel_handlers : Map Round (List CancelHandler)
  pub elections : Map BlockHash Election
  pub decided : Map BlockHash Value
  pub byzantine : Bool
  pub sent_votes : List PrimaryVote
  pub rng : Rng
  pub log : List Sent

-- `Core::spawn`
unfoldable pub spawn : Env → PublicKey → List (PublicKey × SocketAddr) → Bool → Rng → Rng → Core
spawn env id primary_addresses byzantine rng seed = record {
  env = env;
  id = id;
  primary_addresses = primary_addresses;
  network = ReliableSender.new_sender seed;
  cancel_handlers = [];
  elections = [];
  decided = [];
  byzantine = byzantine;
  sent_votes = [];
  rng = rng;
  log = [];
}

abbrev pub vote_hash : Core → PrimaryVote → VoteHash
vote_hash core vote = Vote.digest core.env.sha512 vote

-- The addresses of the `unzip` at the top of the handlers.
abbrev pub addresses : Core → List SocketAddr
addresses core = map (λ e. e.1) core.primary_addresses

unfoldable pub broadcast_message : Core → PrimaryMessage → List SocketAddr → Round → Core
broadcast_message core message to round =
    let bytes = core.env.serialize message in
    let (delay, rng1) = gen_range 1000 core.rng in
    let sent : Sent = record { message = message; addresses = to; round = round } in
    let (handlers, network1) = ReliableSender.broadcast core.network to bytes in
    record core {
      rng = rng1;
      log = sent ∷ core.log;
      network = network1;
      cancel_handlers =
          insert round (unwrap_or (get round core.cancel_handlers) [] ++ handlers)
            core.cancel_handlers;
    }

-- A future that is made and not awaited does not run.
abbrev pub unawaited : (Core → Core) → Core → Core
unawaited future core = core
