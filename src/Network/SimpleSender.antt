-- ===== src/Network/SimpleSender.antt =====
-- network/src/simple_sender.rs: one channel to each connection's task, which ends at its first error.
pub mod BestEffort
use nero_consensus.Prelude.{
  ℕ, Bool, true, false, Option, none, some, List, [], ◌∷◌, ◌++◌, take, if◌then◌else◌, unwrap_or,
}
use nero_consensus.Prelude.Map.{Map, get, insert}
use nero_consensus.Random.{Rng}
use nero_consensus.Network.Address.{Bytes, SocketAddr, addr_eq}

-- A channel is the messages in it, oldest first, and whether its task still takes them.
pub record Channel : Type 0 where
  pub is_open : Bool
  pub queue : List Bytes

pub record SimpleSender : Type 0 where
  pub connections : Map SocketAddr Channel
  pub rng : Rng

-- `SimpleSender::new`
abbrev pub new_sender : Rng → SimpleSender
new_sender rng = record { connections = []; rng = rng }

-- `tx.send(data)`; `none` is an error.
unfoldable pub push : Channel → Bytes → Option Channel
push tx bytes = if tx.is_open then some (record tx { queue = tx.queue ++ bytes ∷ [] }) else none

-- `self.connections.get(&address)`, and a message into it.
unfoldable pub reuse : SimpleSender → SocketAddr → Bytes → Option Channel
unfolding push
reuse s address bytes = elim (get address s.connections) [ none ↦ none | some tx ↦ push tx bytes ]

-- `survives` says whether the task of a new channel still runs when the message is sent.
unfoldable pub send : (SocketAddr → Bool) → SimpleSender → SocketAddr → Bytes → SimpleSender
unfolding reuse push
send survives s address bytes = elim (reuse s address bytes) [
  | some tx ↦ record s { connections = insert address tx s.connections }
  | none ↦ elim (push (record { is_open = survives address; queue = [] }) bytes) [
    | some tx ↦ record s { connections = insert address tx s.connections }
    | none ↦ s
  ]
]

unfoldable pub broadcast :
    (SocketAddr → Bool) → SimpleSender → List SocketAddr → Bytes → SimpleSender
unfolding send
broadcast survives s [] bytes = s
broadcast survives s (address ∷ addresses) bytes =
    broadcast survives (send survives s address bytes) addresses bytes

module _ (shuffle : Rng → List SocketAddr → List SocketAddr × Rng) where
  unfoldable pub lucky_broadcast :
      (SocketAddr → Bool) → SimpleSender → List SocketAddr → Bytes → ℕ → SimpleSender
  unfolding broadcast
  lucky_broadcast survives s addresses bytes nodes =
      let (shuffled, rng1) = shuffle s.rng addresses in
      broadcast survives (record s { rng = rng1 }) (take nodes shuffled) bytes

-- What `select!` of a connection yields: a message, and whether its write succeeds, or a reply, and
-- whether it could be read.
pub data Event : Type 0 where
  message_received : Bytes → Bool → Event
  reply_received : Bool → Event

-- The loop of `Connection::run`: the messages that it writes.
unfoldable pub transmit : List Event → List Bytes
transmit [] = []
transmit (message_received bytes sent ∷ rest) =
    let later = transmit rest in if sent then bytes ∷ later else []
transmit (reply_received readable ∷ rest) =
    let later = transmit rest in if readable then later else []

-- `Connection::run`
unfoldable pub run : Bool → List Event → List Bytes
unfolding transmit
run connected events = if connected then transmit events else []
