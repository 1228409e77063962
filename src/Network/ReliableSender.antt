-- ===== src/Network/ReliableSender.antt =====
-- network/src/reliable_sender.rs, `ReliableSender`: one channel to each connection's task, and a
-- oneshot channel for each message, which is known by its number.
pub mod Broadcast
use nero_consensus.Prelude.{ℕ, ◌+◌, List, [], ◌∷◌, ◌++◌, unwrap_or, take}
use nero_consensus.Prelude.Map.{Map, get, insert}
use nero_consensus.Random.{Rng}
use nero_consensus.Network.Address.{Bytes, SocketAddr, addr_eq}

abbrev pub CancelHandler : Type 0
CancelHandler = ℕ

pub record InnerMessage : Type 0 where
  pub bytes : Bytes
  pub cancel_handler : CancelHandler

-- A channel is the list of the messages in it, oldest first.
pub record ReliableSender : Type 0 where
  pub connections : Map SocketAddr (List InnerMessage)
  pub rng : Rng
  pub next_handler : CancelHandler

-- `ReliableSender::new`; the seed comes from the operating system.
abbrev pub new_sender : Rng → ReliableSender
new_sender rng = record { connections = []; rng = rng; next_handler = 0 }

-- `spawn_connection` makes an empty channel.
unfoldable pub send : ReliableSender → SocketAddr → Bytes → CancelHandler × ReliableSender
unfolding get insert
send s address bytes =
    let channel = unwrap_or (get address s.connections) [] in
    let message : InnerMessage = record { bytes = bytes; cancel_handler = s.next_handler } in
    (
      s.next_handler,
      record s {
        connections = insert address (channel ++ message ∷ []) s.connections;
        next_handler = s.next_handler + 1;
      },
    )

unfoldable pub broadcast :
    ReliableSender → List SocketAddr → Bytes → List CancelHandler × ReliableSender
unfolding send
broadcast s [] bytes = ([], s)
broadcast s (address ∷ addresses) bytes =
    let (handler, s1) = send s address bytes in
    let (handlers, s2) = broadcast s1 addresses bytes in (handler ∷ handlers, s2)

module _ (shuffle : Rng → List SocketAddr → List SocketAddr × Rng) where
  unfoldable pub lucky_broadcast :
      ReliableSender → List SocketAddr → Bytes → ℕ → List CancelHandler × ReliableSender
  unfolding broadcast
  lucky_broadcast s addresses bytes nodes =
      let (shuffled, rng1) = shuffle s.rng addresses in
      broadcast (record s { rng = rng1 }) (take nodes shuffled) bytes
