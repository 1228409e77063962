-- ===== src/Primary/Dispatch.antt =====
-- primary/src/primary.rs: how the messages from the network reach the core.
pub mod Channels
use nero_consensus.Prelude.{Option, none, some, List, [], ◌∷◌, ◌++◌, map, ℕ}
use nero_consensus.Network.Address.{Bytes, SocketAddr}
use nero_consensus.Crypto.{PublicKey}
use nero_consensus.Prelude.Result.{ok, err}
use nero_consensus.Config.{Committee, primary, others_primaries}
use nero_consensus.Primary.Vote.{PrimaryVote}
use nero_consensus.Primary.Message.{
  PrimaryMessage, Transaction, send_vote, timer_expired, transactions,
}

-- `TxReceiverHandler`: what has been sent into its two channels, oldest first.
pub record TxReceiverHandler : Type 0 where
  pub tx_transactions : List (List Transaction)
  pub tx_votes : List PrimaryVote

-- The `match` of `dispatch`.
unfoldable pub forward : PrimaryMessage → TxReceiverHandler → TxReceiverHandler
forward (transactions txs) h = record h { tx_transactions = h.tx_transactions ++ txs ∷ [] }
forward (send_vote vote) h = record h { tx_votes = h.tx_votes ++ vote ∷ [] }
forward (timer_expired vote) h = h

-- `dispatch`, over bincode's `deserialize`.
unfoldable pub dispatch :
    (Bytes → Option PrimaryMessage) → Bytes → TxReceiverHandler → Option TxReceiverHandler
unfolding forward
dispatch deserialize bytes h = elim (deserialize bytes) [
  | none ↦ none
  | some message ↦ some (forward message h)
]

-- The peers that `Primary::spawn` hands to the core.
unfoldable pub peers : Committee → PublicKey → List (PublicKey × SocketAddr)
unfolding others_primaries
peers committee name = map (λ e. (e.0, e.1.transactions)) (others_primaries committee name)

-- `handle_messages`: the address to listen on, on the host given (127.0.0.1); `none` is a panic.
unfoldable pub listen_address : ℕ → Committee → PublicKey → Option SocketAddr
unfolding primary
listen_address localhost committee name = elim (primary committee name) [
  | err e ↦ none
  | ok addresses ↦ some (record addresses.transactions { ip = localhost })
]
