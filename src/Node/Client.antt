-- ===== src/Node/Client.antt =====
-- node/src/benchmark_client.rs: the client that submits transactions to a node.
pub mod Bursts
use nero_consensus.Prelude.{
  ℕ, zero, suc, Bool, true, false, ◌&&◌, List, [], ◌∷◌, ◌++◌, ltb, if◌then◌else◌,
}
use nero_consensus.Prelude.Bytes.{Bytes}
use nero_consensus.Prelude.Result.{Result, ok, err}
use nero_consensus.Network.Address.{SocketAddr}
use nero_consensus.Primary.Message.{Transaction, PrimaryMessage, transactions, default_transaction}

pub record Client : Type 0 where
  pub target : SocketAddr
  pub size : ℕ
  pub rate : ℕ
  pub nodes : List SocketAddr

-- The errors that `send` returns.
pub data SendError : Type 0 where
  too_small failed_to_connect : SendError

-- `for x in 0..self.rate`
unfoldable pub push_all : ℕ → List Transaction → List Transaction
push_all zero txs = txs
push_all (suc n) txs = push_all n (txs ++ default_transaction ∷ [])

-- `send`: the frames that it writes, when the connection is made or not, and the one write succeeds
-- or not, which is a warning only.
unfoldable pub send :
    (PrimaryMessage → Bytes) → Bool → Bool → Client → Result SendError (List Bytes)
unfolding push_all
send serialize connected written client =
    if ltb client.size 9
    then err too_small
    else if connected
    then ok (if written then serialize (transactions (push_all client.rate [])) ∷ [] else [])
    else err failed_to_connect

-- `while TcpStream::connect(address).await.is_err()`, on what the attempts come to: whether the node
-- is reached.
unfoldable pub wait_for : List Bool → Bool
wait_for [] = false
wait_for (true ∷ attempts) = true
wait_for (false ∷ attempts) = wait_for attempts

-- `wait`: all nodes are reached.
unfoldable pub wait : List (SocketAddr × List Bool) → Bool
unfolding wait_for
wait [] = true
wait ((address, attempts) ∷ nodes) = wait_for attempts && wait nodes
