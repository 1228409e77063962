-- ===== src/Primary/Spawn.antt =====
-- primary/src/primary.rs, `Primary::spawn`: where the receiver listens, and the core that starts.
use nero_consensus.Prelude.{ℕ, Bool, Option, some, ◌>>=◌}
use nero_consensus.Random.{Rng}
use nero_consensus.Network.Address.{SocketAddr}
use nero_consensus.Config.{Committee, Parameters}
use nero_consensus.Config.Files.{KeyPair}
use nero_consensus.Primary.Dispatch.{peers, listen_address}
use nero_consensus.Primary.Core.State.{Core, Env, spawn}

-- The fields of `Primary`; the store is not read again.
pub record Primary : Type 0 where
  pub keypair : KeyPair
  pub committee : Committee
  pub parameters : Parameters
  pub byzantine_node : Bool

-- `none` where the node is not in its committee, and the code panics.
unfoldable pub spawn_primary : Env → ℕ → Primary → Rng → Rng → Option (SocketAddr × Core)
unfolding listen_address spawn peers
spawn_primary env localhost primary rng seed = do
  address ← listen_address localhost primary.committee primary.keypair.name
  some (
    address,
    spawn env primary.keypair.name (peers primary.committee primary.keypair.name)
        primary.byzantine_node rng seed,
  )
