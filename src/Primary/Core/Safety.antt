-- ===== src/Primary/Core/Safety.antt =====
-- What a node that was just spawned never does, whatever it receives.
use nero_consensus.Prelude.{◌≡◌, Bool, some, List, [], All, All-map, nat_eq}
use nero_consensus.Random.{Rng}
use nero_consensus.Crypto.{PublicKey}
use nero_consensus.Network.Address.{SocketAddr}
use nero_consensus.Primary.Vote.{BlockHash, Round, Value}
use nero_consensus.Prelude.Map.{get}
use nero_consensus.Primary.Core.Decided.{run-decided}
use nero_consensus.Primary.Message.{PrimaryMessage, send_vote}
use nero_consensus.Primary.Core.State.{Core, Env, spawn}
use nero_consensus.Primary.Core.Handlers.{Event, run}
use nero_consensus.Primary.Core.Loads.{round_of}
use nero_consensus.Primary.Core.Invariant.{Inv, IsCast, IsProper, OnePerRound}
use nero_consensus.Primary.Core.Runs.{spawn-Inv, run-Inv}

-- The node's own vote, with the proof that its round asks for.
abbrev pub IsOwn : PublicKey → PrimaryMessage → Type 0
IsOwn id (send_vote v) = (v.signer ≡ id) × IsProper v
IsOwn id _ = ⊥

IsCast-IsOwn : (core : Core) (m : PrimaryMessage) → IsCast core m → IsOwn core.id m
IsCast-IsOwn core (send_vote v) c = (c.0, c.2)
IsCast-IsOwn core _ c = absurd c

module _ (env : Env) (id : PublicKey) (peers : List (PublicKey × SocketAddr)) (byzantine : Bool)
    (rng seed : Rng) (events : List Event) {core : Core}
    (ran : run (spawn env id peers byzantine rng seed) events ≡ some core) where
  reached : Inv core
  reached =
      run-Inv (spawn env id peers byzantine rng seed) events
        (spawn-Inv env id peers byzantine rng seed) ran

  -- A value that a node has recorded for an election stays the one that it has recorded, whatever it
  -- receives afterwards.
  pub decided_stays :
      (later : List Event) {core' : Core} (h : BlockHash) (v : Value)
      → run core later ≡ some core'
      → get h core.decided ≡ some v
      → get h core'.decided ≡ some v
  decided_stays later h v eq known = run-decided core later h v reached eq known

  -- In each round of each election a node broadcasts one vote at most: no two messages of its log
  -- are votes for the same round and election.
  pub run-OnePerRound : OnePerRound core.log
  run-OnePerRound = reached.single

  -- Every message that a node has broadcast is a vote that names the node itself as its signer. It
  -- is an initial vote of round 0 without proof, or its proof holds the hashes of a quorum, sorted
  -- and distinct.
  pub run-IsOwn : All (λ s. IsOwn core.id s.message) core.log
  run-IsOwn = All-map _ _ (λ s. IsCast-IsOwn core s.message) core.log reached.cast

  -- No round of any election that a node keeps ever holds a vote that waits for its proof.
  pub run_settled : (h : BlockHash) (r : Round) → (round_of core h r).unvalidated_votes ≡ []
  run_settled h r = (reached.sound h r).settled
