-- ===== src/Primary/Core/Outbox.antt =====
-- primary/src/core.rs and network/src/reliable_sender.rs: what a node has put into the channel to a peer.
pub mod Runs
use nero_consensus.Prelude.{
  ℕ, ◌+◌, ◌≡◌, refl, ap, sym, ◌∙◌, List, [], ◌∷◌, ◌++◌, map, if◌then◌else◌, ◌==◌, Bool-cases, inl,
  inr, arith, true, false,
}
use nero_consensus.Crypto.{PublicKey}
use nero_consensus.Network.Address.{Bytes, SocketAddr, addr_eq}
use nero_consensus.Network.ReliableSender.{CancelHandler, InnerMessage, ReliableSender}
use nero_consensus.Network.ReliableSender.Broadcast.{channel, parcels, broadcast-channel}
use nero_consensus.Primary.Message.{PrimaryMessage}
use nero_consensus.Primary.Vote.{Round}
use nero_consensus.Primary.Core.State.{Core, Env, Sent, addresses, broadcast_message}

-- What was broadcast, oldest first.
unfoldable pub messages : List Sent → List PrimaryMessage
messages [] = []
messages (s ∷ log) = messages log ++ s.message ∷ []

-- How often a list names an address.
unfoldable pub times : SocketAddr → List SocketAddr → ℕ
times j [] = 0
times j (a ∷ addresses) = (if a == j then 1 else 0) + times j addresses

-- The bytes of the messages in a channel.
abbrev pub contents : List InnerMessage → List Bytes
contents = map (λ m. m.bytes)

map-append {ℓ κ} :
    {A : Type ℓ} {B : Type κ} (f : A → B) (xs ys : List A) → map f (xs ++ ys) ≡ map f xs ++ map f ys
map-append f [] ys = refl
map-append f (x ∷ xs) ys = ap (λ zs. f x ∷ zs) (map-append f xs ys)

parcels-none :
    (j : SocketAddr) (first : CancelHandler) (to : List SocketAddr) (bytes : Bytes)
    → times j to ≡ 0
    → parcels j first to bytes ≡ []
unfolding times parcels
parcels-none j first [] bytes never = refl
parcels-none j first (a ∷ to) bytes never = elim (Bool-cases (a == j)) [
  | inl same ↦ absurd (ground (arith, never, same))
  | inr other ↦ rw other (parcels-none j (first + 1) to bytes (ground (arith, never, other)))
]

-- An address that is named once gets one message.
parcels-once :
    (j : SocketAddr) (first : CancelHandler) (to : List SocketAddr) (bytes : Bytes)
    → times j to ≡ 1
    → contents (parcels j first to bytes) ≡ bytes ∷ []
unfolding times parcels
parcels-once j first [] bytes once = absurd (omega (arith, once))
parcels-once j first (a ∷ to) bytes once = elim (Bool-cases (a == j)) [
  | inl same ↦ rw same (
      ap (λ ms. bytes ∷ contents ms)
        (parcels-none j (first + 1) to bytes (ground (arith, once, same))))
  | inr other ↦ rw other (parcels-once j (first + 1) to bytes (ground (arith, once, other)))
]

module _ (env : Env) (peers : List (PublicKey × SocketAddr)) (j : SocketAddr) where
  -- The channel holds what was broadcast, in order.
  abbrev pub Outbox : Core → Type 0
  Outbox core =
      (core.env ≡ env)
      × (core.primary_addresses ≡ peers)
      × (contents (channel j core.network) ≡ map env.serialize (messages core.log))

  pub broadcast_message-Outbox :
      (core : Core) (message : PrimaryMessage) (round : Round)
      → times j (map (λ e. e.1) peers) ≡ 1
      → Outbox core
      → Outbox (broadcast_message core message (addresses core) round)
  unfolding broadcast_message messages
  broadcast_message-Outbox core message round once (same, listed, held) =
      let bytes = core.env.serialize message in
      let to = addresses core in
      let put = (broadcast-channel core.network to bytes j).0 in
      (
        same,
        listed,
        ap contents put
            ∙ map-append (λ m. m.bytes) (channel j core.network)
                (parcels j core.network.next_handler to bytes)
            ∙ ap (λ ms. contents (channel j core.network) ++ ms)
                (parcels-once j core.network.next_handler to bytes
                  (ap (λ ps. times j (map (λ e. e.1) ps)) listed ∙ once))
            ∙ ap (λ ms. ms ++ bytes ∷ []) held
            ∙ ap (λ n. map env.serialize (messages core.log) ++ n.serialize message ∷ []) same
            ∙ sym (map-append env.serialize (messages core.log) (message ∷ [])),
      )
