-- ===== src/Network/ReliableSender/Broadcast.antt =====
-- Where the messages of a broadcast of network/src/reliable_sender.rs go.
use nero_consensus.Prelude.{
  ◌+◌, ◌≡◌, refl, ap, sym, ◌∙◌, List, [], ◌∷◌, ◌++◌, unwrap_or, if◌then◌else◌, ◌==◌, Bool-cases,
  inl, inr,
}
use mathlib.Core.List.{append-nil, append_assoc}
use nero_consensus.Prelude.Map.{get, get-insert}
use nero_consensus.Network.Address.{Bytes, SocketAddr, addr_eq, addr_beq_iff}
use nero_consensus.Network.ReliableSender.{
  CancelHandler, InnerMessage, ReliableSender, send, broadcast,
}

-- The messages in the channel to an address.
abbrev pub channel : SocketAddr → ReliableSender → List InnerMessage
channel j s = unwrap_or (get j s.connections) []

-- The numbers from one on, as many as there are addresses.
unfoldable pub numbers : CancelHandler → List SocketAddr → List CancelHandler
numbers first [] = []
numbers first (a ∷ addresses) = first ∷ numbers (first + 1) addresses

-- The messages for one address, when the addresses are served in turn.
unfoldable pub parcels : SocketAddr → CancelHandler → List SocketAddr → Bytes → List InnerMessage
parcels j first [] bytes = []
parcels j first (a ∷ addresses) bytes =
    let rest = parcels j (first + 1) addresses bytes in
    if a == j then (record { bytes = bytes; cancel_handler = first }) ∷ rest else rest

send-channel :
    (s : ReliableSender) (a j : SocketAddr) (bytes : Bytes)
    → channel j (send s a bytes).1
      ≡ channel j s
        ++ (if a == j then (record { bytes = bytes; cancel_handler = s.next_handler }) ∷ [] else [])
unfolding send
send-channel s a j bytes =
    let m : InnerMessage = record { bytes = bytes; cancel_handler = s.next_handler } in
    elim (Bool-cases (a == j)) [
      | inl same ↦
          rw (get-insert a j (channel a s ++ m ∷ []) s.connections, same)
            (ap (λ i. channel i s ++ m ∷ []) ((addr_beq_iff a j).0 same))
      | inr other ↦
          rw (get-insert a j (channel a s ++ m ∷ []) s.connections, other)
            (sym (append-nil (channel j s)))
    ]

-- A broadcast puts one message into the channel of each address, as often as the address is named, at
-- the end and with a handler of its own; no other channel changes, and the handlers that it returns are
-- those of the messages in the order of the addresses.
pub broadcast-channel :
    (s : ReliableSender) (addresses : List SocketAddr) (bytes : Bytes) (j : SocketAddr)
    → let (handlers, s') = broadcast s addresses bytes in
      (channel j s' ≡ channel j s ++ parcels j s.next_handler addresses bytes)
      × (handlers ≡ numbers s.next_handler addresses)
unfolding broadcast parcels numbers send
broadcast-channel s [] bytes j = (sym (append-nil (channel j s)), refl)
broadcast-channel s (a ∷ addresses) bytes j =
    let m : InnerMessage = record { bytes = bytes; cancel_handler = s.next_handler } in
    let later = parcels j (s.next_handler + 1) addresses bytes in
    let ih = broadcast-channel (send s a bytes).1 addresses bytes j in
    (
      ih.0
          ∙ ap (λ ms. ms ++ later) (send-channel s a j bytes)
          ∙ append_assoc (channel j s) (if a == j then m ∷ [] else []) later
          ∙ ap (λ ms. channel j s ++ ms) (here a m later),
      ap (λ hs. s.next_handler ∷ hs) ih.1,
    )
  where
    here :
        (a : SocketAddr) (m : InnerMessage) (later : List InnerMessage)
        → (if a == j then m ∷ [] else []) ++ later ≡ (if a == j then m ∷ later else later)
    here a m later = elim (Bool-cases (a == j)) [ inl same ↦ rw same | inr other ↦ rw other ]
