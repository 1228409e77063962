-- ===== src/Network/SimpleSender/BestEffort.antt =====
-- What the best effort of network/src/simple_sender.rs comes to.
use nero_consensus.Prelude.{
  ◌≡◌, refl, sym, ◌∙◌, ap, Bool, true, false, some, List, [], ◌∷◌, ◌++◌, arith, ◌==◌, Bool-cases,
  Option-cases, inl, inr,
}
use nero_consensus.Prelude.Map.{get, get-insert, get-insert_self}
use nero_consensus.Prelude.Sets.{contains}
use nero_consensus.Network.Address.{Bytes, SocketAddr, addr_eq, addr_beq_iff}
use nero_consensus.Network.SimpleSender.{
  Channel, SimpleSender, push, reuse, send, broadcast, Event, message_received, reply_received,
  transmit, run,
}

-- The messages of the callers.
unfoldable pub messages : List Event → List Bytes
messages [] = []
messages (message_received bytes sent ∷ rest) = bytes ∷ messages rest
messages (reply_received readable ∷ rest) = messages rest

transmit-messages :
    (events : List Event) → (lost : List Bytes) × (messages events ≡ transmit events ++ lost)
unfolding messages transmit
transmit-messages [] = ([], refl)
transmit-messages (message_received bytes true ∷ rest) =
    let (lost, split) = transmit-messages rest in (lost, ap (λ ms. bytes ∷ ms) split)
transmit-messages (message_received bytes false ∷ rest) = (bytes ∷ messages rest, refl)
transmit-messages (reply_received true ∷ rest) = transmit-messages rest
transmit-messages (reply_received false ∷ rest) = (messages rest, refl)

-- What a connection writes is a first part of what it was given, in the same order: once a message is
-- lost, all later ones are.
pub run-messages :
    (connected : Bool) (events : List Event)
    → (lost : List Bytes) × (messages events ≡ run connected events ++ lost)
unfolding run
run-messages true events = transmit-messages events
run-messages false events = (messages events, refl)

-- The channel to the address ends with the message.
abbrev pub Queued : Bytes → SocketAddr → SimpleSender → Type 0
Queued bytes a s =
    (tx : Channel) × (queue : List Bytes) × (get a s.connections ≡ some tx)
    × (tx.queue ≡ queue ++ bytes ∷ [])

send-other :
    (survives : SocketAddr → Bool) (s : SimpleSender) (a j : SocketAddr) (bytes : Bytes)
    → (a == j) ≡ false
    → get j (send survives s a bytes).connections ≡ get j s.connections
unfolding send
send-other survives s a j bytes other = elim (Option-cases (reuse s a bytes)) [
  | inr (tx, old) ↦ rw (send, old) (rw (get-insert a j tx s.connections, other))
  | inl new ↦
      rw (send, new)
        (elim (Option-cases (push (record { is_open = survives a; queue = [] }) bytes)) [
          | inr (tx, made) ↦ rw made (rw (get-insert a j tx s.connections, other))
          | inl lost ↦ rw lost
        ])
]

broadcast-other :
    (survives : SocketAddr → Bool) (s : SimpleSender) (addresses : List SocketAddr) (j : SocketAddr)
    (bytes : Bytes)
    → contains j addresses ≡ false
    → get j (broadcast survives s addresses bytes).connections ≡ get j s.connections
unfolding broadcast contains
broadcast-other survives s [] j bytes h = refl
broadcast-other survives s (a ∷ addresses) j bytes h =
    broadcast-other survives (send survives s a bytes) addresses j bytes (ground (arith, h))
    ∙ send-other survives s a j bytes (ground (arith, h))

push-queue :
    (old tx : Channel) (bytes : Bytes)
    → push old bytes ≡ some tx
    → tx.queue ≡ old.queue ++ bytes ∷ []
unfolding push
push-queue old tx bytes h = ground arith

reuse-queue :
    (s : SimpleSender) (a : SocketAddr) (tx : Channel) (bytes : Bytes)
    → reuse s a bytes ≡ some tx
    → (queue : List Bytes) × (tx.queue ≡ queue ++ bytes ∷ [])
unfolding reuse
reuse-queue s a tx bytes h = elim (Option-cases (get a s.connections)) [
  | inl absent ↦ absurd (ground arith)
  | inr (old, there) ↦ (old.queue, push-queue old tx bytes (rw (reuse, there) at h))
]

send-Queued :
    (survives : SocketAddr → Bool) (s : SimpleSender) (a : SocketAddr) (bytes : Bytes)
    → survives a ≡ true
    → Queued bytes a (send survives s a bytes)
unfolding send push
send-Queued survives s a bytes alive = elim (Option-cases (reuse s a bytes)) [
  | inr (tx, old) ↦
      rw (send, old)
        (
          tx,
          (reuse-queue s a tx bytes old).0,
          get-insert_self a tx s.connections,
          (reuse-queue s a tx bytes old).1,
        )
  | inl new ↦
      rw (send, new, alive)
        (
          record { is_open = true; queue = bytes ∷ [] },
          [],
          get-insert_self a (record { is_open = true; queue = bytes ∷ [] }) s.connections,
          refl,
        )
]

-- A broadcast puts the message at the end of the channel to each of the addresses, when the task of a
-- new channel is still there to take it.
pub broadcast-Queued :
    (survives : SocketAddr → Bool) (s : SimpleSender) (addresses : List SocketAddr) (j : SocketAddr)
    (bytes : Bytes)
    → survives j ≡ true
    → contains j addresses ≡ true
    → Queued bytes j (broadcast survives s addresses bytes)
unfolding broadcast contains
broadcast-Queued survives s [] j bytes alive h = absurd (ground arith)
broadcast-Queued survives s (a ∷ addresses) j bytes alive h =
    elim (Bool-cases (contains j addresses)) [
      | inl later ↦
          broadcast-Queued survives (send survives s a bytes) addresses j bytes alive later
      | inr last ↦
          let same : a ≡ j = ground (arith, h, last, addr_beq_iff a j) in
          let (tx, queue, there, ends) =
            send-Queued survives s a bytes (ap survives same ∙ alive) in
          (
            tx,
            queue,
            broadcast-other survives (send survives s a bytes) addresses j bytes last
                ∙ ap (λ i. get i (send survives s a bytes).connections) (sym same)
                ∙ there,
            ends,
          )
    ]
