-- ===== src/Network/Receiver.antt =====
-- network/src/receiver.rs: the runner of a connection, and the loop that accepts connections, for any
-- handler. The handler's `dispatch` takes
-- the state that it shares and a message; `none` is an error.
pub mod Interleaved
use nero_consensus.Prelude.{ℕ, Option, none, some, List, [], ◌∷◌, nat_eq, if◌then◌else◌}
use nero_consensus.Prelude.Sets.{contains, include, remove}
use nero_consensus.Network.Address.{Bytes}

-- What `reader.next()` yields: a message, or an error of the transport.
pub data Frame : Type 0 where
  message : Bytes → Frame
  failed_to_receive : Frame

-- Why a runner stops.
pub data Stop : Type 0 where
  handler_error receive_error connection_closed : Stop

module _ {ℓ} {S : Type ℓ} (dispatch : Bytes → S → Option S) where
  -- `while let Some(frame) = reader.next().await`
  unfoldable pub spawn_runner : List Frame → S → S × Stop
  spawn_runner [] s = (s, connection_closed)
  spawn_runner (message bytes ∷ frames) s = elim (dispatch bytes s) [
    | none ↦ (s, handler_error)
    | some s1 ↦ spawn_runner frames s1
  ]
  spawn_runner (failed_to_receive ∷ frames) s = (s, receive_error)

-- A connection, by its number.
abbrev pub Connection : Type 0
Connection = ℕ

-- What happens at a receiver: `accept` returns a connection or an error, a connection has a frame, or
-- it is closed by its peer.
pub data Arrival : Type 0 where
  accepted : Connection → Arrival
  failed_to_accept : Arrival
  arrived : Connection → Frame → Arrival
  closed : Connection → Arrival

module _ {ℓ} {S : Type ℓ} (dispatch : Bytes → S → Option S) where
  -- The state that the clones of the handler share, and the connections whose runners go on.
  pub record Receiver : Type ℓ where
    pub shared : S
    pub running : List Connection

  -- One turn of a runner.
  unfoldable pub on_frame : Receiver → Connection → Frame → Receiver
  unfolding remove
  on_frame r c failed_to_receive = record r { running = remove c r.running }
  on_frame r c (message bytes) = elim (dispatch bytes r.shared) [
    | none ↦ record r { running = remove c r.running }
    | some s ↦ record r { shared = s }
  ]

  -- The loop of `run` accepts, and the runners, each a task of its own, take their turns in any order.
  unfoldable pub on_arrival : Receiver → Arrival → Receiver
  unfolding on_frame contains include remove
  on_arrival r (accepted c) = record r { running = include c r.running }
  on_arrival r failed_to_accept = r
  on_arrival r (arrived c frame) = if contains c r.running then on_frame r c frame else r
  on_arrival r (closed c) = record r { running = remove c r.running }

  unfoldable pub run : Receiver → List Arrival → Receiver
  unfolding on_arrival
  run r [] = r
  run r (a ∷ arrivals) = run (on_arrival r a) arrivals
