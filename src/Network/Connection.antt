-- ===== src/Network/Connection.antt =====
-- network/src/reliable_sender.rs, `Connection`: the task that keeps one connection alive. What the
-- network and the callers do is an argument of each turn: which handlers are closed, which writes
-- succeed, and what `select!` yields.
pub mod Delivery
pub mod Backoff
use nero_consensus.Prelude.{
  ℕ, ◌+◌, ◌*◌, ◌%◌, ◌^◌, Bool, true, false, not, Option, none, some, List, [], ◌∷◌, ◌++◌, min,
  if◌then◌else◌,
}
use nero_consensus.Network.Address.{Bytes, SocketAddr}
use nero_consensus.Network.ReliableSender.{CancelHandler, InnerMessage}

-- `std::io::Error`, by a number.
abbrev pub IoError : Type 0
IoError = ℕ

-- `keep_alive` ends with one of `failed_to_send_message`, `failed_to_receive_ack` and `unexpected_ack`;
-- the code makes the others for its log alone.
pub data NetworkError : Type 0 where
  failed_to_connect : SocketAddr → ℕ → IoError → NetworkError
  failed_to_listen : IoError → NetworkError
  failed_to_send_message : SocketAddr → IoError → NetworkError
  failed_to_receive_message : SocketAddr → IoError → NetworkError
  failed_to_receive_ack : SocketAddr → NetworkError
  unexpected_ack : SocketAddr → NetworkError

-- `address` and `buffer` are fields of `Connection`, `pending_replies` the local of `keep_alive`; `delivered` is
-- what the callers have been told, the oldest first.
pub record Session : Type 0 where
  pub address : SocketAddr
  pub buffer : List InnerMessage
  pub pending_replies : List InnerMessage
  pub delivered : List (InnerMessage × Bytes)

-- The loop over the buffer: what is left in it, what waits for a reply, and whether a write failed.
pub record Flushed : Type 0 where
  pub left : List InnerMessage
  pub waiting : List InnerMessage
  pub failed : Bool

-- `while let Some((data, handler)) = self.buffer.pop_front()`
unfoldable pub flush :
    (CancelHandler → Bool)
    → (CancelHandler → Bool)
    → List InnerMessage
    → List InnerMessage
    → Flushed
flush closed writes [] pending = record { left = []; waiting = pending; failed = false }
flush closed writes (m ∷ buffer) pending =
    let skip = flush closed writes buffer pending in
    let sent = flush closed writes buffer (pending ++ m ∷ []) in
    if closed m.cancel_handler
    then skip
    else if writes m.cancel_handler
    then sent
    else record { left = m ∷ buffer; waiting = pending; failed = true }

-- What `select!` yields: a message of a caller, or what the reader returns.
pub data Select : Type 0 where
  message_received : InnerMessage → Select
  acknowledged : Bytes → Select
  broken : Select

-- The arm of `select!` for a response.
unfoldable pub on_response : Option Bytes → Session → Session × Option NetworkError
on_response response s = elim s.pending_replies [
  | [] ↦ (s, some (unexpected_ack s.address))
  | m ∷ rest ↦ elim response [
    | none ↦ (s, some (failed_to_receive_ack s.address))
    | some bytes ↦
        (record s { pending_replies = rest; delivered = s.delivered ++ (m, bytes) ∷ [] }, none)
  ]
]

unfoldable pub on_select : Select → Session → Session × Option NetworkError
unfolding on_response
on_select (message_received m) s = (record s { buffer = s.buffer ++ m ∷ [] }, none)
on_select (acknowledged bytes) s = on_response (some bytes) s
on_select broken s = on_response none s

-- `error` is that of the write that fails, if one does.
pub record Turn : Type 0 where
  pub closed : CancelHandler → Bool
  pub writes : CancelHandler → Bool
  pub error : IoError
  pub selected : Select

-- One turn of the loop of `keep_alive`.
unfoldable pub turn : Turn → Session → Session × Option NetworkError
unfolding flush on_select
turn t s =
    let f = flush t.closed t.writes s.buffer s.pending_replies in
    let s1 = record s { buffer = f.left; pending_replies = f.waiting } in
    if f.failed
    then (s1, some (failed_to_send_message s.address t.error))
    else on_select t.selected s1

-- The end of `keep_alive`: what has no reply goes back to the front of the buffer.
unfoldable pub put_back : Session → Session
put_back s = record s { buffer = s.pending_replies ++ s.buffer; pending_replies = [] }

-- `keep_alive`, over the turns until an error or until the script ends.
unfoldable pub turns : Session → List Turn → Session × Option NetworkError
unfolding turn put_back
turns s [] = (s, none)
turns s (t ∷ rest) =
    let (s1, error) = turn t s in
    elim error [ none ↦ turns s1 rest | some e ↦ (put_back s1, some e) ]

unfoldable pub keep_alive :
    SocketAddr → List InnerMessage → List Turn → Session × Option NetworkError
unfolding turns
keep_alive address buffer script =
    turns (record { address = address; buffer = buffer; pending_replies = []; delivered = [] })
      script

-- `buffer.retain(|(_, handler)| !handler.is_closed())`
unfoldable pub retain_open : (CancelHandler → Bool) → List InnerMessage → List InnerMessage
retain_open closed [] = []
retain_open closed (m ∷ buffer) =
    let rest = retain_open closed buffer in if closed m.cancel_handler then rest else m ∷ rest

-- The locals of `run`, with the buffer.
pub record Retry : Type 0 where
  pub address : SocketAddr
  pub buffer : List InnerMessage
  pub delay : ℕ
  pub retry : ℕ

abbrev pub retry_delay : ℕ
retry_delay = 200

-- A connection is established: the delay starts over.
unfoldable pub on_connected : Retry → List Turn → Retry × Option NetworkError
unfolding keep_alive
on_connected r script =
    let (s, error) = keep_alive r.address r.buffer script in
    (record r { buffer = s.buffer; delay = retry_delay; retry = 0 }, error)

-- The two arms of the `select!` of `'waiter`.
unfoldable pub on_timer : Retry → Retry
on_timer r = record r { delay = min (2 * r.delay) 60_000; retry = (r.retry + 1) % 2 ^ 16 }

unfoldable pub on_drained : (CancelHandler → Bool) → InnerMessage → Retry → Retry
unfolding retain_open
on_drained closed m r = record r { buffer = retain_open closed (r.buffer ++ m ∷ []) }

-- What a message meets that arrives while the task waits: the handlers that are closed by then.
pub record Drained : Type 0 where
  pub closed : CancelHandler → Bool
  pub message : InnerMessage

-- `'waiter`: the messages that arrive before the timer fires, then the timer.
unfoldable pub wait : Retry → List Drained → Retry
unfolding on_timer on_drained
wait r [] = on_timer r
wait r (d ∷ rest) = wait (on_drained d.closed d.message r) rest

-- What `TcpStream::connect` yields, with what happens until the loop of `run` comes round.
pub data Attempt : Type 0 where
  accepted : List Turn → Attempt
  refused : List Drained → Attempt

unfoldable pub attempt : Attempt → Retry → Retry
unfolding on_connected wait
attempt (accepted script) r = (on_connected r script).0
attempt (refused drained) r = wait r drained

-- `Connection::run`, over the attempts.
unfoldable pub run : Retry → List Attempt → Retry
unfolding attempt
run r [] = r
run r (a ∷ rest) = run (attempt a r) rest

-- `Connection::spawn`
abbrev pub new_connection : SocketAddr → Retry
new_connection address = record { address = address; buffer = []; delay = retry_delay; retry = 0 }
