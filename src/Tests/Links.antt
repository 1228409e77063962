-- ===== src/Tests/Links.antt =====
-- The code of network/src, with the handler of primary/src/primary.rs, on concrete inputs.
use nero_consensus.Prelude.{
  ℕ, Option, none, some, ◌≡◌, ◌⊎◌, refl, Bool, true, false, List, [], ◌∷◌, ◌++◌, All, arith, map,
  is_some, ltb,
}
use nero_consensus.Network.ReliableSender.{CancelHandler, InnerMessage}
use nero_consensus.Network.Address.{Bytes, SocketAddr}
use nero_consensus.Network.SimpleSender
use nero_consensus.Network.SimpleSender.BestEffort.{messages, run-messages}
use nero_consensus.Network.Receiver
use nero_consensus.Network.Receiver.{Frame, spawn_runner}
use nero_consensus.Primary.Vote
use nero_consensus.Primary.Vote.{PrimaryVote, initial_vote}
use nero_consensus.Primary.Message.{PrimaryMessage, send_vote, transactions}
use nero_consensus.Primary.Dispatch.{dispatch}
use nero_consensus.Primary.Dispatch.Channels.{readable, votes_in, batches_in, spawn_runner-dispatch}
use nero_consensus.Network.Connection
use nero_consensus.Network.Connection.{
  Turn, message_received, acknowledged, broken, Retry, Drained, Attempt, accepted, refused,
  keep_alive, run, new_connection,
}
use nero_consensus.Network.Connection.Delivery.{
  only, in_order, arrivals, StaysOpen, keep_alive-in_order,
}
use nero_consensus.Network.Connection.Backoff.{run-backoff}

abbrev message : CancelHandler → InnerMessage
message h = record { bytes = h ∷ []; cancel_handler = h }

-- The handler 9 is closed from the start, and no other ever is.
abbrev live : CancelHandler → Bool
live h = ltb h 9

abbrev quiet : Connection.Select → Turn
quiet e = record { closed = λ h. ltb 8 h; writes = λ h. true; error = 0; selected = e }

abbrev host : ℕ → SocketAddr
host n = record { ip = n; port = 80 }

-- Two messages go out, one is acknowledged, another arrives, and then the connection breaks.
abbrev script : List Turn
script = quiet (acknowledged (1 ∷ [])) ∷ quiet (message_received (message 3)) ∷ quiet broken ∷ []

abbrev queue : List InnerMessage
queue = message 1 ∷ message 9 ∷ message 2 ∷ []

script-StaysOpen : All (StaysOpen live) script
script-StaysOpen = (open_all, (open_all, (open_all, tt)))
  where
    open_all : (h : CancelHandler) → live h ≡ true → ltb 8 h ≡ false
    open_all h = ground arith

keep_alive_buffer : (keep_alive (host 1) queue script).0.buffer ≡ message 2 ∷ message 3 ∷ []
unfolding keep_alive Connection.turns Connection.turn Connection.flush Connection.on_select
    Connection.on_response Connection.put_back
keep_alive_buffer = refl

keep_alive-in_order_example :
    (heard rest : List InnerMessage) × (arrivals script ≡ heard ++ rest)
    × (only live (in_order (keep_alive (host 1) queue script).0) ≡ only live (queue ++ heard))
    × ((is_some (keep_alive (host 1) queue script).1 ≡ true) ⊎ (rest ≡ []))
keep_alive-in_order_example = keep_alive-in_order live (host 1) queue script script-StaysOpen

abbrev waits : List (List Drained)
waits = [] ∷ (record { closed = λ h. false; message = message 4 } ∷ []) ∷ [] ∷ []

run-backoff_example :
    ((run (new_connection (host 1)) (accepted script ∷ map refused waits)).delay ≡ 1_600)
    × ((run (new_connection (host 1)) (accepted script ∷ map refused waits)).retry ≡ 3)
run-backoff_example = run-backoff (new_connection (host 1)) script waits

run-messages_example :
    (lost : List Bytes) × (messages (
        SimpleSender.message_received (1 ∷ []) true
        ∷ SimpleSender.message_received (2 ∷ []) false
        ∷ SimpleSender.message_received (3 ∷ []) true
        ∷ [])
      ≡ (1 ∷ []) ∷ lost)
unfolding SimpleSender.run SimpleSender.transmit
run-messages_example = run-messages true (
    SimpleSender.message_received (1 ∷ []) true
    ∷ SimpleSender.message_received (2 ∷ []) false
    ∷ SimpleSender.message_received (3 ∷ []) true
    ∷ [])

abbrev ballot : PrimaryVote
ballot = record {
  signer = 1;
  round = 0;
  value = Vote.zero;
  vote_type = initial_vote;
  proof = none;
  election_hash = 7;
}

-- One byte is a vote, two are transactions, and anything else is garbled.
abbrev decode : Bytes → Option PrimaryMessage
decode (a ∷ []) = some (send_vote ballot)
decode (a ∷ b ∷ []) = some (transactions (record { digest = 7 } ∷ []))
decode _ = none

abbrev frames : List Frame
frames =
    Receiver.message (1 ∷ 2 ∷ [])
    ∷ Receiver.message (1 ∷ [])
    ∷ Receiver.message []
    ∷ Receiver.message (1 ∷ [])
    ∷ []

spawn_runner-dispatch_example :
    ((spawn_runner
        (dispatch decode)
        frames
        (record { tx_transactions = []; tx_votes = [] })).0.tx_votes
      ≡ ballot ∷ [])
    × ((spawn_runner
          (dispatch decode)
          frames
          (record { tx_transactions = []; tx_votes = [] })).0.tx_transactions
        ≡ (record { digest = 7 } ∷ []) ∷ [])
unfolding readable votes_in batches_in
spawn_runner-dispatch_example =
    spawn_runner-dispatch decode frames (record { tx_transactions = []; tx_votes = [] })
