-- ===== src/Primary/Message.antt =====
-- primary/src/messages.rs, and `PrimaryMessage` of general.rs.
use nero_consensus.Prelude.{List}
use nero_consensus.Crypto.{Digest}
use nero_consensus.Primary.Vote.{BlockHash, PrimaryVote}

pub record Transaction : Type 0 where
  pub digest : Digest

-- `Transaction::default`
abbrev pub default_transaction : Transaction
default_transaction = record { digest = 0 }

-- `Transaction::digest`
abbrev pub block_hash : Transaction → BlockHash
block_hash tx = tx.digest

pub data PrimaryMessage : Type 0 where
  send_vote : PrimaryVote → PrimaryMessage
  timer_expired : PrimaryVote → PrimaryMessage
  transactions : List Transaction → PrimaryMessage
