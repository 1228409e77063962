-- ===== src/Primary/Dispatch/Channels.antt =====
-- What the core gets to see of the messages of a connection.
use nero_consensus.Prelude.{
  ◌≡◌, ◌∙◌, sym, Option, none, some, List, [], ◌∷◌, ◌++◌, Option-cases, inl, inr,
}
use mathlib.Core.List.{append-nil, append_assoc}
use nero_consensus.Network.Address.{Bytes}
use nero_consensus.Network.Receiver.{Frame, message, failed_to_receive, spawn_runner}
use nero_consensus.Primary.Vote.{PrimaryVote}
use nero_consensus.Primary.Message.{
  PrimaryMessage, Transaction, send_vote, timer_expired, transactions,
}
use nero_consensus.Primary.Dispatch.{TxReceiverHandler, forward, dispatch}

module _ (deserialize : Bytes → Option PrimaryMessage) where
  -- The messages up to the first frame that is no message, or that does not deserialize.
  unfoldable pub readable : List Frame → List PrimaryMessage
  readable [] = []
  readable (failed_to_receive ∷ frames) = []
  readable (message bytes ∷ frames) =
      let rest = readable frames in elim (deserialize bytes) [ none ↦ [] | some m ↦ m ∷ rest ]

  -- The votes among the messages, and the batches of transactions.
  unfoldable pub votes_in : List PrimaryMessage → List PrimaryVote
  votes_in [] = []
  votes_in (send_vote v ∷ ms) = v ∷ votes_in ms
  votes_in (timer_expired v ∷ ms) = votes_in ms
  votes_in (transactions txs ∷ ms) = votes_in ms

  unfoldable pub batches_in : List PrimaryMessage → List (List Transaction)
  batches_in [] = []
  batches_in (send_vote v ∷ ms) = batches_in ms
  batches_in (timer_expired v ∷ ms) = batches_in ms
  batches_in (transactions txs ∷ ms) = txs ∷ batches_in ms

  -- What a handler's channels held, and the messages that came in since.
  abbrev pub Holds : TxReceiverHandler → List PrimaryMessage → TxReceiverHandler → Type 0
  Holds h ms h' =
      (h'.tx_votes ≡ h.tx_votes ++ votes_in ms)
      × (h'.tx_transactions ≡ h.tx_transactions ++ batches_in ms)

  forward-Holds :
      (m : PrimaryMessage) (ms : List PrimaryMessage) (h h' : TxReceiverHandler)
      → Holds (forward m h) ms h'
      → Holds h (m ∷ ms) h'
  unfolding forward votes_in batches_in
  forward-Holds (send_vote v) ms h h' (vs, ts) =
      (vs ∙ append_assoc h.tx_votes (v ∷ []) (votes_in ms), ts)
  forward-Holds (timer_expired v) ms h h' (vs, ts) = (vs, ts)
  forward-Holds (transactions txs) ms h h' (vs, ts) =
      (vs, ts ∙ append_assoc h.tx_transactions (txs ∷ []) (batches_in ms))

  -- The votes and the batches of a connection reach the core's channels in the order in which they
  -- came, each once, up to the first frame that cannot be read or does not deserialize; nothing after
  -- that frame does.
  pub spawn_runner-dispatch :
      (frames : List Frame) (h : TxReceiverHandler)
      → Holds h (readable frames) (spawn_runner (dispatch deserialize) frames h).0
  unfolding spawn_runner dispatch forward readable votes_in batches_in
  spawn_runner-dispatch [] h = (sym (append-nil h.tx_votes), sym (append-nil h.tx_transactions))
  spawn_runner-dispatch (failed_to_receive ∷ frames) h =
      (sym (append-nil h.tx_votes), sym (append-nil h.tx_transactions))
  spawn_runner-dispatch (message bytes ∷ frames) h = elim (Option-cases (deserialize bytes)) [
    | inl garbled ↦
        rw (spawn_runner, dispatch, readable, garbled)
          (sym (append-nil h.tx_votes), sym (append-nil h.tx_transactions))
    | inr (m, known) ↦
        rw (spawn_runner, dispatch, readable, known)
          (forward-Holds m (readable frames) h
            (spawn_runner (dispatch deserialize) frames (forward m h)).0
            (spawn_runner-dispatch frames (forward m h)))
  ]
