-- ===== src/Protocol/Delivery.antt =====
-- From the log of one node to the core of another: core.rs, the channel of reliable_sender.rs, receiver.rs
-- and the dispatch of primary.rs.
use nero_consensus.Prelude.{
  ◌≡◌, refl, ap, sym, ◌∙◌, inl, inr, Bool, some, Option, List, [], ◌∷◌, ◌++◌, map, All, All-append,
  All-map, subst,
}
use nero_consensus.Random.{Rng}
use nero_consensus.Crypto.{PublicKey}
use nero_consensus.Network.Address.{Bytes, SocketAddr}
use nero_consensus.Network.Receiver.{message, spawn_runner}
use nero_consensus.Network.ReliableSender.Broadcast.{channel}
use nero_consensus.Primary.Vote.{PrimaryVote}
use nero_consensus.Primary.Message.{PrimaryMessage, send_vote, timer_expired, transactions}
use nero_consensus.Primary.Dispatch.{TxReceiverHandler, dispatch}
use nero_consensus.Primary.Dispatch.Channels.{readable, votes_in, spawn_runner-dispatch}
use nero_consensus.Primary.Core.State.{Core, Env, Sent, spawn}
use nero_consensus.Primary.Core.Handlers.{Event, run}
use nero_consensus.Primary.Core.Honest.{SentIn}
use nero_consensus.Primary.Core.Outbox.{messages, times, contents}
use nero_consensus.Primary.Core.Outbox.Runs.{run-Outbox}

module _ (deserialize : Bytes → Option PrimaryMessage) where
  -- Frames that are messages are read as these.
  readable-map :
      (env : Env) (ms : List PrimaryMessage)
      → ((m : PrimaryMessage) → deserialize (env.serialize m) ≡ some m)
      → readable deserialize (map message (map env.serialize ms)) ≡ ms
  unfolding readable
  readable-map env [] law = refl
  readable-map env (m ∷ ms) law = rw (law m) (ap (λ rest. m ∷ rest) (readable-map env ms law))

  votes_in-append :
      (ms ns : List PrimaryMessage)
      → votes_in deserialize (ms ++ ns) ≡ votes_in deserialize ms ++ votes_in deserialize ns
  unfolding votes_in
  votes_in-append [] ns = refl
  votes_in-append (send_vote v ∷ ms) ns = ap (λ vs. v ∷ vs) (votes_in-append ms ns)
  votes_in-append (timer_expired v ∷ ms) ns = votes_in-append ms ns
  votes_in-append (transactions txs ∷ ms) ns = votes_in-append ms ns

  -- The votes among what was broadcast, oldest first.
  abbrev pub votes_sent : List Sent → List PrimaryVote
  votes_sent log = votes_in deserialize (messages log)

  last_SentIn :
      (s : Sent) (log : List Sent) (m : PrimaryMessage)
      → s.message ≡ m
      → All (λ v. SentIn v (s ∷ log)) (votes_in deserialize (m ∷ []))
  unfolding votes_in
  last_SentIn s log (send_vote v) this = (inl this, tt)
  last_SentIn s log (timer_expired v) this = tt
  last_SentIn s log (transactions txs) this = tt

  votes_sent-SentIn : (log : List Sent) → All (λ v. SentIn v log) (votes_sent log)
  unfolding messages votes_in
  votes_sent-SentIn [] = tt
  votes_sent-SentIn (s ∷ log) =
      subst (All (λ v. SentIn v (s ∷ log))) (sym (votes_in-append (messages log) (s.message ∷ [])))
        (All-append (λ v. SentIn v (s ∷ log)) (votes_sent log)
          (votes_in deserialize (s.message ∷ []))
          (All-map _ _ (λ v out. inr out) (votes_sent log) (votes_sent-SentIn log))
          (last_SentIn s log s.message refl))

  -- What a node has put into the channel to a peer whose address it lists once, read by the peer's
  -- receiver in that order and decoded as it was encoded, reaches the peer's core as the votes that the
  -- node has sent, oldest first, each once and no others, whatever the node itself received.
  pub channel-delivered :
      (env : Env) (id : PublicKey) (peers : List (PublicKey × SocketAddr)) (byzantine : Bool)
      (rng seed : Rng) (events : List Event) (core : Core) (j : SocketAddr) (h : TxReceiverHandler)
      → times j (map (λ e. e.1) peers) ≡ 1
      → ((m : PrimaryMessage) → deserialize (env.serialize m) ≡ some m)
      → run (spawn env id peers byzantine rng seed) events ≡ some core
      → ((spawn_runner
            (dispatch deserialize)
            (map message (contents (channel j core.network)))
            h).0.tx_votes
          ≡ h.tx_votes ++ votes_sent core.log)
        × All (λ v. SentIn v core.log) (votes_sent core.log)
  channel-delivered env id peers byzantine rng seed events core j h once law ran =
      let frames = map message (contents (channel j core.network)) in
      (
        (spawn_runner-dispatch deserialize frames h).0
            ∙ ap
                (λ bytes.
                  h.tx_votes ++ votes_in deserialize (readable deserialize (map message bytes)))
                (run-Outbox env peers j once id byzantine rng seed events core ran)
            ∙ ap (λ ms. h.tx_votes ++ votes_in deserialize ms)
                (readable-map env (messages core.log) law),
        votes_sent-SentIn core.log,
      )
