-- ===== src/Node/Client/Bursts.antt =====
-- What a node makes of the transactions of the client.
use nero_consensus.Prelude.{
  ℕ, zero, suc, ◌≤◌, ◌≡◌, refl, sym, ap, ◌∙◌, inl, inr, Bool-cases, true, false, some, List, [],
  ◌∷◌, ◌++◌, map, length, arith, nat_eq, beq_self, replicate, ltb, Option,
}
use mathlib.Core.List.{append-nil, append_assoc}
use nero_consensus.Prelude.Bytes.{Bytes}
use nero_consensus.Prelude.Result.{ok}
use nero_consensus.Network.Receiver.{message, connection_closed, spawn_runner}
use nero_consensus.Primary.Message.{
  Transaction, PrimaryMessage, transactions, default_transaction, block_hash,
}
use nero_consensus.Primary.Dispatch.{TxReceiverHandler, dispatch, forward}
use nero_consensus.Primary.Election.{RoundState, Election}
use nero_consensus.Primary.Core.State.{Core}
use nero_consensus.Primary.Core.Handlers.{
  handle_transaction, handle_transactions, load_election, load_round, store_election,
  cast_initial_vote, cast_vote,
}
use nero_consensus.Primary.Core.Loads.{
  put_round, load_election-store, load_round-put, put_round_twice, store_election_twice,
}
use nero_consensus.Node.Client.{Client, push_all, send}

handle_transaction_voted :
    (core : Core) (tx : Transaction)
    → (load_round (load_election core (block_hash tx)) (block_hash tx) 0).voted ≡ true
    → handle_transaction core tx
      ≡ store_election core (block_hash tx) (
          put_round 0
            (load_round (load_election core (block_hash tx)) (block_hash tx) 0)
            (load_election core (block_hash tx)))
unfolding handle_transaction
handle_transaction_voted core tx voted = rw voted refl

handle_transaction_free :
    (core : Core) (tx : Transaction)
    → (load_round (load_election core (block_hash tx)) (block_hash tx) 0).voted ≡ false
    → (core' : Core) × (rs : RoundState) × (rs.voted ≡ true)
      × (handle_transaction core tx
          ≡ store_election core'
              (block_hash tx)
              (put_round 0 rs (load_election core (block_hash tx))))
unfolding handle_transaction cast_initial_vote cast_vote
handle_transaction_free core tx free =
    let h = block_hash tx in
    let cast = cast_initial_vote core (load_round (load_election core h) h 0) h in
    (cast.1, cast.0, refl, rw free refl)

-- A transaction whose election the node has voted in changes nothing.
handle_transaction_again :
    (core : Core) (tx : Transaction) (rs : RoundState) (e : Election)
    → rs.voted ≡ true
    → handle_transaction (store_election core (block_hash tx) (put_round 0 rs e)) tx
      ≡ store_election core (block_hash tx) (put_round 0 rs e)
handle_transaction_again core tx rs e voted =
    let h = block_hash tx in
    let e1 = put_round 0 rs e in
    let core1 = store_election core h e1 in
    let stored : load_election core1 h ≡ e1 =
      rw (load_election-store core h h e1, beq_self h) refl in
    let kept : load_round (load_election core1 h) h 0 ≡ rs =
      ap (λ x. load_round x h 0) stored ∙ load_round-put e h 0 0 rs in
    handle_transaction_voted core1 tx (ap (λ s. s.voted) kept ∙ voted)
    ∙ ap (λ s. store_election core1 h (put_round 0 s (load_election core1 h))) kept
    ∙ ap (λ x. store_election core1 h (put_round 0 rs x)) stored
    ∙ ap (store_election core1 h) (put_round_twice 0 rs rs e)
    ∙ store_election_twice core h e1 e1

handle_transaction_twice :
    (core : Core) (tx : Transaction)
    → handle_transaction (handle_transaction core tx) tx ≡ handle_transaction core tx
handle_transaction_twice core tx =
    let h = block_hash tx in
    let e = load_election core h in
    elim (Bool-cases (load_round e h 0).voted) [
      | inl voted ↦
          let once = handle_transaction_voted core tx voted in
          ap (λ c. handle_transaction c tx) once
          ∙ handle_transaction_again core tx (load_round e h 0) e voted
          ∙ sym once
      | inr free ↦
          let (core', rs, voted, once) = handle_transaction_free core tx free in
          ap (λ c. handle_transaction c tx) once
          ∙ handle_transaction_again core' tx rs e voted
          ∙ sym once
    ]

push_all-replicate :
    (n : ℕ) (txs : List Transaction) → push_all n txs ≡ txs ++ replicate n default_transaction
unfolding push_all
push_all-replicate zero txs = sym (append-nil txs)
push_all-replicate (suc n) txs =
    push_all-replicate n (txs ++ default_transaction ∷ [])
    ∙ append_assoc txs (default_transaction ∷ []) (replicate n default_transaction)

handle_transactions_settled :
    (n : ℕ) (core : Core) (tx : Transaction)
    → handle_transaction core tx ≡ core
    → handle_transactions core (replicate n tx) ≡ core
unfolding handle_transactions
handle_transactions_settled zero core tx same = refl
handle_transactions_settled (suc n) core tx same =
    ap (λ c. handle_transactions c (replicate n tx)) same
    ∙ handle_transactions_settled n core tx same

handle_transactions-replicate :
    (n : ℕ) (core : Core) (tx : Transaction)
    → 1 ≤ n
    → handle_transactions core (replicate n tx) ≡ handle_transaction core tx
unfolding handle_transactions
handle_transactions-replicate zero core tx some_n = absurd (omega (arith, some_n))
handle_transactions-replicate (suc n) core tx some_n =
    handle_transactions_settled n (handle_transaction core tx) tx (handle_transaction_twice core tx)

length-replicate : (n : ℕ) (tx : Transaction) → length (replicate n tx) ≡ n
length-replicate zero tx = refl
length-replicate (suc n) tx = ap suc (length-replicate n tx)

-- A client whose size is at least 9, with any rate but none, connects and writes one frame, which
-- reaches the core as one list of as many transactions as the rate says, provided that the node's
-- decoder reads back the lists of transactions that the client's encoder writes. Upon that list
-- the core does what it does for one default transaction.
pub send-handle_transactions :
    (serialize : PrimaryMessage → Bytes) (deserialize : Bytes → Option PrimaryMessage)
    (client : Client) (h : TxReceiverHandler) (core : Core)
    → ((txs : List Transaction)
        → deserialize (serialize (transactions txs)) ≡ some (transactions txs))
    → 9 ≤ client.size
    → 1 ≤ client.rate
    → (frames : List Bytes) × (txs : List Transaction) × (send serialize true true client
        ≡ ok frames)
      × (spawn_runner (dispatch deserialize) (map message frames) h
          ≡ (record h { tx_transactions = h.tx_transactions ++ txs ∷ [] }, connection_closed))
      × (length txs ≡ client.rate)
      × (handle_transactions core txs ≡ handle_transaction core default_transaction)
unfolding send spawn_runner dispatch forward
send-handle_transactions serialize deserialize client h core law large some_rate =
    let txs = replicate client.rate default_transaction in
    let fits : ltb client.size 9 ≡ false = ground arith in
    (
      serialize (transactions txs) ∷ [],
      txs,
      rw (fits, push_all-replicate client.rate []) refl,
      rw (law txs, spawn_runner) refl,
      length-replicate client.rate default_transaction,
      handle_transactions-replicate client.rate core default_transaction some_rate,
    )
