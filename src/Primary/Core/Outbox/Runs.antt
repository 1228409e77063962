-- ===== src/Primary/Core/Outbox/Runs.antt =====
-- What a run leaves in the channel to a peer, and what the peer makes of it.
use nero_consensus.Prelude.{
  ◌≡◌, refl, sym, inl, inr, Bool, not, ◌&&◌, some, List, [], ◌∷◌, map, arith, ◌==◌, nat_eq,
  Bool-cases, Option-cases, >>=-eq-some, ◌>>=◌, subst, length, leb,
}
use mathlib.Core.Option.{some-injective}
use nero_consensus.Prelude.Map.{get, contains_key}
use nero_consensus.Prelude.Sets.{contains}
use nero_consensus.Random.{Rng}
use nero_consensus.Crypto.{PublicKey}
use nero_consensus.Network.Address.{SocketAddr}
use nero_consensus.Network.ReliableSender.Broadcast.{channel}
use nero_consensus.Primary.General.{quorum}
use nero_consensus.Primary.Vote.{
  BlockHash, Round, PrimaryVote, ValidationStatus, valid, invalid, pending, vote_eq, type_eq,
  decide, random_vote,
}
use nero_consensus.Primary.Message.{Transaction, block_hash}
use nero_consensus.Primary.Election.{RoundState, Election}
use nero_consensus.Primary.Core.State.{Core, Env, spawn, vote_hash}
use nero_consensus.Primary.Core.Validate.{validate_vote, make_decision}
use nero_consensus.Primary.Core.Handlers.{
  load_election, load_round, store_election, cast_vote, cast_initial_vote, admit_vote, answer,
  next_round_vote, record_decision, cast_next, advance, next, try_advance, dispatch_vote, note_vote,
  handle_vote, handle_transaction, handle_transactions, step, run, Event, vote_received,
  transactions_received,
}
use nero_consensus.Primary.Core.Loads.{round_of, put_round}
use nero_consensus.Primary.Core.Invariant.{Inv, load-Inv, set_rng-Inv}
use nero_consensus.Primary.Core.Steps.{make_decision_core}
use nero_consensus.Primary.Core.Runs.{
  validate_vote_core, dispatch_valid, note_vote-Inv, step-Inv, spawn-Inv,
}
use nero_consensus.Primary.Core.Outbox.{messages, times, contents, Outbox, broadcast_message-Outbox}

module _ (env : Env) (peers : List (PublicKey × SocketAddr)) (j : SocketAddr)
    (once : times j (map (λ e. e.1) peers) ≡ 1) where
  abbrev Kept : Core → Type 0
  Kept = Outbox env peers j

  cast_vote-Kept :
      (core : Core) (rs : RoundState) (v : PrimaryVote) → Kept core → Kept (cast_vote core rs v).1
  unfolding cast_vote
  cast_vote-Kept core rs v kept = broadcast_message-Outbox env peers j core _ v.round once kept

  cast_initial-Kept :
      (core : Core) (rs : RoundState) (h : BlockHash)
      → Kept core
      → Kept (cast_initial_vote core rs h).1
  unfolding cast_initial_vote
  cast_initial-Kept core rs h kept =
      let (v, rng) = random_vote core.id h core.rng in
      cast_vote-Kept (record core { rng = rng }) rs v kept

  cast_next-Kept :
      (core : Core) (e : Election) (rs : RoundState) (n : Round) (v : PrimaryVote)
      → Kept core
      → Kept (cast_next core e rs n v).1
  unfolding cast_next
  cast_next-Kept core e rs n v kept = elim (Bool-cases (v.vote_type == decide)) [
    | inl decides ↦ rw (decides, record_decision) (cast_vote-Kept core rs v kept)
    | inr other ↦ rw (other, record_decision) (cast_vote-Kept core rs v kept)
  ]

  try_advance-Kept :
      (core : Core) (e : Election) (rs : RoundState) (v : PrimaryVote)
      → Kept core
      → Kept (try_advance core e rs v).1
  unfolding try_advance advance
  try_advance-Kept core e rs v kept =
      let n = next v.round in
      let next_rs = load_round e v.election_hash n in
      elim (Bool-cases
        (leb quorum (length rs.validated_votes) && not next_rs.voted && not e.is_decided)) [
          | inl go ↦
              let (decision, core1) = make_decision core rs.tally in
              let (rng, same) = make_decision_core core rs.tally in
              rw go (
                cast_next-Kept core1 e next_rs n
                  (next_round_vote core1 decision rs n v.election_hash)
                  (subst Kept (sym same) kept))
          | inr stay ↦ rw stay kept
        ]

  answer-Kept :
      (core : Core) (rs : RoundState) (v : PrimaryVote) → Kept core → Kept (answer core rs v).1
  unfolding answer
  answer-Kept core rs v kept = elim (Bool-cases (not rs.voted && v.round == 0)) [
    | inl first ↦ rw first (cast_initial-Kept core rs v.election_hash kept)
    | inr other ↦ rw other kept
  ]

  dispatch_vote-Kept :
      (status : ValidationStatus) (core : Core) (e : Election) (v : PrimaryVote) {core' : Core}
      → Inv (store_election core v.election_hash e)
      → Kept core
      → dispatch_vote status core e (load_round e v.election_hash v.round) v ≡ some core'
      → Kept core'
  unfolding dispatch_vote store_election
  dispatch_vote-Kept valid core e v i kept eq =
      let rs1 = admit_vote core (load_round e v.election_hash v.round) v in
      let (rs2, core2) = answer core rs1 v in
      subst Kept (dispatch_valid core e v i eq)
        (try_advance-Kept core2 (put_round v.round rs2 e) rs2 v (answer-Kept core rs1 v kept))
  dispatch_vote-Kept invalid core e v i kept eq = subst Kept (some-injective _ _ eq) kept
  dispatch_vote-Kept pending core e v {core'} i kept eq = elim (Option-cases v.proof) [
    | inl absent ↦ absurd (ground arith)
    | inr (proof, here) ↦
        let same : store_election core v.election_hash e ≡ core' =
          some-injective _ _ (ground arith) in
        subst Kept same kept
  ]

  note_vote-Kept : (core : Core) (v : PrimaryVote) → Kept core → Kept (note_vote core v)
  unfolding note_vote
  note_vote-Kept core v kept = elim (Bool-cases (contains v core.sent_votes)) [
    | inl seen ↦ rw seen kept
    | inr new ↦ rw new kept
  ]

  validated-Kept :
      (core : Core) (v : PrimaryVote) {core' : Core}
      → Inv core
      → Kept core
      → (do
        (status, core2) ← validate_vote core v
        dispatch_vote status core2
            (load_election core v.election_hash)
            (round_of core v.election_hash v.round)
            v)
        ≡ some core'
      → Kept core'
  unfolding store_election
  validated-Kept core v {core'} i kept eq =
      let e = load_election core v.election_hash in
      let ((status, core2), checked, rest) = >>=-eq-some (validate_vote core v) _ eq in
      let (rng, same) = validate_vote_core core v {x = (status, core2)} checked in
      dispatch_vote-Kept status core2 e v {core' = core'}
        (subst (λ c. Inv (store_election c v.election_hash e)) (sym same)
          (set_rng-Inv (store_election core v.election_hash e) rng
            (load-Inv core v.election_hash i)))
        (subst Kept (sym same) kept) rest

  handle_vote-Kept :
      (core : Core) (v : PrimaryVote) {core' : Core}
      → Inv core
      → Kept core
      → handle_vote core v ≡ some core'
      → Kept core'
  unfolding handle_vote store_election
  handle_vote-Kept core v {core'} i kept eq =
      let core1 = note_vote core v in
      let noted = note_vote-Kept core v kept in
      elim (Bool-cases (
        contains_key (vote_hash core1 v)
          (round_of core1 v.election_hash v.round).validated_votes)) [
            | inl old ↦
                subst Kept
                  (some-injective
                    (store_election core1 v.election_hash (load_election core1 v.election_hash)) _
                    (rw old at eq))
                  noted
            | inr new ↦ validated-Kept core1 v (note_vote-Inv core v i) noted (rw new at eq)
          ]

  handle_transaction-Kept :
      (core : Core) (tx : Transaction) → Kept core → Kept (handle_transaction core tx)
  unfolding handle_transaction store_election
  handle_transaction-Kept core tx kept =
      let rs = load_round (load_election core (block_hash tx)) (block_hash tx) 0 in
      elim (Bool-cases rs.voted) [
        | inl voted ↦ rw voted kept
        | inr free ↦ rw free (cast_initial-Kept core rs (block_hash tx) kept)
      ]

  handle_transactions-Kept :
      (core : Core) (txs : List Transaction) → Kept core → Kept (handle_transactions core txs)
  unfolding handle_transactions
  handle_transactions-Kept core [] kept = kept
  handle_transactions-Kept core (tx ∷ txs) kept =
      handle_transactions-Kept (handle_transaction core tx) txs
        (handle_transaction-Kept core tx kept)

  step-Kept :
      (core : Core) (event : Event) {core' : Core}
      → Inv core
      → Kept core
      → step core event ≡ some core'
      → Kept core'
  unfolding step
  step-Kept core (vote_received v) i kept eq = handle_vote-Kept core v i kept eq
  step-Kept core (transactions_received txs) i kept eq =
      subst Kept (some-injective _ _ eq) (handle_transactions-Kept core txs kept)

  run-Kept :
      (core : Core) (events : List Event) {core' : Core}
      → Inv core
      → Kept core
      → run core events ≡ some core'
      → Kept core'
  unfolding run
  run-Kept core [] i kept eq = subst Kept (some-injective _ _ eq) kept
  run-Kept core (event ∷ events) i kept eq =
      let (core1, stepped, rest) = >>=-eq-some (step core event) _ eq in
      run-Kept core1 events (step-Inv core event i stepped) (step-Kept core event i kept stepped)
        rest

  -- Whatever a node receives, the channel to a peer whose address is listed once holds all that the
  -- node has broadcast, each message once, in order.
  pub run-Outbox :
      (id : PublicKey) (byzantine : Bool) (rng seed : Rng) (events : List Event) (core : Core)
      → run (spawn env id peers byzantine rng seed) events ≡ some core
      → contents (channel j core.network) ≡ map env.serialize (messages core.log)
  unfolding spawn messages get
  run-Outbox id byzantine rng seed events core ran =
      (run-Kept (spawn env id peers byzantine rng seed) events
        (spawn-Inv env id peers byzantine rng seed) (refl, refl, refl) ran).2
