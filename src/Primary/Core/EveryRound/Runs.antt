-- ===== src/Primary/Core/EveryRound/Runs.antt =====
-- What holds of every round, along the runs of a node.
use nero_consensus.Prelude.{
  ◌≡◌, refl, inl, inr, Bool, false, some, List, [], ◌∷◌, sym, arith, nat_eq, Bool-cases,
  Option-cases, >>=-eq-some, ◌>>=◌, subst,
}
use mathlib.Core.Option.{some-injective}
use nero_consensus.Prelude.Map.{get, contains_key}
use nero_consensus.Prelude.Sets.{contains}
use nero_consensus.Random.{Rng}
use nero_consensus.Crypto.{PublicKey}
use nero_consensus.Network.Address.{SocketAddr}
use nero_consensus.Primary.Vote.{
  BlockHash, Round, PrimaryVote, ValidationStatus, valid, invalid, pending, vote_eq, type_eq,
}
use nero_consensus.Primary.Message.{Transaction, block_hash}
use nero_consensus.Primary.Election.{RoundState, Election, tally_vote}
use nero_consensus.Primary.Core.State.{Core, Env, spawn, vote_hash}
use nero_consensus.Primary.Core.Validate.{validate_vote}
use nero_consensus.Primary.Core.Handlers.{
  load_election, load_round, store_election, cast_initial_vote, admit_vote, answer, try_advance,
  dispatch_vote, note_vote, handle_vote, handle_transaction, handle_transactions, step, run, Event,
  vote_received, transactions_received,
}
use nero_consensus.Primary.Core.Loads.{round_of, put_round}
use nero_consensus.Primary.Core.Invariant.{Inv, load-Inv, set_rng-Inv}
use nero_consensus.Primary.Core.Runs.{
  validate_vote_core, dispatch_valid, note_vote-Inv, step-Inv, spawn-Inv,
}
use nero_consensus.Primary.Core.EveryRound.{
  RoundLaws, Every, InHand, answer-Every, cast_initial-Every, put-EveryOf, set_rng-Every,
  store-Every, try_advance-InHand,
}

module _ {env : Env} {id : PublicKey} {P : BlockHash → Round → RoundState → Type 0}
    (laws : RoundLaws env id P) where
  dispatch_vote-Every :
      (status : ValidationStatus) (core : Core) (e : Election) (v : PrimaryVote) {core' : Core}
      → Inv (store_election core v.election_hash e)
      → contains_key (vote_hash core v) (load_round e v.election_hash v.round).validated_votes
        ≡ false
      → InHand laws v.election_hash (e, core)
      → dispatch_vote status core e (load_round e v.election_hash v.round) v ≡ some core'
      → Every laws core'
  unfolding dispatch_vote
  dispatch_vote-Every valid core e v i new (all, held) eq =
      let rs = load_round e v.election_hash v.round in
      let rs1 = admit_vote core rs v in
      let (all2, p2) =
        answer-Every laws core rs1 v (laws.of_admit core v rs all.0 all.1 new (held v.round)) all in
      let rs2 = (answer core rs1 v).0 in
      let core2 = (answer core rs1 v).1 in
      let e2 = put_round v.round rs2 e in
      let last = try_advance core2 e2 rs2 v in
      subst (Every laws) (dispatch_valid core e v i eq) (
        store-Every laws last.1 v.election_hash last.0 (
          try_advance-InHand laws core2 e2 rs2 v
            (all2, put-EveryOf laws v.election_hash e v.round rs2 p2 held)))
  dispatch_vote-Every invalid core e v i new (all, held) eq =
      subst (Every laws) (some-injective _ _ eq) all
  dispatch_vote-Every pending core e v i new (all, held) eq = elim (Option-cases v.proof) [
    | inl absent ↦ absurd (ground arith)
    | inr (proof, here) ↦
        subst (Every laws) (some-injective _ _ (ground arith))
          (store-Every laws core v.election_hash e (all, held))
  ]

  note_vote-Every :
      (core : Core) (v : PrimaryVote) → Every laws core → Every laws (note_vote core v)
  unfolding note_vote load_election
  note_vote-Every core v all = elim (Bool-cases (contains v core.sent_votes)) [
    | inl seen ↦ rw seen all
    | inr new ↦ rw new all
  ]

  validated-Every :
      (core : Core) (v : PrimaryVote) {core' : Core}
      → Inv core
      → contains_key (vote_hash core v) (round_of core v.election_hash v.round).validated_votes
        ≡ false
      → Every laws core
      → (do
        (status, core2) ← validate_vote core v
        dispatch_vote status core2
            (load_election core v.election_hash)
            (round_of core v.election_hash v.round)
            v)
        ≡ some core'
      → Every laws core'
  unfolding store_election
  validated-Every core v {core'} i new all eq =
      let e = load_election core v.election_hash in
      let ((status, core2), checked, rest) = >>=-eq-some (validate_vote core v) _ eq in
      let (rng, same) = validate_vote_core core v {x = (status, core2)} checked in
      dispatch_vote-Every status core2 e v {core' = core'}
        (subst (λ c. Inv (store_election c v.election_hash e)) (sym same)
          (set_rng-Inv (store_election core v.election_hash e) rng
            (load-Inv core v.election_hash i)))
        (subst
          (λ c.
            contains_key (vote_hash c v) (load_round e v.election_hash v.round).validated_votes
            ≡ false)
          (sym same) new)
        (subst (Every laws) (sym same) (set_rng-Every laws core rng all), all.2 v.election_hash)
        rest

  handle_vote-Every :
      (core : Core) (v : PrimaryVote) {core' : Core}
      → Inv core
      → Every laws core
      → handle_vote core v ≡ some core'
      → Every laws core'
  unfolding handle_vote
  handle_vote-Every core v {core'} i all eq =
      let core1 = note_vote core v in
      let noted = note_vote-Every core v all in
      elim (Bool-cases (
        contains_key (vote_hash core1 v)
          (round_of core1 v.election_hash v.round).validated_votes)) [
            | inl old ↦ subst (Every laws) (some-injective _ _ (rw old at eq)) (
                store-Every laws core1 v.election_hash (load_election core1 v.election_hash)
                  (noted, noted.2 v.election_hash))
            | inr new ↦ validated-Every core1 v (note_vote-Inv core v i) new noted (rw new at eq)
          ]

  handle_transaction-Every :
      (core : Core) (tx : Transaction) → Every laws core → Every laws (handle_transaction core tx)
  unfolding handle_transaction get tally_vote
  handle_transaction-Every core tx all =
      let h = block_hash tx in
      let e = load_election core h in
      let rs = load_round e h 0 in
      elim (Bool-cases rs.voted) [
        | inl voted ↦ rw voted (
            store-Every laws core h (put_round 0 rs e)
              (all, put-EveryOf laws h e 0 rs (all.2 h 0) (all.2 h)))
        | inr free ↦
            let (all1, p1) = cast_initial-Every laws core rs h free (all.2 h 0) all in
            let cast = cast_initial_vote core rs h in
            rw free (
              store-Every laws cast.1 h (put_round 0 cast.0 e)
                (all1, put-EveryOf laws h e 0 cast.0 p1 (all.2 h)))
      ]

  handle_transactions-Every :
      (core : Core) (txs : List Transaction)
      → Every laws core
      → Every laws (handle_transactions core txs)
  unfolding handle_transactions
  handle_transactions-Every core [] all = all
  handle_transactions-Every core (tx ∷ txs) all =
      handle_transactions-Every (handle_transaction core tx) txs
        (handle_transaction-Every core tx all)

  step-Every :
      (core : Core) (event : Event) {core' : Core}
      → Inv core
      → Every laws core
      → step core event ≡ some core'
      → Every laws core'
  unfolding step
  step-Every core (vote_received v) i all eq = handle_vote-Every core v i all eq
  step-Every core (transactions_received txs) i all eq =
      subst (Every laws) (some-injective _ _ eq) (handle_transactions-Every core txs all)

  run-Every :
      (core : Core) (events : List Event) {core' : Core}
      → Inv core
      → Every laws core
      → run core events ≡ some core'
      → Every laws core'
  unfolding run
  run-Every core [] i all eq = subst (Every laws) (some-injective _ _ eq) all
  run-Every core (event ∷ events) i all eq =
      let (core1, stepped, rest) = >>=-eq-some (step core event) _ eq in
      run-Every core1 events (step-Inv core event i stepped) (step-Every core event i all stepped)
        rest

  -- What a node reaches from its start.
  pub spawn-run-Every :
      (peers : List (PublicKey × SocketAddr)) (byzantine : Bool) (rng seed : Rng)
      (events : List Event) {core : Core}
      → run (spawn env id peers byzantine rng seed) events ≡ some core
      → Every laws core
  unfolding spawn load_election load_round get
  spawn-run-Every peers byzantine rng seed events ran =
      run-Every (spawn env id peers byzantine rng seed) events
        (spawn-Inv env id peers byzantine rng seed) (refl, refl, λ h r. laws.of_new h r) ran
