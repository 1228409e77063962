-- ===== src/Primary/Core/EveryRound.antt =====
-- What holds of the state of every round: a property that a new round has, and that the two ways in which
-- a vote enters a round keep.
pub mod Runs
use nero_consensus.Prelude.{
  ◌≡◌, refl, inl, inr, Bool, true, false, not, ◌&&◌, some, List, [], ◌∷◌, ◌∙◌, sym, arith, ◌==◌,
  nat_eq, Bool-cases, Option-cases, >>=-eq-some, ◌>>=◌, subst, ap, beq_self, length, leb,
}
use mathlib.Core.Option.{some-injective}
use nero_consensus.Prelude.Map.{get, contains_key}
use nero_consensus.Prelude.Sets.{contains, include}
use nero_consensus.Random.{Rng}
use nero_consensus.Crypto.{PublicKey}
use nero_consensus.Network.Address.{SocketAddr}
use nero_consensus.Primary.General.{quorum}
use nero_consensus.Primary.Vote.{
  BlockHash, Round, PrimaryVote, Decision, ValidationStatus, valid, invalid, pending, vote_eq,
  type_eq, decide, random_vote,
}
use nero_consensus.Primary.Message.{Transaction, block_hash}
use nero_consensus.Primary.Election.{RoundState, Election, Tally, new_round_state, tally_vote}
use nero_consensus.Primary.Core.State.{Core, Env, spawn, vote_hash, broadcast_message}
use nero_consensus.Primary.Core.Validate.{validate_vote, make_decision}
use nero_consensus.Primary.Core.Handlers.{
  load_election, load_round, store_election, cast_vote, cast_initial_vote, admit_vote, answer,
  next_round_vote, cast_next, advance, next, try_advance, record_decision, dispatch_vote, note_vote,
  handle_vote, handle_transaction, handle_transactions, step, run, Event, vote_received,
  transactions_received,
}
use nero_consensus.Primary.Core.Loads.{round_of, put_round, load_round-put, store_elim, put_elim}
use nero_consensus.Primary.Core.Invariant.{Inv, load-Inv, set_rng-Inv}
use nero_consensus.Primary.Core.Steps.{make_decision_core}
use nero_consensus.Primary.Core.Runs.{
  validate_vote_core, dispatch_valid, note_vote-Inv, handle_vote-Inv, step-Inv, spawn-Inv,
}

-- The laws of such a property, for the node with this key and these hashes.
pub record RoundLaws (env : Env) (id : PublicKey) (P : BlockHash → Round → RoundState → Type 0)
    : Type 0 where
  pub of_new : (h : BlockHash) (r : Round) → P h r (new_round_state h)
  pub of_cast :
      (core : Core) (v : PrimaryVote) (rs : RoundState)
      → core.env ≡ env
      → v.signer ≡ id
      → rs.voted ≡ false
      → P v.election_hash v.round rs
      → P v.election_hash v.round (cast_vote core rs v).0
  pub of_admit :
      (core : Core) (v : PrimaryVote) (rs : RoundState)
      → core.env ≡ env
      → core.id ≡ id
      → contains_key (vote_hash core v) rs.validated_votes ≡ false
      → P v.election_hash v.round rs
      → P v.election_hash v.round (admit_vote core rs v)

module _ {env : Env} {id : PublicKey} {P : BlockHash → Round → RoundState → Type 0}
    (laws : RoundLaws env id P) where
  -- Every round of an election, and of a node.
  abbrev pub EveryOf : BlockHash → Election → Type 0
  EveryOf h e = (r : Round) → P h r (load_round e h r)

  abbrev pub Every : Core → Type 0
  Every core =
      (core.env ≡ env) × (core.id ≡ id) × ((h : BlockHash) → EveryOf h (load_election core h))

  -- The same with an election in hand that is not written back yet.
  abbrev pub InHand : BlockHash → Election × Core → Type 0
  InHand h (e, core) = Every core × EveryOf h e

  pub store-Every :
      (core : Core) (h : BlockHash) (e : Election)
      → InHand h (e, core)
      → Every (store_election core h e)
  unfolding store_election
  store-Every core h e (all, held) = (all.0, all.1, store_elim EveryOf core h e held all.2)

  pub set_rng-Every : (core : Core) (rng : Rng) → Every core → Every (record core { rng = rng })
  unfolding load_election
  set_rng-Every core rng all = all

  pub put-EveryOf :
      (h : BlockHash) (e : Election) (r : Round) (rs : RoundState)
      → P h r rs
      → EveryOf h e
      → EveryOf h (put_round r rs e)
  put-EveryOf h e r rs p all = put_elim (P h) e h r rs p all

  cast_vote-Every :
      (core : Core) (rs : RoundState) (v : PrimaryVote) → Every core → Every (cast_vote core rs v).1
  unfolding cast_vote load_election broadcast_message
  cast_vote-Every core rs v all = all

  make_decision-Every : (core : Core) (t : Tally) → Every core → Every (make_decision core t).1
  make_decision-Every core t all =
      let (rng, eq) = make_decision_core core t in subst Every (sym eq) (set_rng-Every core rng all)

  -- A vote of this node is cast in a round without one.
  cast_next-InHand :
      (core : Core) (e : Election) (v : PrimaryVote)
      → v.signer ≡ id
      → (load_round e v.election_hash v.round).voted ≡ false
      → InHand v.election_hash (e, core)
      → InHand v.election_hash (cast_next core e (load_round e v.election_hash v.round) v.round v)
  unfolding cast_next load_round load_election
  cast_next-InHand core e v signed free (all, held) =
      let rs = load_round e v.election_hash v.round in
      let kept =
        put-EveryOf v.election_hash e v.round (cast_vote core rs v).0
          (laws.of_cast core v rs all.0 signed free (held v.round)) held in
      elim (Bool-cases (v.vote_type == decide)) [
        | inl decides ↦ rw (decides, record_decision) (cast_vote-Every core rs v all, kept)
        | inr other ↦ rw (other, record_decision) (cast_vote-Every core rs v all, kept)
      ]

  cast_decision-InHand :
      (core : Core) (e : Election) (rs : RoundState) (d : Decision) (n : Round) (h : BlockHash)
      → (load_round e h n).voted ≡ false
      → InHand h (e, core)
      → InHand h (cast_next core e (load_round e h n) n (next_round_vote core d rs n h))
  unfolding next_round_vote
  cast_decision-InHand core e rs d n h free both =
      cast_next-InHand core e (next_round_vote core d rs n h) both.0.1 free both

  advance-InHand :
      (core : Core) (e : Election) (rs : RoundState) (n : Round) (h : BlockHash)
      → (load_round e h n).voted ≡ false
      → InHand h (e, core)
      → InHand h (advance core e rs (load_round e h n) n h)
  unfolding advance
  advance-InHand core e rs n h free (all, held) =
      cast_decision-InHand (make_decision core rs.tally).1 e rs (make_decision core rs.tally).0 n h
        free (make_decision-Every core rs.tally all, held)

  pub try_advance-InHand :
      (core : Core) (e : Election) (rs : RoundState) (v : PrimaryVote)
      → InHand v.election_hash (e, core)
      → InHand v.election_hash (try_advance core e rs v)
  unfolding try_advance
  try_advance-InHand core e rs v both =
      elim (Bool-cases (
        leb quorum (length rs.validated_votes)
        && not (load_round e v.election_hash (next v.round)).voted
        && not e.is_decided)) [
          | inl go ↦
              rw go (advance-InHand core e rs (next v.round) v.election_hash (ground arith) both)
          | inr stay ↦ rw stay both
        ]

  -- The random vote of round 0.
  pub cast_initial-Every :
      (core : Core) (rs : RoundState) (h : BlockHash)
      → rs.voted ≡ false
      → P h 0 rs
      → Every core
      → Every (cast_initial_vote core rs h).1 × P h 0 (cast_initial_vote core rs h).0
  unfolding cast_initial_vote random_vote
  cast_initial-Every core rs h free p all =
      let (v, rng) = random_vote core.id h core.rng in
      let core1 = record core { rng = rng } in
      (
        cast_vote-Every core1 rs v (set_rng-Every core rng all),
        laws.of_cast core1 v rs all.0 all.1 free p,
      )

  pub answer-Every :
      (core : Core) (rs : RoundState) (v : PrimaryVote)
      → P v.election_hash v.round rs
      → Every core
      → Every (answer core rs v).1 × P v.election_hash v.round (answer core rs v).0
  unfolding answer
  answer-Every core rs v p all = elim (Bool-cases (not rs.voted && v.round == 0)) [
    | inl first ↦
        let start : v.round ≡ 0 = ground arith in
        let cast =
          cast_initial-Every core rs v.election_hash (ground arith)
            (subst (λ r. P v.election_hash r rs) start p) all in
        rw first (
          cast.0,
          subst (λ r. P v.election_hash r (cast_initial_vote core rs v.election_hash).0) (sym start)
              cast.1,
        )
    | inr other ↦ rw other (all, p)
  ]
