-- ===== src/Primary/Core/Honest/Runs.antt =====
-- The runs of an honest node that hears what other nodes, honest or not, have sent.
use nero_consensus.Prelude.{
  suc, ◌≤◌, ◌≡◌, refl, ◌⊎◌, inl, inr, false, some, List, [], ◌∷◌, arith, ◌==◌, nat_eq, Bool-cases,
  subst, ap, length, >>=-eq-some, eq_of_beq,
}
use mathlib.Core.Option.{some-injective}
use nero_consensus.Prelude.Map.{get}
use nero_consensus.Random.{Rng}
use nero_consensus.Crypto.{PublicKey}
use nero_consensus.Network.Address.{SocketAddr}
use nero_consensus.Primary.Vote.{BlockHash, Round, PrimaryVote, random_vote}
use nero_consensus.Primary.Message.{Transaction, block_hash}
use nero_consensus.Primary.Election.{RoundState, Election, tally_vote}
use nero_consensus.Primary.Election.Tallies.{tally_all}
use nero_consensus.Primary.Core.State.{Core, Env, spawn}
use nero_consensus.Primary.Core.Handlers.{
  load_election, load_round, cast_initial_vote, handle_transaction, handle_transactions, step, run,
  Event, next, vote_received, transactions_received,
}
use nero_consensus.Primary.Core.Loads.{put_round, load_round-put}
use nero_consensus.Primary.Core.Rounds.{new-IsSound}
use nero_consensus.Primary.Core.Invariant.{Inv}
use nero_consensus.Primary.Core.Runs.{step-Inv, spawn-Inv}
use nero_consensus.Primary.Core.Tallied.{IsAlone}
use nero_consensus.Primary.Core.Honest.{SentIn, Present, Advanced}
use nero_consensus.Primary.Core.Honest.Puts.{load_round-written}
use nero_consensus.Primary.Core.Honest.Nodes.{Honest, load-Hand, store-Honest}
use nero_consensus.Primary.Core.Honest.Progress.{written-Present, written-AdvancedAt}
use nero_consensus.Primary.Core.Honest.Turns.{same-Hand, initial-Hand, cast_initial-voted}
use nero_consensus.Primary.Core.Honest.Advances.{length-cast_le}
use nero_consensus.Primary.Core.Honest.Admissions.{IsForeign}
use nero_consensus.Primary.Core.Honest.Arrivals.{handle_vote-Honest}

-- A round that is written back as it is reads the same.
load_round_same :
    (e : Election) (h : BlockHash) (r s : Round)
    → load_round (put_round r (load_round e h r) e) h s ≡ load_round e h s
load_round_same e h r s = elim (Bool-cases (r == s)) [
  | inl same ↦
      rw (load_round-put e h r s (load_round e h r), same)
        (ap (load_round e h) (eq_of_beq r s same))
  | inr other ↦ rw (load_round-put e h r s (load_round e h r), other) refl
]

length-initial_le :
    (core : Core) (rs : RoundState) (h : BlockHash)
    → length (cast_initial_vote core rs h).0.validated_votes ≤ suc (length rs.validated_votes)
unfolding cast_initial_vote
length-initial_le core rs h =
    let (v, rng) = random_vote core.id h core.rng in length-cast_le (record core { rng = rng }) rs v

-- What a node receives: votes of the others, its own votes once it has sent them, and any transactions.
abbrev pub Hears : (PrimaryVote → Type 0) → Core → Event → Type 0
Hears Heard core (vote_received v) = Heard v ⊎ SentIn v core.log
Hears Heard core (transactions_received txs) = Unit

abbrev pub Receives : (PrimaryVote → Type 0) → Core → List Event → Type 0
Receives Heard core [] = Unit
Receives Heard core (event ∷ events) =
    Hears Heard core event
    × ((core' : Core) → step core event ≡ some core' → Receives Heard core' events)

module _ (env : Env) (id : PublicKey) (Heard : PrimaryVote → Type 0) (alone : IsAlone env id)
    (foreign : (v : PrimaryVote) → Heard v → IsForeign id v) where
  -- The random vote of round 0 leaves no round behind.
  first_Advanced :
      (core : Core) (h : BlockHash)
      → let e = load_election core h in
        (load_round e h 0).voted ≡ false
        → Present h e
        → Advanced h e
        → Advanced h (put_round 0 (cast_initial_vote core (load_round e h 0) h).0 e)
  first_Advanced core h free present advanced p =
      let e = load_election core h in
      let rs = (cast_initial_vote core (load_round e h 0) h).0 in
      elim (Bool-cases (0 == p)) [
        | inl same ↦ elim (present 0) [
          | inl empty ↦ inl (
              rw (load_round-written env id Heard h e e.is_decided 0 rs p, same)
                (omega (arith, length-initial_le core (load_round e h 0) h)))
          | inr decided ↦ inr (ground arith)
        ]
        | inr other ↦
            written-AdvancedAt env id Heard h e e.is_decided 0 rs (λ d. d)
              (λ voted. absurd (ground arith)) p other (advanced p)
      ]

  handle_transaction-Honest :
      (core : Core) (tx : Transaction)
      → Honest env id Heard core
      → Honest env id Heard (handle_transaction core tx)
  unfolding handle_transaction get tally_vote
  handle_transaction-Honest core tx all =
      let h = block_hash tx in
      let e = load_election core h in
      let full = all.1 h in
      let hand = load-Hand env id Heard core h all in
      elim (Bool-cases (load_round e h 0).voted) [
        | inl voted ↦ rw voted (
            store-Honest env id Heard h core (put_round 0 (load_round e h 0) e)
              (same-Hand env id Heard alone h core e 0 hand)
              (λ r. rw (load_round_same e h 0 r) (full.present r))
              (λ p. rw (load_round_same e h 0 p, load_round_same e h 0 (next p)) (full.advanced p)))
        | inr free ↦
            let cast = cast_initial_vote core (load_round e h 0) h in
            rw free (
              store-Honest env id Heard h cast.1 (put_round 0 cast.0 e)
                (initial-Hand env id Heard alone h core e free hand)
                (written-Present env id Heard h e e.is_decided 0 cast.0 (λ d. d)
                  (cast_initial-voted core (load_round e h 0) h e) full.present)
                (first_Advanced core h free full.present full.advanced))
      ]

  handle_transactions-Honest :
      (core : Core) (txs : List Transaction)
      → Honest env id Heard core
      → Honest env id Heard (handle_transactions core txs)
  unfolding handle_transactions
  handle_transactions-Honest core [] all = all
  handle_transactions-Honest core (tx ∷ txs) all =
      handle_transactions-Honest (handle_transaction core tx) txs
        (handle_transaction-Honest core tx all)

  step-Honest :
      (core : Core) (event : Event) {core' : Core}
      → Inv core
      → Hears Heard core event
      → Honest env id Heard core
      → step core event ≡ some core'
      → Honest env id Heard core'
  unfolding step
  step-Honest core (vote_received v) i heard all eq =
      handle_vote-Honest env id Heard alone foreign core v i heard all eq
  step-Honest core (transactions_received txs) i heard all eq =
      subst (Honest env id Heard) (some-injective _ _ eq) (handle_transactions-Honest core txs all)

  run-Honest :
      (core : Core) (events : List Event) {core' : Core}
      → Inv core
      → Receives Heard core events
      → Honest env id Heard core
      → run core events ≡ some core'
      → Honest env id Heard core'
  unfolding run
  run-Honest core [] i heard all eq = subst (Honest env id Heard) (some-injective _ _ eq) all
  run-Honest core (event ∷ events) i heard all eq =
      let (core1, stepped, rest) = >>=-eq-some (step core event) _ eq in
      run-Honest core1 events (step-Inv core event i stepped) (heard.1 core1 stepped)
        (step-Honest core event i heard.0 all stepped) rest

  spawn-Honest :
      (peers : List (PublicKey × SocketAddr)) (rng seed : Rng)
      → Honest env id Heard (spawn env id peers false rng seed)
  unfolding spawn load_election load_round get tally_all
  spawn-Honest peers rng seed = (
    (refl, refl, refl),
    λ h. record {
      base = record {
        rounds =
            λ r. record { sound = new-IsSound env h r; counts = refl; known = tt; mine = refl };
        justified = λ r w mine. absurd (ground (arith, mine));
        closed = λ r w mine d. absurd (ground (arith, mine));
        kept = λ d. absurd (ground (arith, d));
        decided = λ x found. absurd (ground (arith, found));
        sent = λ w out at_h. absurd out;
        out = λ r w mine. absurd (ground (arith, mine));
      };
      present = λ r. inl refl;
      advanced = λ p. inl (omega arith);
    },
  )

  pub spawn-run-Honest :
      (peers : List (PublicKey × SocketAddr)) (rng seed : Rng) (events : List Event) {core : Core}
      → Receives Heard (spawn env id peers false rng seed) events
      → run (spawn env id peers false rng seed) events ≡ some core
      → Honest env id Heard core
  spawn-run-Honest peers rng seed events heard ran =
      run-Honest (spawn env id peers false rng seed) events (spawn-Inv env id peers false rng seed)
        heard (spawn-Honest peers rng seed) ran
