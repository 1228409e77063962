-- ===== src/Primary/Core/Runs.antt =====
-- Every run of a node keeps the invariant.
use nero_consensus.Prelude.{
  ◌≡◌, refl, inl, inr, Bool, some, List, [], ◌∷◌, ◌∙◌, sym, arith, ◌==◌, nat_eq, Bool-cases,
  Option-cases, >>=-eq-some, ◌>>=◌, subst, ap, beq_self, ◌-◌,
}
use nero_consensus.Prelude.Map.{get, contains_key}
use nero_consensus.Crypto.{PublicKey}
use nero_consensus.Network.Address.{SocketAddr}
use nero_consensus.Prelude.Sets.{contains, include}
use mathlib.Core.Option.{some-injective}
use nero_consensus.Random.{Rng}
use nero_consensus.Primary.Vote.{
  PrimaryVote, ValidationStatus, valid, invalid, pending, vote_eq, type_eq,
}
use nero_consensus.Primary.Message.{Transaction, block_hash}
use nero_consensus.Primary.Election.{RoundState, Election, tally_vote, from_votes}
use nero_consensus.Primary.Core.State.{Core, Env, spawn, vote_hash}
use nero_consensus.Primary.Core.Validate.{judge, validate_proof, validate_vote}
use nero_consensus.Primary.Core.Handlers.{
  load_election, load_round, store_election, admit_vote, answer, try_advance, accept_vote,
  dispatch_vote, note_vote, handle_vote, handle_transaction, handle_transactions, step, run, Event,
  vote_received, transactions_received,
}
use nero_consensus.Primary.Core.Loads.{put_round, load_round-put}
use nero_consensus.Primary.Core.Rounds.{IsSound, new-IsSound, validate_pending_votes_settled}
use nero_consensus.Primary.Core.Invariant.{Inv, put_round-Inv, set_rng-Inv, note-Inv, load-Inv}
use nero_consensus.Primary.Core.Validate.{proof_votes, proof_tally, find_round}
use nero_consensus.Primary.Core.Steps.{
  make_decision_core, Keeps, held, answer-Keeps, cast_initial-Keeps, try_advance-Keeps,
}

-- A vote that is validated changes the generator at most.
validate_proof_core :
    (core : Core) (rs : RoundState) (v : PrimaryVote) {x : ValidationStatus × Core}
    → validate_proof core rs v ≡ some x
    → (rng : Rng) × (x.1 ≡ record core { rng = rng })
unfolding validate_proof judge
validate_proof_core core rs v {x} e = elim (Option-cases v.proof) [
  | inl absent ↦ absurd (ground arith)
  | inr (proof, here) ↦ elim (Option-cases (proof_votes rs.validated_votes proof [])) [
    | inl missing ↦ (core.rng, (ground arith))
    | inr (votes, found) ↦ elim (Option-cases (proof_tally rs.validated_votes proof [])) [
      | inl panics ↦ absurd (ground arith)
      | inr (tally, told) ↦
          let (rng, eq) = make_decision_core core (from_votes votes) in (rng, ground (arith, eq))
    ]
  ]
]

pub validate_vote_core :
    (core : Core) (v : PrimaryVote) {x : ValidationStatus × Core}
    → validate_vote core v ≡ some x
    → (rng : Rng) × (x.1 ≡ record core { rng = rng })
unfolding validate_vote
validate_vote_core core v {x} e = elim (Bool-cases (v.round == 0)) [
  | inl first ↦ (core.rng, (ground arith))
  | inr later ↦ elim (Option-cases (find_round core v.election_hash (v.round - 1))) [
    | inl unknown ↦ (core.rng, (ground arith))
    | inr (rs, found) ↦ validate_proof_core core rs v {x = x} (ground arith)
  ]
]

admit_vote_settled :
    (core : Core) (rs : RoundState) (v : PrimaryVote)
    → rs.unvalidated_votes ≡ []
    → (admit_vote core rs v).unvalidated_votes ≡ []
unfolding admit_vote tally_vote
admit_vote_settled core rs v h = ground arith

-- The `Valid` arm, with nothing pending, as one step after the other.
pub accept_vote_settled :
    (core : Core) (e : Election) (rs : RoundState) (v : PrimaryVote)
    → rs.unvalidated_votes ≡ []
    → let (rs2, core2) = answer core (admit_vote core rs v) v in
      accept_vote core e rs v ≡ some (try_advance core2 (put_round v.round rs2 e) rs2 v)
unfolding accept_vote
accept_vote_settled core e rs v h =
    rw (
      validate_pending_votes_settled core v (admit_vote core rs v) (admit_vote_settled core rs v h))

-- What the `Valid` arm leaves.
pub dispatch_valid :
    (core : Core) (e : Election) (v : PrimaryVote) {core' : Core}
    → Inv (store_election core v.election_hash e)
    → dispatch_vote valid core e (load_round e v.election_hash v.round) v ≡ some core'
    → let (rs2, core2) = answer core (admit_vote core (load_round e v.election_hash v.round) v) v in
      let (e3, core3) = try_advance core2 (put_round v.round rs2 e) rs2 v in
      store_election core3 v.election_hash e3 ≡ core'
unfolding dispatch_vote
dispatch_valid core e v i eq =
    let rs = load_round e v.election_hash v.round in
    let settled = (held core v.election_hash e i v.round).settled in
    some-injective _ _ (
      ap (λ m. m >>= (λ x. some (store_election x.1 v.election_hash x.0)))
        (sym (accept_vote_settled core e rs v settled))
      ∙ eq)

accept_vote-Keeps :
    (core : Core) (e : Election) (v : PrimaryVote)
    → Inv (store_election core v.election_hash e)
    → let (rs2, core2) = answer core (admit_vote core (load_round e v.election_hash v.round) v) v in
      Keeps v.election_hash (try_advance core2 (put_round v.round rs2 e) rs2 v)
accept_vote-Keeps core e v i =
    let rs = admit_vote core (load_round e v.election_hash v.round) v in
    let rs2 = (answer core rs v).0 in
    let core2 = (answer core rs v).1 in
    let i2 = answer-Keeps core e v i rs refl in
    let s2 =
      subst (IsSound core2.env v.election_hash v.round)
        (rw (load_round-put e v.election_hash v.round v.round rs2, beq_self v.round))
        (held core2 v.election_hash (put_round v.round rs2 e) i2 v.round) in
    try_advance-Keeps core2 v.election_hash (put_round v.round rs2 e) v.round rs2 i2 s2 v refl

dispatch_vote-Inv :
    (status : ValidationStatus) (core : Core) (e : Election) (v : PrimaryVote) {core' : Core}
    → Inv core
    → Inv (store_election core v.election_hash e)
    → dispatch_vote status core e (load_round e v.election_hash v.round) v ≡ some core'
    → Inv core'
unfolding dispatch_vote
dispatch_vote-Inv valid core e v i j eq =
    subst Inv (dispatch_valid core e v j eq) (accept_vote-Keeps core e v j)
dispatch_vote-Inv invalid core e v i j eq = subst Inv (some-injective _ _ eq) i
dispatch_vote-Inv pending core e v i j eq = elim (Option-cases v.proof) [
  | inl absent ↦ absurd (ground arith)
  | inr (proof, here) ↦ subst Inv (some-injective _ _ (ground arith)) j
]

pub note_vote-Inv : (core : Core) (v : PrimaryVote) → Inv core → Inv (note_vote core v)
unfolding note_vote
note_vote-Inv core v i = elim (Bool-cases (contains v core.sent_votes)) [
  | inl seen ↦ rw seen (note-Inv core (include v core.sent_votes) i)
  | inr new ↦ rw new (note-Inv core (include v core.sent_votes) i)
]

validated-Inv :
    (core : Core) (v : PrimaryVote) (e : Election) {core' : Core}
    → Inv core
    → Inv (store_election core v.election_hash e)
    → (do
      (status, core2) ← validate_vote core v
      dispatch_vote status core2 e (load_round e v.election_hash v.round) v)
      ≡ some core'
    → Inv core'
unfolding store_election
validated-Inv core v e {core'} i j eq =
    let ((status, core2), checked, rest) = >>=-eq-some (validate_vote core v) _ eq in
    let (rng, same) = validate_vote_core core v {x = (status, core2)} checked in
    dispatch_vote-Inv status core2 e v {core' = core'}
      (subst Inv (sym same) (set_rng-Inv core rng i))
      (subst (λ c. Inv (store_election c v.election_hash e)) (sym same)
        (set_rng-Inv (store_election core v.election_hash e) rng j))
      rest

pub handle_vote-Inv :
    (core : Core) (v : PrimaryVote) {core' : Core}
    → Inv core
    → handle_vote core v ≡ some core'
    → Inv core'
unfolding handle_vote
handle_vote-Inv core v {core'} i eq = elim (Bool-cases known) [
  | inl old ↦ subst Inv (some-injective _ _ (rw old at eq)) held1
  | inr new ↦ validated-Inv core1 v election noted held1 (rw new at eq)
]
  where
    core1 : Core
    core1 = note_vote core v

    noted : Inv core1
    noted = note_vote-Inv core v i

    election : Election
    election = load_election core1 v.election_hash

    held1 : Inv (store_election core1 v.election_hash election)
    held1 = load-Inv core1 v.election_hash noted

    known : Bool
    known =
        contains_key (vote_hash core1 v)
          (load_round election v.election_hash v.round).validated_votes

pub handle_transaction-Inv :
    (core : Core) (tx : Transaction) → Inv core → Inv (handle_transaction core tx)
unfolding handle_transaction get tally_vote
handle_transaction-Inv core tx i =
    let h = block_hash tx in
    let e = load_election core h in
    let j = load-Inv core h i in
    let rs = load_round e h 0 in
    elim (Bool-cases rs.voted) [
      | inl voted ↦ rw voted (put_round-Inv core h e 0 rs (held core h e j 0) (λ v. v) j)
      | inr free ↦ rw free (cast_initial-Keeps core h e j 0 rs refl (held core h e j 0) free)
    ]

handle_transactions-Inv :
    (core : Core) (txs : List Transaction) → Inv core → Inv (handle_transactions core txs)
unfolding handle_transactions
handle_transactions-Inv core [] i = i
handle_transactions-Inv core (tx ∷ txs) i =
    handle_transactions-Inv (handle_transaction core tx) txs (handle_transaction-Inv core tx i)

pub step-Inv :
    (core : Core) (event : Event) {core' : Core}
    → Inv core
    → step core event ≡ some core'
    → Inv core'
unfolding step
step-Inv core (vote_received v) i eq = handle_vote-Inv core v i eq
step-Inv core (transactions_received txs) i eq =
    subst Inv (some-injective _ _ eq) (handle_transactions-Inv core txs i)

pub run-Inv :
    (core : Core) (events : List Event) {core' : Core}
    → Inv core
    → run core events ≡ some core'
    → Inv core'
unfolding run
run-Inv core [] i eq = subst Inv (some-injective _ _ eq) i
run-Inv core (event ∷ events) i eq =
    let (core1, stepped, rest) = >>=-eq-some (step core event) _ eq in
    run-Inv core1 events (step-Inv core event i stepped) rest

pub spawn-Inv :
    (env : Env) (id : PublicKey) (peers : List (PublicKey × SocketAddr)) (byzantine : Bool)
    (rng seed : Rng)
    → Inv (spawn env id peers byzantine rng seed)
unfolding spawn load_election load_round get
spawn-Inv env id peers byzantine rng seed = record {
  sound = λ h r. new-IsSound env h r;
  closed = λ h v d. (ground arith);
  cast = tt;
  single = tt;
}
