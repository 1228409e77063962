-- ===== src/Primary/Core/Decided.antt =====
-- The decisions that a node has recorded.
use nero_consensus.Prelude.{
  ◌≡◌, refl, ◌⊎◌, inl, inr, Bool, false, not, ◌&&◌, none, some, List, [], ◌∷◌, ◌∙◌, sym, ap, subst,
  arith, ◌==◌, nat_eq, Bool-cases, Option-cases, length, leb, >>=-eq-some, ◌>>=◌,
}
use mathlib.Core.Option.{some-injective}
use nero_consensus.Prelude.Map.{Map, get, insert, get-insert, contains_key}
use nero_consensus.Prelude.Sets.{contains}
use nero_consensus.Primary.General.{quorum}
use nero_consensus.Primary.Vote.{
  BlockHash, Round, PrimaryVote, Value, ValidationStatus, valid, invalid, pending, decide, type_eq,
  vote_eq,
}
use nero_consensus.Primary.Message.{Transaction, block_hash}
use nero_consensus.Primary.Election.{RoundState, Election}
use nero_consensus.Primary.Core.State.{Core, vote_hash}
use nero_consensus.Primary.Core.Validate.{make_decision, validate_vote}
use nero_consensus.Primary.Core.Handlers.{
  load_election, load_round, store_election, admit_vote, answer, next_round_vote, record_decision,
  cast_next, advance, next, try_advance, dispatch_vote, note_vote, handle_vote, handle_transaction,
  handle_transactions, step, run, Event, vote_received, transactions_received,
}
use nero_consensus.Primary.Core.Loads.{put_round, load_election-store}
use nero_consensus.Primary.Core.Invariant.{Inv, set_rng-Inv, load-Inv}
use nero_consensus.Primary.Core.Steps.{make_decision_core, set_rng_held, answer-Keeps}
use nero_consensus.Primary.Core.Runs.{validate_vote_core, dispatch_valid, note_vote-Inv, step-Inv}

-- A turn records nothing, or the first value of one election.
abbrev pub Records : Map BlockHash Value → BlockHash → Map BlockHash Value → Type 0
Records before h after =
    (after ≡ before) ⊎ ((w : Value) × (get h before ≡ none) × (after ≡ insert h w before))

answer-decided :
    (core : Core) (rs : RoundState) (v : PrimaryVote) → (answer core rs v).1.decided ≡ core.decided
unfolding answer
answer-decided core rs v = elim (Bool-cases (not rs.voted && v.round == 0)) [
  | inl first ↦ rw first
  | inr other ↦ rw other
]

-- An open election has no recorded value.
open_undecided :
    (core : Core) (h : BlockHash) (e : Election)
    → Inv (store_election core h e)
    → e.is_decided ≡ false
    → get h core.decided ≡ none
unfolding store_election
open_undecided core h e i free = elim (Option-cases (get h core.decided)) [
  | inl absent ↦ absent
  | inr (v, found) ↦ absurd (ground (arith, i.closed h v found, load_election-store core h h e))
]

module _ (core : Core) (h : BlockHash) (e : Election) (i : Inv (store_election core h e)) where
  cast_next-Records :
      (rs : RoundState) (r : Round) (v : PrimaryVote)
      → v.election_hash ≡ h
      → e.is_decided ≡ false
      → Records core.decided h (cast_next core e rs r v).1.decided
  unfolding cast_next
  cast_next-Records rs r v eh free = elim (Bool-cases (v.vote_type == decide)) [
    | inl decides ↦
        inr (v.value, open_undecided core h e i free, rw (decides, record_decision) (rw eh))
    | inr other ↦ inl (rw (other, record_decision))
  ]

pub advance-Records :
    (core : Core) (h : BlockHash) (e : Election) (rs next_rs : RoundState) (n : Round)
    → Inv (store_election core h e)
    → e.is_decided ≡ false
    → Records core.decided h (advance core e rs next_rs n h).1.decided
unfolding advance next_round_vote
advance-Records core h e rs next_rs n i free =
    let (rng, eq) = make_decision_core core rs.tally in
    let core1 = (make_decision core rs.tally).1 in
    subst (λ d. Records d h (advance core e rs next_rs n h).1.decided) (rw eq)
      (cast_next-Records core1 h e
        (subst (λ c. Inv (store_election c h e)) (sym eq) (set_rng_held core h e i rng)) next_rs n
        (next_round_vote core1 (make_decision core rs.tally).0 rs n h) refl free)

try_advance-Records :
    (core : Core) (e : Election) (rs : RoundState) (v : PrimaryVote)
    → Inv (store_election core v.election_hash e)
    → Records core.decided v.election_hash (try_advance core e rs v).1.decided
unfolding try_advance
try_advance-Records core e rs v i =
    elim (Bool-cases (
      leb quorum (length rs.validated_votes)
      && not (load_round e v.election_hash (next v.round)).voted
      && not e.is_decided)) [
        | inl go ↦ rw go (
            advance-Records core v.election_hash e rs (load_round e v.election_hash (next v.round))
              (next v.round) i (ground arith))
        | inr stay ↦ inl (rw stay)
      ]

dispatch_vote-Records :
    (status : ValidationStatus) (core : Core) (e : Election) (v : PrimaryVote) {core' : Core}
    → Inv (store_election core v.election_hash e)
    → dispatch_vote status core e (load_round e v.election_hash v.round) v ≡ some core'
    → Records core.decided v.election_hash core'.decided
unfolding dispatch_vote
dispatch_vote-Records valid core e v {core'} i eq =
    let rs = admit_vote core (load_round e v.election_hash v.round) v in
    let rs2 = (answer core rs v).0 in
    let core2 = (answer core rs v).1 in
    let records =
      try_advance-Records core2 (put_round v.round rs2 e) rs2 v (answer-Keeps core e v i rs refl) in
    subst (λ d. Records d v.election_hash core'.decided) (answer-decided core rs v)
      (subst (λ c. Records core2.decided v.election_hash c.decided) (dispatch_valid core e v i eq)
        records)
dispatch_vote-Records invalid core e v i eq = inl (ground arith)
dispatch_vote-Records pending core e v i eq = elim (Option-cases v.proof) [
  | inl absent ↦ absurd (ground arith)
  | inr (proof, here) ↦ inl (ground arith)
]

note_vote-decided : (core : Core) (v : PrimaryVote) → (note_vote core v).decided ≡ core.decided
unfolding note_vote
note_vote-decided core v = elim (Bool-cases (contains v core.sent_votes)) [
  | inl seen ↦ rw seen
  | inr new ↦ rw new
]

validated-Records :
    (core : Core) (v : PrimaryVote) (e : Election) {core' : Core}
    → Inv (store_election core v.election_hash e)
    → (do
      (status, core2) ← validate_vote core v
      dispatch_vote status core2 e (load_round e v.election_hash v.round) v)
      ≡ some core'
    → Records core.decided v.election_hash core'.decided
unfolding store_election
validated-Records core v e {core'} j eq =
    let ((status, core2), checked, rest) = >>=-eq-some (validate_vote core v) _ eq in
    let (rng, same) = validate_vote_core core v {x = (status, core2)} checked in
    subst (λ d. Records d v.election_hash core'.decided) (rw same)
      (dispatch_vote-Records status core2 e v {core' = core'}
        (subst (λ c. Inv (store_election c v.election_hash e)) (sym same)
          (set_rng-Inv (store_election core v.election_hash e) rng j))
        rest)

-- A vote makes a node record nothing, or the first value of the vote's election.
pub handle_vote-Records :
    (core : Core) (v : PrimaryVote) {core' : Core}
    → Inv core
    → handle_vote core v ≡ some core'
    → Records core.decided v.election_hash core'.decided
unfolding handle_vote
handle_vote-Records core v {core'} i eq =
    subst (λ d. Records d v.election_hash core'.decided) (note_vote-decided core v)
      (elim (Bool-cases known) [
        | inl old ↦ inl (ap (λ c. c.decided) (sym (some-injective _ _ (rw old at eq))))
        | inr new ↦
            validated-Records core1 v election
              (load-Inv core1 v.election_hash (note_vote-Inv core v i)) (rw new at eq)
      ])
  where
    core1 : Core
    core1 = note_vote core v

    election : Election
    election = load_election core1 v.election_hash

    known : Bool
    known =
        contains_key (vote_hash core1 v)
          (load_round election v.election_hash v.round).validated_votes

handle_transaction-decided :
    (core : Core) (tx : Transaction) → (handle_transaction core tx).decided ≡ core.decided
unfolding handle_transaction
handle_transaction-decided core tx =
    elim (Bool-cases (load_round (load_election core (block_hash tx)) (block_hash tx) 0).voted) [
      | inl voted ↦ rw voted
      | inr free ↦ rw free
    ]

handle_transactions-decided :
    (core : Core) (txs : List Transaction) → (handle_transactions core txs).decided ≡ core.decided
unfolding handle_transactions
handle_transactions-decided core [] = refl
handle_transactions-decided core (tx ∷ txs) =
    handle_transactions-decided (handle_transaction core tx) txs
    ∙ handle_transaction-decided core tx

Records-get :
    {before after : Map BlockHash Value} (h j : BlockHash) (v : Value)
    → Records before h after
    → get j before ≡ some v
    → get j after ≡ some v
Records-get {before} h j v (inl same) g = rw same g
Records-get {before} h j v (inr (w, fresh, added)) g =
    rw added (ground (arith, get-insert h j w before))

step-get :
    (core : Core) (event : Event) {core' : Core} (h : BlockHash) (v : Value)
    → Inv core
    → step core event ≡ some core'
    → get h core.decided ≡ some v
    → get h core'.decided ≡ some v
unfolding step
step-get core (vote_received w) h v i eq g =
    Records-get w.election_hash h v (handle_vote-Records core w i eq) g
step-get core (transactions_received txs) h v i eq g =
    rw (ap (λ c. c.decided) (sym (some-injective _ _ eq)) ∙ handle_transactions-decided core txs) g

pub run-decided :
    (core : Core) (events : List Event) {core' : Core} (h : BlockHash) (v : Value)
    → Inv core
    → run core events ≡ some core'
    → get h core.decided ≡ some v
    → get h core'.decided ≡ some v
unfolding run
run-decided core [] h v i eq g = rw (ap (λ c. c.decided) (sym (some-injective _ _ eq))) g
run-decided core (event ∷ events) h v i eq g =
    let (core1, stepped, rest) = >>=-eq-some (step core event) _ eq in
    run-decided core1 events h v (step-Inv core event i stepped) rest
      (step-get core event h v i stepped g)
