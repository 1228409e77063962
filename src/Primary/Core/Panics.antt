-- ===== src/Primary/Core/Panics.antt =====
-- When a vote stops a node: the panics of `handle_vote`.
use nero_consensus.Prelude.{
  ◌-◌, ◌≡◌, refl, ◌≢◌, ◌↔◌, inl, inr, sym, Bool, false, none, some, List, [], ◌∷◌, arith, nat_eq,
  Bool-cases, Option-cases, subst, >>=-eq-none,
}
use nero_consensus.Prelude.Map.{Map, get, contains_key}
use nero_consensus.Prelude.Sets.{contains, include}
use nero_consensus.Primary.Vote.{
  VoteHash, PrimaryVote, ValidationStatus, valid, invalid, pending, vote_eq,
}
use nero_consensus.Primary.Election.{RoundState, Election}
use nero_consensus.Primary.Core.State.{Core, vote_hash}
use nero_consensus.Primary.Core.Validate.{
  proof_votes, proof_tally, find_round, validate_proof, validate_vote,
}
use nero_consensus.Primary.Core.Handlers.{
  load_election, load_round, store_election, dispatch_vote, note_vote, handle_noted, handle_vote,
}
use nero_consensus.Primary.Core.Loads.{round_of}
use nero_consensus.Primary.Core.Invariant.{Inv, load-Inv, note-Inv}
use nero_consensus.Primary.Core.Steps.{held, set_rng_held}
use nero_consensus.Primary.Core.Runs.{accept_vote_settled, validate_vote_core}

-- The second loop of `validate_vote` finds what the first one found.
pub proof_tally-proof_votes :
    (m : Map VoteHash PrimaryVote) (hashes : List VoteHash) (votes : List PrimaryVote)
    → proof_tally m hashes votes ≡ proof_votes m hashes votes
unfolding proof_tally proof_votes
proof_tally-proof_votes m [] votes = refl
proof_tally-proof_votes m (hash ∷ hashes) votes = elim (Option-cases (get hash m)) [
  | inl absent ↦ ground arith
  | inr (vote, found) ↦ ground (arith, proof_tally-proof_votes m hashes (include vote votes))
]

-- The vote names a later round whose predecessor the node knows, and brings no proof.
abbrev pub LacksProof : Core → PrimaryVote → Type 0
LacksProof core v =
    (v.round ≢ 0)
    × (v.proof ≡ none)
    × ((rs : RoundState) × (find_round core v.election_hash (v.round - 1) ≡ some rs))

validate_proof-none :
    (core : Core) (rs : RoundState) (v : PrimaryVote)
    → validate_proof core rs v ≡ none
    → v.proof ≡ none
unfolding validate_proof
validate_proof-none core rs v e = elim (Option-cases v.proof) [
  | inl absent ↦ absent
  | inr (proof, here) ↦ absurd (ground (arith, proof_tally-proof_votes rs.validated_votes proof []))
]

pub validate_vote-none :
    (core : Core) (v : PrimaryVote) → (validate_vote core v ≡ none) ↔ LacksProof core v
unfolding validate_vote validate_proof
validate_vote-none core v = (panics, lacks)
  where
    panics : validate_vote core v ≡ none → LacksProof core v
    panics e = elim (Option-cases (find_round core v.election_hash (v.round - 1))) [
      | inl unknown ↦ absurd (ground arith)
      | inr (rs, found) ↦ (ground arith, validate_proof-none core rs v (ground arith), (rs, found))
    ]

    lacks : LacksProof core v → validate_vote core v ≡ none
    lacks (later, absent, (rs, found)) = ground arith

-- A vote whose proof is pending has one.
validate_vote_pending :
    (core : Core) (v : PrimaryVote) {core' : Core}
    → validate_vote core v ≡ some (pending, core')
    → v.proof ≢ none
unfolding validate_vote validate_proof
validate_vote_pending core v e absent = ground arith

dispatch_vote-ne-none :
    (status : ValidationStatus) (core : Core) (e : Election) (v : PrimaryVote)
    → Inv (store_election core v.election_hash e)
    → (status ≡ pending → v.proof ≢ none)
    → dispatch_vote status core e (load_round e v.election_hash v.round) v ≢ none
unfolding dispatch_vote
dispatch_vote-ne-none valid core e v i present eq =
    let rs = load_round e v.election_hash v.round in
    ground
      (arith, accept_vote_settled core e rs v (held core v.election_hash e i v.round).settled, eq)
dispatch_vote-ne-none invalid core e v i present eq = cc eq
dispatch_vote-ne-none pending core e v i present eq = present refl (ground arith)

note_vote-find :
    (core : Core) (v : PrimaryVote)
    → note_vote core v ≡ record core { sent_votes = include v core.sent_votes }
unfolding note_vote
note_vote-find core v = elim (Bool-cases (contains v core.sent_votes)) [
  | inl seen ↦ rw seen
  | inr new ↦ rw new
]

-- The vote is new in its round, and lacks a proof.
abbrev pub Stops : Core → PrimaryVote → Type 0
Stops core v =
    (contains_key (vote_hash core v) (round_of core v.election_hash v.round).validated_votes
      ≡ false)
    × LacksProof core v

handle_noted-none :
    (core : Core) (v : PrimaryVote) → Inv core → (handle_noted core v ≡ none) ↔ Stops core v
unfolding handle_noted
handle_noted-none core v i = (panics, lacks)
  where
    known : Bool
    known = contains_key (vote_hash core v) (round_of core v.election_hash v.round).validated_votes

    panics : handle_noted core v ≡ none → Stops core v
    panics e = elim (Bool-cases known) [
      | inl old ↦ absurd (ground arith)
      | inr new ↦ elim (Option-cases (validate_vote core v)) [
        | inl refused ↦ (new, (validate_vote-none core v).0 refused)
        | inr ((status, core1), checked) ↦
            let (rng, same) = validate_vote_core core v {x = (status, core1)} checked in
            absurd (
              dispatch_vote-ne-none status core1 (load_election core v.election_hash) v
                (subst
                  (λ c. Inv (store_election c v.election_hash (load_election core v.election_hash)))
                  (sym same)
                  (set_rng_held core v.election_hash (load_election core v.election_hash)
                    (load-Inv core v.election_hash i) rng))
                (λ p. validate_vote_pending core v {core' = core1} (rw p at checked))
                (>>=-eq-none (validate_vote core v) _ checked (rw new at e)))
      ]
    ]

    lacks : Stops core v → handle_noted core v ≡ none
    lacks (new, stuck) = rw new (rw ((validate_vote-none core v).1 stuck) (ground arith))

-- A vote stops a node exactly if it is the first of its signer that the node would file in its
-- round, names a round whose predecessor the node knows, and brings no proof.
pub handle_vote-none :
    (core : Core) (v : PrimaryVote) → Inv core → (handle_vote core v ≡ none) ↔ Stops core v
unfolding handle_vote find_round load_election
handle_vote-none core v i =
    let core1 : Core = record core { sent_votes = include v core.sent_votes } in
    subst (λ c. (handle_noted c v ≡ none) ↔ Stops core v) (sym (note_vote-find core v))
      (handle_noted-none core1 v (note-Inv core (include v core.sent_votes) i))
