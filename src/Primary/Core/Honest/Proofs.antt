-- ===== src/Primary/Core/Honest/Proofs.antt =====
-- primary/src/core.rs, `validate_vote`: a vote that is judged valid names votes of the round before, which
-- the node has.
use nero_consensus.Primary.Vote.{valid}
use nero_consensus.Primary.Vote.{type_eq, value_eq}
use nero_consensus.Primary.Vote.{vote_eq}
use nero_consensus.Prelude.{◌==◌}
use nero_consensus.Prelude.{false}
use nero_consensus.Prelude.{
  ◌≤◌, ◌<◌, ◌≡◌, refl, inl, inr, true, false, some, List, [], ◌∷◌, arith, ◌==◌, nat_eq,
  Option-cases, length, All, ◌-◌,
}
use nero_consensus.Prelude.Map.{Map, get, contains_key, delete, get-delete}
use nero_consensus.Prelude.Sets.{IsSorted, Above}
use nero_consensus.Primary.General.{quorum}
use nero_consensus.Primary.Vote.{VoteHash, PrimaryVote, valid}
use nero_consensus.Primary.Core.State.{Core}
use nero_consensus.Primary.Core.Validate.{proof_votes, validate_proof, validate_vote, find_round}
use nero_consensus.Primary.Core.Loads.{round_of, round_of-find}
use nero_consensus.Primary.Core.Invariant.{IsProper}

abbrev IsHeld : Map VoteHash PrimaryVote → VoteHash → Type 0
IsHeld m k = contains_key k m ≡ true

length-delete : (k : VoteHash) (m : Map VoteHash PrimaryVote) → length (delete k m) ≤ length m
unfolding delete
length-delete k [] = omega arith
length-delete k ((j, v) ∷ m) = ground (arith, length-delete k m)

length-delete_held :
    (k : VoteHash) (m : Map VoteHash PrimaryVote) → IsHeld m k → length (delete k m) < length m
unfolding delete get
length-delete_held k [] held = absurd (ground arith)
length-delete_held k ((j, v) ∷ m) held = ground (arith, length-delete k m, length-delete_held k m)

delete-IsHeld :
    (k lo : VoteHash) (hashes : List VoteHash) (m : Map VoteHash PrimaryVote)
    → k ≤ lo
    → Above lo hashes
    → All (IsHeld m) hashes
    → All (IsHeld (delete k m)) hashes
delete-IsHeld k lo [] m below above held = tt
delete-IsHeld k lo (x ∷ xs) m below above held =
    (rw (get-delete k x m) (ground arith), delete-IsHeld k x xs m (omega arith) above.1 held.1)

-- Different hashes of votes are of as many votes.
held_le :
    (lo : VoteHash) (hashes : List VoteHash) (m : Map VoteHash PrimaryVote)
    → Above lo hashes
    → All (IsHeld m) hashes
    → length hashes ≤ length m
held_le lo [] m above held = omega arith
held_le lo (x ∷ xs) m above held = omega (
  arith,
  length-delete_held x m held.0,
  held_le x xs (delete x m) above.1 (delete-IsHeld x x xs m (omega arith) above.1 held.1),
)

sorted_le :
    (hashes : List VoteHash) (m : Map VoteHash PrimaryVote)
    → IsSorted hashes
    → All (IsHeld m) hashes
    → length hashes ≤ length m
sorted_le [] m sorted held = omega arith
sorted_le (x ∷ xs) m sorted held = omega (
  arith,
  length-delete_held x m held.0,
  held_le x xs (delete x m) sorted (delete-IsHeld x x xs m (omega arith) sorted held.1),
)

proof_votes-found :
    (m : Map VoteHash PrimaryVote) (hashes : List VoteHash) (votes : List PrimaryVote)
    {found : List PrimaryVote}
    → proof_votes m hashes votes ≡ some found
    → All (IsHeld m) hashes
unfolding proof_votes
proof_votes-found m [] votes eq = tt
proof_votes-found m (k ∷ ks) votes {found} eq = elim (Option-cases (get k m)) [
  | inl absent ↦ absurd (ground arith)
  | inr (v, here) ↦
      (rw here refl, proof_votes-found m ks _ {found = found} (rw (here, proof_votes) at eq))
]

-- A vote of a later round that is judged valid, with the hashes of a quorum for its proof, finds a quorum.
pub valid_quorum :
    (core : Core) (v : PrimaryVote) {core2 : Core}
    → IsProper v
    → (v.round == 0) ≡ false
    → validate_vote core v ≡ some (valid, core2)
    → quorum ≤ length (round_of core v.election_hash (v.round - 1)).validated_votes
unfolding validate_vote validate_proof
valid_quorum core v {core2} (inl first) later eq = absurd (ground arith)
valid_quorum core v {core2} (inr (hashes, proof, enough, sorted)) later eq =
    elim (Option-cases (find_round core v.election_hash (v.round - 1))) [
      | inl unknown ↦ absurd (ground arith)
      | inr (rs, found) ↦ elim (Option-cases (proof_votes rs.validated_votes hashes [])) [
        | inl missing ↦ absurd (ground arith)
        | inr (votes, all) ↦ rw (round_of-find core v.election_hash (v.round - 1) {rs = rs} found) (
            omega (
              arith,
              sorted_le hashes rs.validated_votes sorted
                  (proof_votes-found rs.validated_votes hashes [] {found = votes} all),
            ))
      ]
    ]
