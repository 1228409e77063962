-- ===== src/Primary/Vote.antt =====
-- primary/src/vote.rs: votes, decisions, and the digest that identifies a vote.
use nero_consensus.Prelude.{
  ℕ, ◌/◌, ◌^◌, ◌≡◌, ◌↔◌, Bool, true, false, ◌&&◌, Option, none, some, List, arith, PartialEq, ◌==◌,
  nat_eq, list_beq, list_beq_iff, if◌then◌else◌,
}
use nero_consensus.Crypto.{Digest, PublicKey}
use nero_consensus.Random.{Rng, gen_range}

-- The newtypes `VoteHash(Digest)`, `BlockHash(Digest)` and `Round(u32)`.
abbrev pub VoteHash : Type 0
VoteHash = Digest

abbrev pub BlockHash : Type 0
BlockHash = Digest

abbrev pub Round : Type 0
Round = ℕ

pub data VoteType : Type 0 where
  initial_vote commit decide : VoteType

pub data Value : Type 0 where
  zero one : Value

abbrev type_beq : VoteType → VoteType → Bool
type_beq initial_vote initial_vote = true
type_beq commit commit = true
type_beq decide decide = true
type_beq _ _ = false

pub type_beq_iff : (a b : VoteType) → (type_beq a b ≡ true) ↔ (a ≡ b)
type_beq_iff a b = ground arith

abbrev value_beq : Value → Value → Bool
value_beq zero zero = true
value_beq one one = true
value_beq _ _ = false

pub value_beq_iff : (a b : Value) → (value_beq a b ≡ true) ↔ (a ≡ b)
value_beq_iff a b = ground arith

instance abbrev pub type_eq : PartialEq VoteType
type_eq = record { beq = type_beq; beq_iff = type_beq_iff }

instance abbrev pub value_eq : PartialEq Value
value_eq = record { beq = value_beq; beq_iff = value_beq_iff }

pub record Decision : Type 0 where
  pub value : Value
  pub vote_type : VoteType

-- `Decision::random`
unfoldable pub random_decision : Rng → Decision × Rng
unfolding gen_range
random_decision rng =
    let (a, rng1) = gen_range 2 rng in
    let (b, rng2) = gen_range 2 rng1 in
    (
      record {
        value = if a == 1 then one else zero;
        vote_type = if b == 1 then commit else initial_vote;
      },
      rng2,
    )

pub record PrimaryVote : Type 0 where
  pub signer : PublicKey
  pub round : Round
  pub value : Value
  pub vote_type : VoteType
  pub proof : Option (List VoteHash)
  pub election_hash : BlockHash

-- `PrimaryVote::random`: an initial vote for a random value.
unfoldable pub random_vote : PublicKey → BlockHash → Rng → PrimaryVote × Rng
unfolding gen_range
random_vote signer election_hash rng =
    let (a, rng1) = gen_range 2 rng in
    (
      record {
        signer = signer;
        round = 0;
        value = if a == 1 then one else zero;
        vote_type = initial_vote;
        proof = none;
        election_hash = election_hash;
      },
      rng1,
    )

-- The first 32 of the 64 bytes that `sha512` returns, over the signer alone.
unfoldable pub digest : (PublicKey → ℕ) → PrimaryVote → Digest
digest sha512 vote = sha512 vote.signer / 2 ^ 256

pub data ValidationStatus : Type 0 where
  valid invalid pending : ValidationStatus

abbrev proof_beq : Option (List VoteHash) → Option (List VoteHash) → Bool
proof_beq none none = true
proof_beq (some xs) (some ys) = list_beq xs ys
proof_beq _ _ = false

proof_beq_iff : (p q : Option (List VoteHash)) → (proof_beq p q ≡ true) ↔ (p ≡ q)
proof_beq_iff none none = ground arith
proof_beq_iff none (some ys) = ground arith
proof_beq_iff (some xs) none = ground arith
proof_beq_iff (some xs) (some ys) = ground (arith, list_beq_iff xs ys)

-- The derived `PartialEq`: every field is compared.
unfoldable pub vote_beq : PrimaryVote → PrimaryVote → Bool
vote_beq v w =
    v.signer == w.signer
    && v.round == w.round
    && v.value == w.value
    && v.vote_type == w.vote_type
    && proof_beq v.proof w.proof
    && v.election_hash == w.election_hash

pub vote_beq_iff : (v w : PrimaryVote) → (vote_beq v w ≡ true) ↔ (v ≡ w)
unfolding vote_beq
vote_beq_iff v w = ground (arith, proof_beq_iff v.proof w.proof)

instance abbrev pub vote_eq : PartialEq PrimaryVote
vote_eq = record { beq = vote_beq; beq_iff = vote_beq_iff }
