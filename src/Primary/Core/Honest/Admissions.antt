-- ===== src/Primary/Core/Honest/Admissions.antt =====
-- primary/src/core.rs, `handle_vote`: the round of a vote of another node that is valid, once the vote is
-- admitted and answered.
use nero_consensus.Primary.Core.Honest.{Judged}
use nero_consensus.Prelude.{
  ◌<◌, ◌≡◌, ◌^◌, ◌-◌, refl, ◌⊎◌, ◌∙◌, inl, inr, true, false, some, arith, ◌==◌, nat_eq, Bool-cases,
  subst, ap,
}
use nero_consensus.Prelude.Map.{contains_key}
use nero_consensus.Crypto.{PublicKey}
use nero_consensus.Primary.Vote.{PrimaryVote, valid, vote_eq}
use nero_consensus.Primary.Election.{RoundState, Election}
use nero_consensus.Primary.Core.State.{Core, Env, vote_hash}
use nero_consensus.Primary.Core.Validate.{validate_vote}
use nero_consensus.Primary.Core.Handlers.{load_election, load_round, admit_vote, answer, next}
use nero_consensus.Primary.Core.Loads.{put_round, put_round_twice}
use nero_consensus.Primary.Core.Invariant.{IsProper}
use nero_consensus.Primary.Core.Tallied.{IsAlone}
use nero_consensus.Primary.Core.Honest.{going, Present, Advanced}
use nero_consensus.Primary.Core.Honest.Puts.{written_here}
use nero_consensus.Primary.Core.Honest.Hands.{admit-voted}
use nero_consensus.Primary.Core.Honest.Nodes.{Hand, admit-Hand}
use nero_consensus.Primary.Core.Honest.Proofs.{valid_quorum}
use nero_consensus.Primary.Core.Honest.Progress.{written-Present, written-AdvancedAt}
use nero_consensus.Primary.Core.Honest.Turns.{answer-Hand}
use nero_consensus.Primary.Core.Honest.Advances.{Turn}

-- A vote of another node, of the form that the nodes send.
abbrev pub IsForeign : PublicKey → PrimaryVote → Type 0
IsForeign id v = ((v.signer == id) ≡ false) × IsProper v × (v.round < 2 ^ 32)

answer-voted :
    (core : Core) (rs : RoundState) (v : PrimaryVote)
    → rs.voted ≡ true
    → (answer core rs v).0.voted ≡ true
unfolding answer
answer-voted core rs v voted = rw voted refl

-- The round of a vote is round 0, or the node is past the round before.
abbrev pub IsDue : Election → PrimaryVote → Type 0
IsDue e v = (v.round ≡ 0) ⊎ (going e (load_round e v.election_hash v.round) ≡ true)

pub due :
    (core : Core) (v : PrimaryVote) {core2 : Core}
    → IsProper v
    → v.round < 2 ^ 32
    → Advanced v.election_hash (load_election core v.election_hash)
    → validate_vote core v ≡ some (valid, core2)
    → IsDue (load_election core v.election_hash) v
due core v proper small advanced eq = elim (Bool-cases (v.round == 0)) [
  | inl first ↦ inl (ground arith)
  | inr later ↦ elim (advanced (v.round - 1)) [
    | inl few ↦ absurd (omega (arith, few, valid_quorum core v proper later eq))
    | inr voted ↦
        let back : next (v.round - 1) ≡ v.round = ground arith in
        inr (
          subst
            (λ r.
              going (load_election core v.election_hash)
                (load_round (load_election core v.election_hash) v.election_hash r)
              ≡ true)
            back voted)
  ]
]

module _ (env : Env) (id : PublicKey) (Heard : PrimaryVote → Type 0) (alone : IsAlone env id)
    (foreign : (v : PrimaryVote) → Heard v → IsForeign id v) where
  -- The election once the vote is admitted and answered.
  module _ (core : Core) (e : Election) (v : PrimaryVote)
      (new : contains_key (vote_hash core v) (load_round e v.election_hash v.round).validated_votes
        ≡ false)
      (heard : Heard v) (hand : Hand env id Heard v.election_hash core e) where
    abbrev rs : RoundState
    rs = load_round e v.election_hash v.round

    abbrev pub rs1 : RoundState
    rs1 = admit_vote core rs v

    abbrev e1 : Election
    e1 = put_round v.round rs1 e

    abbrev pub rs2 : RoundState
    rs2 = (answer core rs1 v).0

    abbrev pub e2 : Election
    e2 = put_round v.round rs2 e

    same_voted : rs1.voted ≡ rs.voted
    same_voted =
        admit-voted env id Heard alone v.election_hash core e v hand.node.0 refl hand.node.1
          (foreign v heard).0

    answered :
        IsDue e v
        → Judged env id Heard v.election_hash e v
        → Hand env id Heard v.election_hash (answer core rs1 v).1 e2 × (going e rs2 ≡ true)
    answered cause judged =
        let here : load_round e1 v.election_hash v.round ≡ rs1 =
          written_here env id Heard v.election_hash e e.is_decided v.round rs1 in
        let (held, voted) =
          subst
            (λ x.
              Hand env id Heard v.election_hash (answer core x v).1
                (put_round v.round (answer core x v).0 e1)
              × (going e1 (answer core x v).0 ≡ true))
            here
            (answer-Hand env id Heard alone core e1 v (rw (here, same_voted) cause)
              (admit-Hand env id Heard alone core e v (foreign v heard).0 new heard judged hand)) in
        (
          subst (Hand env id Heard v.election_hash (answer core rs1 v).1)
              (put_round_twice v.round rs1 rs2 e) held,
          voted,
        )

    pub admitted-Turn :
        IsDue e v
        → Judged env id Heard v.election_hash e v
        → Present v.election_hash e
        → Advanced v.election_hash e
        → Turn env id Heard alone v.election_hash (answer core rs1 v).1 e2 v.round
    admitted-Turn cause judged present advanced =
        let (held, voted) = answered cause judged in
        record {
          hand = held;
          present =
              written-Present env id Heard v.election_hash e e.is_decided v.round rs2 (λ d. d) voted
                present;
          voted =
              ap (going e2) (written_here env id Heard v.election_hash e e.is_decided v.round rs2)
              ∙ voted;
          advanced = λ p other.
              written-AdvancedAt env id Heard v.election_hash e e.is_decided v.round rs2 (λ d. d)
                (λ before. answer-voted core rs1 v (same_voted ∙ before)) p other (advanced p);
        }
