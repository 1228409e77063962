-- ===== src/Primary/Core/Honest/Turns.antt =====
-- primary/src/core.rs: the answer to a vote, and the vote of the next round, of an honest node.
use nero_consensus.Prelude.{
  ◌≡◌, refl, ◌⊎◌, inl, inr, true, false, not, ◌&&◌, arith, ◌==◌, nat_eq, Bool-cases, subst,
}
use nero_consensus.Crypto.{PublicKey}
use nero_consensus.Primary.Vote.{BlockHash, Round, PrimaryVote, type_eq, random_vote}
use nero_consensus.Primary.Election.{RoundState, Election}
use nero_consensus.Primary.Core.State.{Core, Env}
use nero_consensus.Primary.Core.Handlers.{load_round, cast_vote, cast_initial_vote, answer}
use nero_consensus.Primary.Core.Loads.{put_round}
use nero_consensus.Primary.Core.Tallied.{IsAlone}
use nero_consensus.Primary.Core.Honest.{going, RoundOk-mono}
use nero_consensus.Primary.Core.Honest.Puts.{written-Grows, written-Base}
use nero_consensus.Primary.Core.Honest.Nodes.{Hand, set_rng-Hand, cast-Hand}

pub cast_initial-voted :
    (core : Core) (rs : RoundState) (h : BlockHash) (e : Election)
    → going e (cast_initial_vote core rs h).0 ≡ true
unfolding cast_initial_vote cast_vote
cast_initial-voted core rs h e = refl

module _ (env : Env) (id : PublicKey) (Heard : PrimaryVote → Type 0) (alone : IsAlone env id) where
  -- Writing a round back as it is.
  pub same-Hand :
      (h : BlockHash) (core : Core) (e : Election) (r : Round)
      → Hand env id Heard h core e
      → Hand env id Heard h core (put_round r (load_round e h r) e)
  same-Hand h core e r hand =
      let grows =
        written-Grows env id Heard h e e.is_decided r (load_round e h r) (λ k w mine. mine) in
      record {
        node = hand.node;
        others = hand.others;
        base =
            written-Base env id Heard h e e.is_decided r (load_round e h r)
              (record {
                ok =
                    RoundOk-mono env id Heard h e (put_round r (load_round e h r) e) r
                      (load_round e h r) grows (hand.base.rounds r);
                keep = λ k w mine. mine;
                fresh = λ w mine. inl mine;
                longer = λ w out. out;
                stays = λ d. (d, refl);
                kept = λ d. inl d;
                decided = λ x found. inl found;
                sent = λ w out at_h. inl out;
              })
              hand.base;
      }

  -- The random vote of round 0.
  pub initial-Hand :
      (h : BlockHash) (core : Core) (e : Election)
      → (load_round e h 0).voted ≡ false
      → Hand env id Heard h core e
      → let (rs, core1) = cast_initial_vote core (load_round e h 0) h in
        Hand env id Heard h core1 (put_round 0 rs e)
  unfolding cast_initial_vote random_vote
  initial-Hand h core e free hand =
      let (v, rng) = random_vote core.id h core.rng in
      cast-Hand env id Heard alone (record core { rng = rng }) e v e.is_decided core.decided
        hand.node.1 free (inl (refl, refl)) (λ d. absurd (ground (arith, d))) (λ d. (d, refl))
        (λ d. inl d) (λ j other. refl) (λ x found. inl found)
        (set_rng-Hand env id Heard h core e rng hand)

  -- A vote of a round where the node voted, or of round 0, where it votes now.
  pub answer-Hand :
      (core : Core) (e : Election) (v : PrimaryVote)
      → (v.round ≡ 0) ⊎ (going e (load_round e v.election_hash v.round) ≡ true)
      → Hand env id Heard v.election_hash core e
      → let (rs, core1) = answer core (load_round e v.election_hash v.round) v in
        Hand env id Heard v.election_hash core1 (put_round v.round rs e) × (going e rs ≡ true)
  unfolding answer
  answer-Hand core e v cause hand =
      let rs = load_round e v.election_hash v.round in
      elim (Bool-cases (not rs.voted && v.round == 0)) [
        | inl first ↦
            let start : 0 ≡ v.round = ground arith in
            rw first (
              subst
                  (λ r.
                    let (rs1, core1) =
                      cast_initial_vote core (load_round e v.election_hash r) v.election_hash in
                    Hand env id Heard v.election_hash core1 (put_round r rs1 e))
                  start (initial-Hand v.election_hash core e (rw start (ground arith)) hand),
              cast_initial-voted core rs v.election_hash e,
            )
        | inr other ↦ rw other (same-Hand v.election_hash core e v.round hand, ground arith)
      ]
