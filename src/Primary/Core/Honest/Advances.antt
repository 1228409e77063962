-- ===== src/Primary/Core/Honest/Advances.antt =====
-- primary/src/core.rs, `handle_vote`: the vote of the next round, of an honest node.
use nero_consensus.Prelude.Keys.{All-get_self}
use nero_consensus.Prelude.{
  suc, ◌≤◌, ◌<◌, ◌≡◌, refl, ◌⊎◌, ◌∙◌, inl, inr, Bool, true, false, not, ◌&&◌, some, arith, ◌==◌,
  nat_eq, Bool-cases, Option-cases, eq_of_beq, subst, ap, length, leb,
}
use nero_consensus.Prelude.Map.{Map, get, insert, get-insert, get-insert_self}
use nero_consensus.Crypto.{PublicKey}
use nero_consensus.Primary.General.{quorum}
use nero_consensus.Primary.Vote.{BlockHash, Round, PrimaryVote, Value, decide, type_eq}
use nero_consensus.Primary.Election.{RoundState, Election, tally_vote}
use nero_consensus.Primary.Core.State.{Core, Env, vote_hash}
use nero_consensus.Primary.Core.Validate.{tally_decision}
use nero_consensus.Primary.Core.Handlers.{
  load_round, store_election, cast_vote, next_round_vote, record_decision, cast_next, advance, next,
  try_advance,
}
use nero_consensus.Primary.Core.Tallied.{IsAlone}
use nero_consensus.Primary.Core.Honest.{going, Present, AdvancedAt, own, Justified, Backing, Base}
use nero_consensus.Primary.Core.Honest.Puts.{written, load_round-written, written_here}
use nero_consensus.Primary.Core.Honest.Nodes.{Hand, Honest, store-Honest, cast-Hand}
use nero_consensus.Primary.Core.Honest.Progress.{
  length-insert_le, make_decision_of_honest, written-Present, written-AdvancedAt,
}

pub length-cast_le :
    (core : Core) (rs : RoundState) (v : PrimaryVote)
    → length (cast_vote core rs v).0.validated_votes ≤ suc (length rs.validated_votes)
unfolding cast_vote tally_vote
length-cast_le core rs v = length-insert_le (vote_hash core v) v rs.validated_votes

cast_vote-voted :
    (core : Core) (rs : RoundState) (v : PrimaryVote) → (cast_vote core rs v).0.voted ≡ true
unfolding cast_vote
cast_vote-voted core rs v = refl

module _ (env : Env) (id : PublicKey) (Heard : PrimaryVote → Type 0) (alone : IsAlone env id) where
  -- What a node in hand has, when every round but one has moved on.
  pub record Turn (h : BlockHash) (core : Core) (e : Election) (r : Round) : Type 0 where
    pub hand : Hand env id Heard h core e
    pub present : Present h e
    pub voted : going e (load_round e h r) ≡ true
    pub advanced : (p : Round) → (r == p) ≡ false → AdvancedAt h e p

  -- A vote cast for the next round completes the turn.
  cast_next-Honest :
      (core : Core) (e : Election) (r : Round) (w : PrimaryVote)
      → w.signer ≡ id
      → w.round ≡ next r
      → going e (load_round e w.election_hash w.round) ≡ false
      → Justified env id Heard w.election_hash e w
      → Turn w.election_hash core e r
      → let (e1, core1) = cast_next core e (load_round e w.election_hash w.round) w.round w in
        Honest env id Heard (store_election core1 w.election_hash e1)
  unfolding cast_next
  cast_next-Honest core e r w signed follows free just turn =
      elim (Bool-cases (w.vote_type == decide)) [
        | inl decides ↦
            rw (decides, record_decision)
              (done true (insert w.election_hash w.value core.decided)
                (λ d. (refl, get-insert_self w.election_hash w.value core.decided))
                (λ d. absurd (ground (arith, d)))
                (λ d. inr (w.value, get-insert_self w.election_hash w.value core.decided))
                (λ j other. rw (get-insert w.election_hash j w.value core.decided, other) refl)
                (λ x found. inr (
                  eq_of_beq _ _ decides,
                  ground (arith, get-insert_self w.election_hash w.value core.decided),
                )))
        | inr other ↦
            rw (other, record_decision)
              (done e.is_decided core.decided (λ d. absurd (ground (arith, d))) (λ d. (d, refl))
                (λ d. inl d) (λ j apart. refl) (λ x found. inl found))
      ]
    where
      next_rs : RoundState
      next_rs = load_round e w.election_hash w.round

      rs1 : RoundState
      rs1 = (cast_vote core next_rs w).0

      few : length rs1.validated_votes < quorum
      few = elim (turn.present w.round) [
        | inl empty ↦ omega (arith, length-cast_le core next_rs w)
        | inr voted ↦ absurd (ground arith)
      ]

      cast : rs1.voted ≡ true
      cast = cast_vote-voted core next_rs w

      done :
          (b : Bool) (d : Map BlockHash Value)
          → (w.vote_type ≡ decide → (b ≡ true) × (get w.election_hash d ≡ some w.value))
          → (e.is_decided ≡ true
              → (b ≡ true) × (get w.election_hash d ≡ get w.election_hash core.decided))
          → (b ≡ true → (e.is_decided ≡ true) ⊎ ((x : Value) × (get w.election_hash d ≡ some x)))
          → ((j : BlockHash) → (w.election_hash == j) ≡ false → get j d ≡ get j core.decided)
          → ((x : Value)
              → get w.election_hash d ≡ some x
              → (get w.election_hash core.decided ≡ some x)
                ⊎ ((w.vote_type ≡ decide) × (w.value ≡ x)))
          → Honest env id Heard (
              store_election
                (record (cast_vote core next_rs w).1 { decided = d })
                w.election_hash
                (written b w.round rs1 e))
      done b d decides stays kept apart decided =
          store-Honest env id Heard w.election_hash
            (record (cast_vote core next_rs w).1 { decided = d }) (written b w.round rs1 e)
            (cast-Hand env id Heard alone core e w b d signed (ground arith) just decides stays kept
              apart decided turn.hand)
            (written-Present env id Heard w.election_hash e b w.round rs1 (λ d. (stays d).0)
              (rw cast refl) turn.present)
            (λ p. elim (Bool-cases (w.round == p)) [
              | inl same ↦
                  inl (
                    rw (load_round-written env id Heard w.election_hash e b w.round rs1 p, same)
                      few)
              | inr other ↦ elim (Bool-cases (r == p)) [
                | inl this ↦ inr (
                    subst
                      (λ q.
                        going (written b w.round rs1 e)
                          (load_round (written b w.round rs1 e) w.election_hash (next q))
                        ≡ true)
                      (eq_of_beq r p this)
                      (subst
                        (λ q.
                          going (written b w.round rs1 e)
                            (load_round (written b w.round rs1 e) w.election_hash q)
                          ≡ true)
                        follows
                        (ap (going (written b w.round rs1 e))
                            (written_here env id Heard w.election_hash e b w.round rs1)
                          ∙ rw cast refl)))
                | inr elsewhere ↦
                    written-AdvancedAt env id Heard w.election_hash e b w.round rs1
                      (λ d. (stays d).0) (λ _. cast) p other (turn.advanced p elsewhere)
              ]
            ])

  -- The vote of the next round rests on the votes of this one.
  backed :
      (core : Core) (e : Election) (h : BlockHash) (r : Round)
      → Base env id Heard h core.log e (get h core.decided)
      → quorum ≤ length (load_round e h r).validated_votes
      → going e (load_round e h r) ≡ true
      → e.is_decided ≡ false
      → Backing env id Heard h e (
          next_round_vote core
            (tally_decision (load_round e h r).tally)
            (load_round e h r)
            (next r)
            h)
  unfolding next_round_vote
  backed core e h r base enough voted undecided =
      let rs = load_round e h r in
      let ok = base.rounds r in
      elim (Option-cases (own env id Heard rs)) [
        | inl absent ↦ absurd (ground (arith, ok.mine))
        | inr (mine, here) ↦ record {
          previous = r;
          follows = refl;
          view = rs;
          sound = ok.sound;
          counts = ok.counts;
          kept = All-get_self rs.validated_votes ok.sound.distinct;
          enough = enough;
          mine = mine;
          held = here;
          open_ = λ d. absurd (ground (arith, (base.closed r mine here d).0));
          value = refl;
          vote_type = refl;
        }
      ]

  advance-Honest :
      (core : Core) (e : Election) (h : BlockHash) (r : Round)
      → quorum ≤ length (load_round e h r).validated_votes
      → going e (load_round e h (next r)) ≡ false
      → Turn h core e r
      → let (e1, core1) = advance core e (load_round e h r) (load_round e h (next r)) (next r) h in
        Honest env id Heard (store_election core1 h e1)
  unfolding advance next_round_vote
  advance-Honest core e h r enough free turn =
      let rs = load_round e h r in
      rw (make_decision_of_honest core rs.tally turn.hand.node.2) (
        cast_next-Honest core e r (next_round_vote core (tally_decision rs.tally) rs (next r) h)
          turn.hand.node.1 refl free
          (inr (backed core e h r turn.hand.base enough turn.voted (ground arith))) turn)

  pub try_advance-Honest :
      (core : Core) (e : Election) (v : PrimaryVote)
      → Turn v.election_hash core e v.round
      → let (e1, core1) = try_advance core e (load_round e v.election_hash v.round) v in
        Honest env id Heard (store_election core1 v.election_hash e1)
  unfolding try_advance
  try_advance-Honest core e v turn =
      let h = v.election_hash in
      let rs = load_round e h v.round in
      elim (Bool-cases (
        leb quorum (length rs.validated_votes)
        && not (load_round e h (next v.round)).voted
        && not e.is_decided)) [
          | inl go ↦ rw go (advance-Honest core e h v.round (ground arith) (ground arith) turn)
          | inr stay ↦ rw stay (
              store-Honest env id Heard h core e turn.hand turn.present (λ p.
                elim (Bool-cases (v.round == p)) [
                  | inl same ↦ subst (AdvancedAt h e) (eq_of_beq v.round p same) (ground arith)
                  | inr other ↦ turn.advanced p other
                ]))
        ]
