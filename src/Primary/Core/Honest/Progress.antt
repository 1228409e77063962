-- ===== src/Primary/Core/Honest/Progress.antt =====
-- What a written round changes of the progress of an election.
use nero_consensus.Prelude.{
  suc, ◌≤◌, ◌≡◌, refl, inl, inr, Bool, true, false, [], ◌∷◌, arith, ◌==◌, nat_eq, Bool-cases,
  eq_of_beq, subst, sym, length,
}
use nero_consensus.Prelude.Map.{Map, insert}
use nero_consensus.Crypto.{PublicKey}
use nero_consensus.Primary.Vote.{VoteHash, BlockHash, Round, PrimaryVote, type_eq}
use nero_consensus.Primary.Election.{RoundState, Election, Tally}
use nero_consensus.Primary.Core.State.{Core, Env}
use nero_consensus.Primary.Core.Validate.{tally_decision, make_decision}
use nero_consensus.Primary.Core.Handlers.{load_round, next}
use nero_consensus.Primary.Core.Honest.{going, Present, AdvancedAt}
use nero_consensus.Primary.Core.Honest.Puts.{written, load_round-written}

pub length-insert_le :
    (k : VoteHash) (v : PrimaryVote) (m : Map VoteHash PrimaryVote)
    → length (insert k v m) ≤ suc (length m)
unfolding insert
length-insert_le k v [] = omega arith
length-insert_le k v ((j, w) ∷ m) = ground (arith, length-insert_le k v m)

-- An honest node decides by the tally.
pub make_decision_of_honest :
    (core : Core) (t : Tally)
    → core.byzantine ≡ false
    → make_decision core t ≡ (tally_decision t, core)
unfolding make_decision
make_decision_of_honest core t honest = rw honest refl

module _ (env : Env) (id : PublicKey) (Heard : PrimaryVote → Type 0) (h : BlockHash) (e : Election)
    (b : Bool) (r : Round) (rs : RoundState) (stays : e.is_decided ≡ true → b ≡ true) where
  -- The node voted in the round that was written.
  pub written-Present :
      going (written b r rs e) rs ≡ true → Present h e → Present h (written b r rs e)
  written-Present voted all s = elim (Bool-cases (r == s)) [
    | inl same ↦ rw (load_round-written env id Heard h e b r rs s, same) (inr voted)
    | inr other ↦
        rw (load_round-written env id Heard h e b r rs s, other) (ground (arith, all s, stays))
  ]

  going-written :
      ((load_round e h r).voted ≡ true → rs.voted ≡ true)
      → (s : Round) → going e (load_round e h s) ≡ true
      → going (written b r rs e) (load_round (written b r rs e) h s) ≡ true
  going-written keep s voted = elim (Bool-cases (r == s)) [
    | inl same ↦
        rw (load_round-written env id Heard h e b r rs s, same)
          (ground (
            arith,
            stays,
            keep,
            subst (λ t. going e (load_round e h t) ≡ true) (sym (eq_of_beq r s same)) voted,
          ))
    | inr other ↦ rw (load_round-written env id Heard h e b r rs s, other) (ground (arith, stays))
  ]

  -- Of the other rounds, those that have moved on stay so.
  pub written-AdvancedAt :
      ((load_round e h r).voted ≡ true → rs.voted ≡ true)
      → (p : Round) → (r == p) ≡ false
      → AdvancedAt h e p
      → AdvancedAt h (written b r rs e) p
  written-AdvancedAt keep p apart (inl few) =
      inl (rw (load_round-written env id Heard h e b r rs p, apart) few)
  written-AdvancedAt keep p apart (inr voted) = inr (going-written keep (next p) voted)
