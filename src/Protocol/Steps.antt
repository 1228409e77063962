-- ===== src/Protocol/Steps.antt =====
-- What the votes of one round make of the votes of the next, whether a node counts them for its own vote or for
-- that of another.
use nero_consensus.Prelude.{◌+◌, ◌≤◌, ◌<◌, ◌≡◌, ◌≢◌, inl, inr, sym, subst, nat_eq}
use nero_consensus.Primary.General.{quorum}
use nero_consensus.Primary.Vote.{Value, VoteType, PrimaryVote, initial_vote, decide}
use nero_consensus.Primary.Election.{Tally}
use nero_consensus.Primary.Core.Validate.{tally_decision}
use nero_consensus.Protocol.Phases.{
  Initial, Leaning, Locked, Knows, dropped, total, Initial-step, Initial-step_zero,
  Initial-step_one, Leaning-step, Locked-step, Locked-decide, Initial-judged, Initial-judged_zero,
  Initial-judged_one, Leaning-judged, Locked-judged, Locked-judged_one,
}
use nero_consensus.Protocol.Votes.{Follows}

module _ (t : Tally) (w : PrimaryVote) where
  pub Follows-Knows : Follows t w → (m : Tally) × Knows m t
  Follows-Knows (inl f) = (f.counted, f.knows)
  Follows-Knows (inr f) = (f.counted, f.knows)

  -- A vote that follows a round is as every count of the round's votes decides.
  pub by_count :
      (P : Value → VoteType → Type 0)
      → ((m : Tally)
          → Knows m t
          → m.zero_decides + m.one_decides < total m
          → P (tally_decision (dropped m)).value (tally_decision (dropped m)).vote_type)
      → ((m : Tally) → Knows m t → P (tally_decision m).value (tally_decision m).vote_type)
      → Follows t w
      → P w.value w.vote_type
  by_count P own judged (inl f) =
      subst (λ x. P x w.vote_type) (sym f.value)
        (subst (P (tally_decision (dropped f.counted)).value) (sym f.vote_type)
          (own f.counted f.knows f.open_))
  by_count P own judged (inr f) =
      subst (λ x. P x w.vote_type) (sym f.value)
        (subst (P (tally_decision f.counted).value) (sym f.vote_type) (judged f.counted f.knows))

  pub Follows-zeros :
      Follows t w
      → Initial t
      → quorum ≤ t.zero_votes
      → (w.value ≡ Value.zero) × (w.vote_type ≢ decide)
  Follows-zeros f i q =
      by_count (λ x y. (x ≡ Value.zero) × (y ≢ decide)) (λ m k _. Initial-step_zero m t k i q)
        (λ m k. Initial-judged_zero m t k i q) f

  pub Follows-ones :
      Follows t w
      → Initial t
      → quorum ≤ t.one_votes
      → (w.value ≡ Value.one) × (w.vote_type ≢ decide)
  Follows-ones f i q =
      by_count (λ x y. (x ≡ Value.one) × (y ≢ decide)) (λ m k _. Initial-step_one m t k i q)
        (λ m k. Initial-judged_one m t k i q) f

  pub Follows-Initial :
      Follows t w
      → Initial t
      → t.zero_votes < quorum
      → t.one_votes < quorum
      → w.vote_type ≡ initial_vote
  Follows-Initial f i p q =
      by_count (λ x y. y ≡ initial_vote) (λ m k _. Initial-step m t k i p q)
        (λ m k. Initial-judged m t k i p q) f

  pub Follows-Leaning :
      (x : Value) → Follows t w → Leaning x t → (w.value ≡ x) × (w.vote_type ≢ initial_vote)
  Follows-Leaning x f l =
      by_count (λ y z. (y ≡ x) × (z ≢ initial_vote)) (λ m k _. Leaning-step m t k x l)
        (λ m k. Leaning-judged m t k x l) f

  pub Follows-Locked :
      (x : Value) → Follows t w → Locked x t → (w.value ≡ x) × (w.vote_type ≢ initial_vote)
  Follows-Locked x f l =
      by_count (λ y z. (y ≡ x) × (z ≢ initial_vote)) (λ m k few. Locked-step m t k x few l)
        (λ m k. Locked-judged m t k x l) f

  pub Follows-decide : Follows t w → Locked Value.one t → w.vote_type ≡ decide
  Follows-decide f l =
      by_count (λ y z. z ≡ decide) (λ m k few. Locked-decide m t k few l)
        (λ m k. Locked-judged_one m t k l) f
