-- ===== src/Primary/Core/Acceptance.antt =====
-- What an honest node makes of the vote that another one casts upon the same votes.
use mathlib.Core.List.{Perm, Permᴰ}
use mathlib.Core.Logic.{∥∥₁_elim}
use native.Mathlib.Nat.{ℕ_set}
use nero_consensus.Prelude.{
  ◌≡◌, refl, sym, ap, ◌∙◌, false, List, [], ◌∷◌, arith, All, nat_eq, beq_self, ◌%◌, ◌^◌,
}
use nero_consensus.Primary.Vote.{
  VoteType, Value, PrimaryVote, Round, BlockHash, initial_vote, commit, decide, valid, type_eq,
  value_eq,
}
use nero_consensus.Primary.Election.{Tally, RoundState, new_tally, from_votes}
use nero_consensus.Primary.Election.Tallies.{
  decides_zero, entry, count, counted, tally_all, from_votes-entry, tally_all-from_votes,
}
use nero_consensus.Primary.Core.State.{Core}
use nero_consensus.Primary.Core.Validate.{tally_decision, make_decision, judge}
use nero_consensus.Primary.Core.Handlers.{next_round_vote}

count-Permᴰ :
    (x : Value) (y : VoteType) {votes seen : List PrimaryVote}
    → Permᴰ votes seen
    → count x y votes ≡ count x y seen
unfolding count
count-Permᴰ x y Permᴰ.nil = refl
count-Permᴰ x y (Permᴰ.cons e p) = ground (arith, e, count-Permᴰ x y p)
count-Permᴰ x y (Permᴰ.swap e f) = rw (e, f) (omega arith)
count-Permᴰ x y (Permᴰ.trans p q) = count-Permᴰ x y p ∙ count-Permᴰ x y q

pub counted-All :
    (votes : List PrimaryVote) → All (λ v. decides_zero v ≡ false) votes → counted votes ≡ votes
unfolding counted
counted-All [] h = refl
counted-All (v ∷ votes) h = rw h.0 (ap (λ vs. v ∷ vs) (counted-All votes h.1))

-- A tally is its six counters.
pub tally_ext : (t u : Tally) → ((x : Value) (y : VoteType) → entry x y t ≡ entry x y u) → t ≡ u
tally_ext t u same = ground (
  arith,
  same Value.zero initial_vote,
  same Value.zero commit,
  same Value.zero decide,
  same Value.one initial_vote,
  same Value.one commit,
  same Value.one decide,
)

-- Votes that are as many of every kind have one tally.
pub from_votes-count :
    (votes seen : List PrimaryVote)
    → ((x : Value) (y : VoteType) → count x y votes ≡ count x y seen)
    → from_votes votes ≡ from_votes seen
from_votes-count votes seen same = tally_ext (from_votes votes) (from_votes seen) (λ x y.
    from_votes-entry x y votes ∙ ap (λ n. n % 2 ^ 64) (same x y) ∙ sym (from_votes-entry x y seen))

-- The order of the votes does not matter to their tally.
from_votes-Perm :
    (votes seen : List PrimaryVote) → Perm votes seen → from_votes votes ≡ from_votes seen
from_votes-Perm votes seen p =
    from_votes-count votes seen
      (λ x y. ∥∥₁_elim p (ℕ_set (count x y votes) (count x y seen)) (count-Permᴰ x y))

make_decision_honest :
    (core : Core) (t : Tally) → core.byzantine ≡ false → (make_decision core t).0 ≡ tally_decision t
unfolding make_decision
make_decision_honest core t honest = ground arith

-- The vote that an honest node casts for the next round, upon a tally that counts the votes given, is
-- judged valid by every honest node that finds the same votes through its proof, in whatever order,
-- provided that none of the votes decides zero.
pub judge-next_round_vote :
    (core peer : Core) (rs : RoundState) (n : Round) (hash : BlockHash)
    (votes seen : List PrimaryVote)
    → core.byzantine ≡ false
    → peer.byzantine ≡ false
    → rs.tally ≡ tally_all new_tally votes
    → All (λ v. decides_zero v ≡ false) votes
    → Perm votes seen
    → (judge peer (next_round_vote core (make_decision core rs.tally).0 rs n hash) seen).0 ≡ valid
unfolding judge next_round_vote
judge-next_round_vote core peer rs n hash votes seen honest fair tallied none_zero p =
    let tally : rs.tally ≡ from_votes seen =
      tallied
      ∙ tally_all-from_votes votes
      ∙ ap from_votes (counted-All votes none_zero)
      ∙ from_votes-Perm votes seen p in
    let same : (make_decision core rs.tally).0 ≡ (make_decision peer (from_votes seen)).0 =
      make_decision_honest core rs.tally honest
      ∙ ap tally_decision tally
      ∙ sym (make_decision_honest peer (from_votes seen) fair) in
    rw same (
      ground (
        arith,
        beq_self (make_decision peer (from_votes seen)).0.value,
        beq_self (make_decision peer (from_votes seen)).0.vote_type,
      ))
