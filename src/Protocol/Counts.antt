-- ===== src/Protocol/Counts.antt =====
-- How many votes of each kind a node counts, against those that the nodes have cast.
use nero_consensus.Prelude.{
  ◌+◌, ◌%◌, ◌^◌, ◌≤◌, ◌<◌, ◌≡◌, ◌≢◌, refl, inl, inr, Bool, true, false, some, List, [], ◌∷◌, ◌∙◌,
  sym, ap, arith, ◌==◌, nat_eq, if◌then◌else◌, ◌&&◌, Bool-cases, length,
}
use nero_consensus.Prelude.Map.{Map, get, values}
use nero_consensus.Primary.Vote.{
  VoteHash, Value, VoteType, PrimaryVote, initial_vote, commit, decide, type_eq, value_eq,
}
use nero_consensus.Primary.Election.{Tally, new_tally, from_votes}
use nero_consensus.Primary.Election.Tallies.{
  count, counted, entry, tally_all, from_votes-entry, tally_all-from_votes,
}
use nero_consensus.Primary.Core.Acceptance.{tally_ext}
use nero_consensus.Protocol.Phases.{total, dropped}

-- Every vote is of one of the six kinds.
pub count-total :
    (votes : List PrimaryVote)
    → count Value.zero initial_vote votes
        + count Value.zero commit votes
        + count Value.zero decide votes
        + count Value.one initial_vote votes
        + count Value.one commit votes
        + count Value.one decide votes
      ≡ length votes
unfolding count
count-total [] = refl
count-total (v ∷ votes) = ground (arith, count-total votes)

count_le : (x : Value) (y : VoteType) (votes : List PrimaryVote) → count x y votes ≤ length votes
unfolding count
count_le x y [] = omega arith
count_le x y (v ∷ votes) = ground (arith, count_le x y votes)

-- Fewer than all are votes that decide, if one is not.
pub decides_few :
    (k : VoteHash) (m : Map VoteHash PrimaryVote) {v : PrimaryVote}
    → get k m ≡ some v
    → v.vote_type ≢ decide
    → count Value.zero decide (values m) + count Value.one decide (values m) < length (values m)
unfolding get count
decides_few k [] here other = absurd (ground (arith, here))
decides_few k ((j, w) ∷ m) {v} here other = elim (Bool-cases (j == k)) [
  | inl same ↦ ground (arith, decides_le (values m))
  | inr apart ↦ ground (arith, decides_few k m {v = v} (ground arith) other)
]
  where
    decides_le :
        (votes : List PrimaryVote)
        → count Value.zero decide votes + count Value.one decide votes ≤ length votes
    decides_le [] = omega arith
    decides_le (u ∷ votes) = ground (arith, decides_le votes)

-- The votes that a round counts.
count-counted :
    (x : Value) (y : VoteType) (votes : List PrimaryVote)
    → count x y (counted votes) ≡ (if x == Value.zero && y == decide then 0 else count x y votes)
unfolding count counted
count-counted x y [] = ground arith
count-counted x y (v ∷ votes) = ground (arith, count-counted x y votes)

entry-dropped :
    (x : Value) (y : VoteType) (t : Tally)
    → entry x y (dropped t) ≡ (if x == Value.zero && y == decide then 0 else entry x y t)
entry-dropped x y t = ground arith

-- The tally of a round is that of its votes, but for those that decide zero.
pub tally_all-dropped :
    (votes : List PrimaryVote) → tally_all new_tally votes ≡ dropped (from_votes votes)
tally_all-dropped votes =
    tally_all-from_votes votes
    ∙ tally_ext (from_votes (counted votes)) (dropped (from_votes votes)) (λ x y.
      from_votes-entry x y (counted votes)
      ∙ ap (λ n. n % 2 ^ 64) (count-counted x y votes)
      ∙ kept (x == Value.zero && y == decide) x y
      ∙ sym (entry-dropped x y (from_votes votes)))
  where
    kept :
        (b : Bool) (x : Value) (y : VoteType)
        → (if b then 0 else count x y votes) % 2 ^ 64
          ≡ (if b then 0 else entry x y (from_votes votes))
    kept true x y = omega arith
    kept false x y = sym (from_votes-entry x y votes)

-- With few votes, the tally counts them all.
pub entry-small :
    (x : Value) (y : VoteType) (votes : List PrimaryVote)
    → length votes < 2 ^ 64
    → entry x y (from_votes votes) ≡ count x y votes
entry-small x y votes few = omega (arith, from_votes-entry x y votes, count_le x y votes)

pub total-small :
    (votes : List PrimaryVote) → length votes < 2 ^ 64 → total (from_votes votes) ≡ length votes
total-small votes few = omega (
  arith,
  count-total votes,
  entry-small Value.zero initial_vote votes few,
  entry-small Value.zero commit votes few,
  entry-small Value.zero decide votes few,
  entry-small Value.one initial_vote votes few,
  entry-small Value.one commit votes few,
  entry-small Value.one decide votes few,
)
