-- ===== src/Primary/Election/Tallies.antt =====
-- The two ways to count votes, and the order in which they are counted.
use nero_consensus.Prelude.{
  ℕ, ◌+◌, ◌%◌, ◌^◌, ◌≡◌, refl, Bool, true, false, ◌&&◌, List, [], ◌∷◌, arith, ◌==◌, if◌then◌else◌,
  ◌<◌, ◌++◌, inl, inr, Bool-cases,
}
use nero_consensus.Primary.Vote.{
  VoteType, Value, PrimaryVote, initial_vote, commit, decide, type_eq, value_eq,
}
use nero_consensus.Primary.Election.{
  Tally, new_tally, inc, count_vote, count_votes, from_votes, add_to_tally,
}

-- A vote to decide zero.
abbrev pub decides_zero : PrimaryVote → Bool
decides_zero v = v.vote_type == decide && v.value == Value.zero

-- `tally_vote` counts a vote as `from_votes` does, except one that decides zero, which it drops.
pub add_to_tally-count_vote :
    (t : Tally) (v : PrimaryVote)
    → add_to_tally t v ≡ (if decides_zero v then t else count_vote t v)
unfolding add_to_tally count_vote
add_to_tally-count_vote t v = ground arith

-- The counter for a value and a type.
abbrev pub entry : Value → VoteType → Tally → ℕ
entry Value.zero initial_vote t = t.zero_votes
entry Value.zero commit t = t.zero_commits
entry Value.zero decide t = t.zero_decides
entry Value.one initial_vote t = t.one_votes
entry Value.one commit t = t.one_commits
entry Value.one decide t = t.one_decides

-- How many votes are for the value and of the type.
unfoldable pub count : Value → VoteType → List PrimaryVote → ℕ
count x y [] = 0
count x y (v ∷ votes) = (if v.value == x && v.vote_type == y then 1 else 0) + count x y votes

-- Whether a vote is for the value and of the type.
abbrev pub matches : Value → VoteType → PrimaryVote → Bool
matches x y v = v.value == x && v.vote_type == y

entry-count_vote :
    (x : Value) (y : VoteType) (t : Tally) (v : PrimaryVote)
    → entry x y (count_vote t v) ≡ (if matches x y v then inc (entry x y t) else entry x y t)
unfolding count_vote
entry-count_vote Value.zero initial_vote t v = ground arith
entry-count_vote Value.zero commit t v = ground arith
entry-count_vote Value.zero decide t v = ground arith
entry-count_vote Value.one initial_vote t v = ground arith
entry-count_vote Value.one commit t v = ground arith
entry-count_vote Value.one decide t v = ground arith

entry-count_votes :
    (x : Value) (y : VoteType) (t : Tally) (votes : List PrimaryVote)
    → entry x y t < 2 ^ 64
    → entry x y (count_votes t votes) ≡ (entry x y t + count x y votes) % 2 ^ 64
unfolding count_votes count
entry-count_votes x y t [] h = omega arith
entry-count_votes x y t (v ∷ votes) h = elim (Bool-cases (matches x y v)) [
  | inl same ↦ rw same (
      omega (
        arith,
        entry-count_votes x y (count_vote t v) votes
            (rw (entry-count_vote x y t v, same) (omega arith)),
        added same,
      ))
  | inr other ↦ rw other (
      omega (
        arith,
        entry-count_votes x y (count_vote t v) votes (rw (entry-count_vote x y t v, other) h),
        kept other,
      ))
]
  where
    added : matches x y v ≡ true → entry x y (count_vote t v) ≡ inc (entry x y t)
    added same = rw (entry-count_vote x y t v, same)

    kept : matches x y v ≡ false → entry x y (count_vote t v) ≡ entry x y t
    kept other = rw (entry-count_vote x y t v, other)

new_tally-entry : (x : Value) (y : VoteType) → entry x y new_tally ≡ 0
new_tally-entry Value.zero initial_vote = refl
new_tally-entry Value.zero commit = refl
new_tally-entry Value.zero decide = refl
new_tally-entry Value.one initial_vote = refl
new_tally-entry Value.one commit = refl
new_tally-entry Value.one decide = refl

-- Each counter of `from_votes` is the number of the votes for its value and of its type, as a `u64`.
pub from_votes-entry :
    (x : Value) (y : VoteType) (votes : List PrimaryVote)
    → entry x y (from_votes votes) ≡ count x y votes % 2 ^ 64
unfolding from_votes
from_votes-entry x y votes = omega (
  arith,
  new_tally-entry x y,
  entry-count_votes x y new_tally votes (rw (new_tally-entry x y) (omega arith)),
)

-- The tally of a round, vote by vote.
unfoldable pub tally_all : Tally → List PrimaryVote → Tally
tally_all t [] = t
tally_all t (v ∷ votes) = tally_all (add_to_tally t v) votes

pub tally_all-append :
    (t : Tally) (votes : List PrimaryVote) (v : PrimaryVote)
    → tally_all t (votes ++ v ∷ []) ≡ add_to_tally (tally_all t votes) v
unfolding tally_all
tally_all-append t [] v = refl
tally_all-append t (w ∷ votes) v = tally_all-append (add_to_tally t w) votes v

-- The votes that `tally_vote` counts.
unfoldable pub counted : List PrimaryVote → List PrimaryVote
counted [] = []
counted (v ∷ votes) = if decides_zero v then counted votes else v ∷ counted votes

tally_all-counted :
    (t : Tally) (votes : List PrimaryVote) → tally_all t votes ≡ count_votes t (counted votes)
unfolding tally_all counted count_votes
tally_all-counted t [] = refl
tally_all-counted t (v ∷ votes) = elim (Bool-cases (decides_zero v)) [
  | inl dropped ↦ rw dropped (rw (add_to_tally-count_vote t v, dropped) (tally_all-counted t votes))
  | inr kept ↦
      rw kept (rw (add_to_tally-count_vote t v, kept) (tally_all-counted (count_vote t v) votes))
]

-- The tally that a round builds up, one vote after the other, is that of `from_votes` over the same
-- votes without those that decide zero.
pub tally_all-from_votes :
    (votes : List PrimaryVote) → tally_all new_tally votes ≡ from_votes (counted votes)
unfolding from_votes
tally_all-from_votes votes = tally_all-counted new_tally votes
