-- ===== src/Primary/Core/Rounds.antt =====
-- The state of every round that a run reaches.
use nero_consensus.Prelude.{◌≡◌, refl, inl, inr, some, [], ◌==◌, nat_eq, Bool-cases, All}
use nero_consensus.Prelude.Map.{keys, insert, All-insert}
use nero_consensus.Prelude.Sets.{Distinct}
use nero_consensus.Prelude.Keys.{Distinct-keys-insert}
use nero_consensus.Primary.Vote.{VoteHash, BlockHash, Round, PrimaryVote}
use nero_consensus.Primary.Vote
use nero_consensus.Primary.Election.{RoundState, Election, new_round_state, tally_vote}
use nero_consensus.Primary.Core.State.{Core, Env}
use nero_consensus.Primary.Core.Handlers.{
  load_election, load_round, cast_vote, admit_vote, validate_pending_votes,
}
use nero_consensus.Primary.Core.Loads.{put_round, put_elim}

-- A vote stands under its own hash, in the round and the election that it names.
abbrev pub Filed : Env → BlockHash → Round → VoteHash × PrimaryVote → Type 0
Filed env h r (hash, v) = (hash ≡ Vote.digest env.sha512 v) × (v.round ≡ r) × (v.election_hash ≡ h)

pub record IsSound (env : Env) (h : BlockHash) (r : Round) (rs : RoundState) : Type 0 where
  pub settled : rs.unvalidated_votes ≡ []
  pub distinct : Distinct (keys rs.validated_votes)
  pub filed : All (Filed env h r) rs.validated_votes

-- Every round of an election.
abbrev pub Sound : Env → BlockHash → Election → Type 0
Sound env h e = (r : Round) → IsSound env h r (load_round e h r)

-- Every round of every election.
abbrev pub AllSound : Core → Type 0
AllSound core = (h : BlockHash) → Sound core.env h (load_election core h)

pub new-IsSound : (env : Env) (h : BlockHash) (r : Round) → IsSound env h r (new_round_state h)
new-IsSound env h r = record { settled = refl; distinct = tt; filed = tt }

module _ (env : Env) (h : BlockHash) (r : Round) (rs : RoundState) (v : PrimaryVote) where
  -- A vote of this round and election enters it.
  pub insert-IsSound :
      IsSound env h r rs
      → v.round ≡ r
      → v.election_hash ≡ h
      → IsSound env h r
          (record rs { validated_votes = insert (Vote.digest env.sha512 v) v rs.validated_votes })
  insert-IsSound s er eh = record {
    settled = s.settled;
    distinct = Distinct-keys-insert (Vote.digest env.sha512 v) v rs.validated_votes s.distinct;
    filed =
        All-insert (Filed env h r) (Vote.digest env.sha512 v) v rs.validated_votes (refl, er, eh)
          s.filed;
  }

pub put_round-Sound :
    (env : Env) (h : BlockHash) (r : Round) (rs : RoundState) (e : Election)
    → IsSound env h r rs
    → Sound env h e
    → Sound env h (put_round r rs e)
put_round-Sound env h r rs e s all = put_elim (IsSound env h) e h r rs s all

-- With nothing pending, `validate_pending_votes` does nothing.
pub validate_pending_votes_settled :
    (core : Core) (v : PrimaryVote) (rs : RoundState)
    → rs.unvalidated_votes ≡ []
    → validate_pending_votes core v rs ≡ some (rs, core)
unfolding validate_pending_votes
validate_pending_votes_settled core v rs h = rw h

-- Both handlers that cast a vote leave the elections alone.
pub cast_vote-elections :
    (core : Core) (rs : RoundState) (v : PrimaryVote)
    → ((cast_vote core rs v).1.elections ≡ core.elections)
      × ((cast_vote core rs v).1.env ≡ core.env)
unfolding cast_vote
cast_vote-elections core rs v = (refl, refl)

pub cast_vote-IsSound :
    (core : Core) (h : BlockHash) (r : Round) (rs : RoundState) (v : PrimaryVote)
    → IsSound core.env h r rs
    → v.round ≡ r
    → v.election_hash ≡ h
    → IsSound core.env h r (cast_vote core rs v).0
unfolding cast_vote tally_vote
cast_vote-IsSound core h r rs v s er eh =
    let s1 = insert-IsSound core.env h r rs v s er eh in
    record { settled = s1.settled; distinct = s1.distinct; filed = s1.filed }

pub admit_vote-IsSound :
    (core : Core) (h : BlockHash) (r : Round) (rs : RoundState) (v : PrimaryVote)
    → IsSound core.env h r rs
    → v.round ≡ r
    → v.election_hash ≡ h
    → IsSound core.env h r (admit_vote core rs v)
unfolding admit_vote tally_vote
admit_vote-IsSound core h r rs v s er eh =
    let s1 = insert-IsSound core.env h r rs v s er eh in
    elim (Bool-cases (v.signer == core.id)) [
      | inl own ↦ rw own (record { settled = s1.settled; distinct = s1.distinct; filed = s1.filed })
      | inr other ↦
          rw other (record { settled = s1.settled; distinct = s1.distinct; filed = s1.filed })
    ]
