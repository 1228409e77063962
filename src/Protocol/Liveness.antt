-- ===== src/Protocol/Liveness.antt =====
-- When the honest nodes of a network decide.
use nero_consensus.Prelude.{
  ℕ, zero, suc, ◌≤◌, ◌≡◌, inl, inr, Bool, true, some, List, sym, subst, arith, nat_eq, length,
  Option-cases, Bool-cases,
}
use nero_consensus.Prelude.Map.{get}
use nero_consensus.Prelude.Sets.{contains, Distinct}
use nero_consensus.Crypto.{PublicKey}
use nero_consensus.Primary.General.{quorum, number_of_total_nodes}
use nero_consensus.Primary.Vote.{
  BlockHash, Round, Value, PrimaryVote, commit, decide, value_eq, type_eq,
}
use nero_consensus.Primary.Election.{Tally}
use nero_consensus.Primary.Core.State.{Core, Env}
use nero_consensus.Primary.Core.Handlers.{load_election}
use nero_consensus.Primary.Core.Loads.{round_of}
use nero_consensus.Primary.Core.Honest.{SentIn}
use nero_consensus.Protocol.Phases.{Leaning, Locked, decided_end}
use nero_consensus.Protocol.Network.{IsInjective, IsMember}
use nero_consensus.Protocol.Members.{IsHonest, member-Full, held_by, held-accepted}
use nero_consensus.Protocol.Votes.{Rests, Follows, Backing-Rests}
use nero_consensus.Protocol.Steps.{Follows-ones, Follows-decide}
use nero_consensus.Protocol.Stages.{EachVote, none_of, each-Follows, Leaning-next, first_Initial}
use nero_consensus.Protocol.Decisions.{casts, recorded_vote, settled_value, later_Locked}

module _ (env : Env) (nodes : List PublicKey) (cores : PublicKey → Core)
    (byzantine : PublicKey → Bool)
    (members : (n : PublicKey) → contains n nodes ≡ true → IsMember env nodes cores byzantine n)
    (only : IsInjective env) (size : length nodes ≡ number_of_total_nodes)
    (distinct : Distinct nodes) (h : BlockHash)
    (ones : quorum
      ≤ (casts env nodes cores byzantine members only size distinct h 0).one_votes) where
  abbrev tally : Round → Tally
  tally = casts env nodes cores byzantine members only size distinct h

  abbrev Each : Round → (PrimaryVote → Type 0) → Type 0
  Each = EachVote env nodes cores byzantine members only size distinct h

  follow : (r : Round) → Each (suc r) (Follows (tally r))
  follow = each-Follows env nodes cores byzantine members only size distinct h

  second_Leaning : Leaning Value.one (tally 1)
  second_Leaning =
      Leaning-next env nodes cores byzantine members only size distinct h Value.one 1
        (λ n w there cast.
          Follows-ones (tally 0) w (follow 0 n w there cast)
            (first_Initial env nodes cores byzantine members only size distinct h) ones)

  standing : (k : ℕ) → Locked Value.one (tally (suc (suc k)))
  standing =
      later_Locked env nodes cores byzantine members only size distinct h Value.one second_Leaning

  -- From round 3 on every vote decides.
  late_decides : (k : ℕ) → Each (suc (suc (suc k))) (λ w. w.vote_type ≡ decide)
  late_decides k n w there cast =
      Follows-decide (tally (suc (suc k))) w (follow (suc (suc k)) n w there cast) (standing k)

  -- So no honest node votes in round 4.
  none_later : (k : ℕ) (w : PrimaryVote) → Rests (tally (suc (suc (suc k)))) w → ⊥
  none_later k w f =
      let no_commits =
        none_of env nodes cores byzantine members only size distinct h Value.one commit
          (suc (suc (suc k))) (λ m u here cast_u. ground (arith, late_decides k m u here cast_u)) in
      decided_end f.counted (tally (suc (suc (suc k)))) f.knows f.open_ (standing (suc k))
        no_commits

  early : (r : Round) (w : PrimaryVote) → Rests (tally r) w → r ≤ 2
  early zero w f = omega arith
  early (suc zero) w f = omega arith
  early (suc (suc zero)) w f = omega arith
  early (suc (suc (suc k))) w f = absurd (none_later k w f)

  -- If the votes of round 0 of an election that the honest nodes among four have accepted hold those of
  -- three nodes for one, no honest node ever sends a vote of a round after round 3, whichever of the
  -- four run with `byzantine` set, whatever votes get lost or are delayed and in whatever order each
  -- node receives them and transactions: every vote that a node receives was sent by its signer, in a
  -- round that is not the last of a `u32` if the signer is another node, and no two keys have one digest.
  pub last_round :
      (n : PublicKey) (w : PrimaryVote)
      → IsHonest env nodes cores byzantine members only n
      → SentIn w (cores n).log
      → w.election_hash ≡ h
      → w.round ≤ 3
  last_round n w honest out for_h =
      let base = (member-Full env nodes cores byzantine members only h n honest).base in
      elim (base.justified w.round w (base.sent w out for_h)) [
        | inl (first, kind) ↦ omega (arith, first)
        | inr b ↦
            let (r, after, rests) =
              Backing-Rests env nodes cores byzantine members only h n honest size distinct w b in
            omega (arith, after, early r w rests)
      ]

  recorded_one :
      (n : PublicKey) (x : Value)
      → IsHonest env nodes cores byzantine members only n
      → get h (cores n).decided ≡ some x
      → get h (cores n).decided ≡ some Value.one
  recorded_one n x honest found =
      let (r, votes) =
        recorded_vote env nodes cores byzantine members only size distinct n honest h x found in
      subst (λ y. get h (cores n).decided ≡ some y)
        (sym (
          settled_value env nodes cores byzantine members only size distinct h Value.one
            second_Leaning r x votes))
        found

  -- If the votes of round 0 of an election that the honest nodes among four have accepted hold those of
  -- three nodes for one, each honest node that holds a quorum of votes of round 2 has recorded one,
  -- whichever of the four run with `byzantine` set and whatever else was lost, delayed or reordered:
  -- every vote that a node receives was sent by its signer, in a round that is not the last of a `u32`
  -- if the signer is another node, and no two keys have one digest.
  pub quorum_records :
      (n : PublicKey)
      → IsHonest env nodes cores byzantine members only n
      → quorum ≤ length (round_of (cores n) h 2).validated_votes
      → get h (cores n).decided ≡ some Value.one
  quorum_records n honest enough =
      let full = member-Full env nodes cores byzantine members only h n honest in
      let base = full.base in
      let e = load_election (cores n) h in
      elim (full.advanced 2) [
        | inl few ↦ absurd (omega (arith, few))
        | inr voted ↦ elim (Bool-cases e.is_decided) [
          | inl done ↦ let (x, found) = base.kept done in recorded_one n x honest found
          | inr undecided ↦
              elim (Option-cases (held_by env nodes cores byzantine members only h n 3 n)) [
                | inl absent ↦ absurd (ground (arith, (base.rounds 3).mine))
                | inr (w, mine) ↦
                    recorded_one n w.value honest
                      (base.closed 3 w mine (
                        late_decides 0 n w honest.0 (
                          held-accepted env nodes cores byzantine members only h n honest 3 n w
                            mine))).1
              ]
        ]
      ]
