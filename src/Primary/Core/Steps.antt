-- ===== src/Primary/Core/Steps.antt =====
-- The handlers keep the invariant.
use nero_consensus.Prelude.{
  ◌≤◌, ◌≡◌, refl, inl, inr, true, false, not, ◌&&◌, sym, arith, ◌==◌, nat_eq, Bool-cases, length,
  leb, subst, length-map,
}
use nero_consensus.Prelude.Map.{keys}
use nero_consensus.Prelude.Sets.{collect, length-collect, collect-IsSorted}
use nero_consensus.Random.{Rng}
use nero_consensus.Primary.General.{quorum}
use nero_consensus.Primary.Vote.{
  VoteHash, BlockHash, Round, PrimaryVote, Decision, random_vote, random_decision, decide, type_eq,
}
use nero_consensus.Primary.Election.{Tally, RoundState, Election, tally_vote}
use nero_consensus.Primary.Core.State.{Core, Env}
use nero_consensus.Primary.Core.Validate.{make_decision}
use nero_consensus.Primary.Core.Handlers.{
  load_round, store_election, cast_vote, cast_initial_vote, admit_vote, answer, next_round_vote,
  record_decision, cast_next, advance, next, try_advance,
}
use nero_consensus.Primary.Core.Loads.{put_round, store_read}
use nero_consensus.Primary.Core.Rounds.{IsSound, Sound, admit_vote-IsSound}
use nero_consensus.Primary.Core.Invariant.{
  IsProper, Inv, put_round-Inv, cast_vote-Inv, set_rng-Inv, decide-Inv,
}

-- What `make_decision` and `validate_vote` change is the generator alone.
pub make_decision_core :
    (core : Core) (t : Tally) → (rng : Rng) × ((make_decision core t).1 ≡ record core { rng = rng })
unfolding make_decision
make_decision_core core t =
    elim (Bool-cases (core.byzantine && t.one_decides == 0 && t.one_decides == 0)) [
      | inl random ↦ ((random_decision core.rng).1, rw random)
      | inr chosen ↦ (core.rng, rw chosen)
    ]

-- What a handler does with an election in hand: the core, once it is written back.
abbrev pub Keeps : BlockHash → Election × Core → Type 0
Keeps h (e, core) = Inv (store_election core h e)

module _ (core : Core) (h : BlockHash) (e : Election) (i : Inv (store_election core h e)) where
  pub held : Sound core.env h e
  unfolding store_election
  held = store_read (Sound core.env h) core h e (i.sound h)

  pub set_rng_held : (rng : Rng) → Inv (store_election (record core { rng = rng }) h e)
  unfolding store_election
  set_rng_held rng = set_rng-Inv (store_election core h e) rng i

  -- The random vote of round 0 is cast from the state `rs`.
  pub cast_initial-Keeps :
      (r : Round) (rs : RoundState)
      → r ≡ 0
      → IsSound core.env h r rs
      → (load_round e h r).voted ≡ false
      → Keeps h (put_round r (cast_initial_vote core rs h).0 e, (cast_initial_vote core rs h).1)
  unfolding cast_initial_vote random_vote
  cast_initial-Keeps r rs z s free =
      let (v, rng) = random_vote core.id h core.rng in
      cast_vote-Inv (record core { rng = rng }) h e r rs v s (sym z) refl refl
        (inl (refl, refl, refl)) free (set_rng_held rng)

admit_vote-voted :
    (core : Core) (rs : RoundState) (v : PrimaryVote)
    → rs.voted ≡ true
    → (admit_vote core rs v).voted ≡ true
unfolding admit_vote tally_vote
admit_vote-voted core rs v h = ground arith

admit_vote_free :
    (core : Core) (rs : RoundState) (v : PrimaryVote)
    → (admit_vote core rs v).voted ≡ false
    → rs.voted ≡ false
unfolding admit_vote tally_vote
admit_vote_free core rs v h = ground arith

module _ (core : Core) (e : Election) (v : PrimaryVote)
    (i : Inv (store_election core v.election_hash e)) where
  -- The state after the vote is admitted, and after the node's answer.
  pub answer-Keeps :
      (rs : RoundState)
      → rs ≡ admit_vote core (load_round e v.election_hash v.round) v
      → Keeps v.election_hash (put_round v.round (answer core rs v).0 e, (answer core rs v).1)
  unfolding answer
  answer-Keeps rs er = elim (Bool-cases (not rs.voted && v.round == 0)) [
    | inl first ↦ rw first (
        cast_initial-Keeps core v.election_hash e i v.round rs (ground arith) sound
          (admit_vote_free core old v (ground arith)))
    | inr other ↦ rw other (
        put_round-Inv core v.election_hash e v.round rs sound
          (λ h. rw er (admit_vote-voted core old v h)) i)
  ]
    where
      old : RoundState
      old = load_round e v.election_hash v.round

      sound : IsSound core.env v.election_hash v.round rs
      sound = rw er (
          admit_vote-IsSound core v.election_hash v.round old v
            (held core v.election_hash e i v.round) refl refl)

  cast_next-Keeps :
      (rs : RoundState)
      → IsSound core.env v.election_hash v.round rs
      → v.signer ≡ core.id
      → IsProper v
      → (load_round e v.election_hash v.round).voted ≡ false
      → Keeps v.election_hash (cast_next core e rs v.round v)
  unfolding cast_next store_election
  cast_next-Keeps rs s signed proper free =
      let kept =
        cast_vote-Inv core v.election_hash e v.round rs v s refl refl signed proper free i in
      elim (Bool-cases (v.vote_type == decide)) [
        | inl decides ↦
            rw (decides, record_decision)
              (decide-Inv (cast_vote core rs v).1 v.election_hash
                (put_round v.round (cast_vote core rs v).0 e) v.value kept)
        | inr other ↦ rw (other, record_decision) kept
      ]

proof_IsProper :
    (core : Core) (env : Env) (h : BlockHash) (r : Round) (rs : RoundState) (d : Decision)
    (n : Round)
    → IsSound env h r rs
    → quorum ≤ length rs.validated_votes
    → IsProper (next_round_vote core d rs n h)
unfolding next_round_vote
proof_IsProper core env h r rs d n s q = inr (
  collect (keys rs.validated_votes),
  refl,
  omega (
    arith,
    length-collect (keys rs.validated_votes) s.distinct,
    length-map {0, 0} (λ (x : VoteHash × PrimaryVote). x.0) rs.validated_votes,
  ),
  collect-IsSorted (keys rs.validated_votes),
)

cast_decision-Keeps :
    (core : Core) (h : BlockHash) (e : Election) (r : Round) (rs : RoundState) (d : Decision)
    (n : Round)
    → Inv (store_election core h e)
    → IsSound core.env h r rs
    → quorum ≤ length rs.validated_votes
    → (load_round e h n).voted ≡ false
    → Keeps h (cast_next core e (load_round e h n) n (next_round_vote core d rs n h))
unfolding next_round_vote
cast_decision-Keeps core h e r rs d n i s q free =
    cast_next-Keeps core e (next_round_vote core d rs n h) i (load_round e h n) (held core h e i n)
      refl (proof_IsProper core core.env h r rs d n s q) free

module _ (core : Core) (h : BlockHash) (e : Election) (r : Round) (rs : RoundState)
    (i : Inv (store_election core h e)) (s : IsSound core.env h r rs) where
  advance-Keeps :
      (n : Round)
      → quorum ≤ length rs.validated_votes
      → (load_round e h n).voted ≡ false
      → Keeps h (advance core e rs (load_round e h n) n h)
  unfolding advance
  advance-Keeps n q free =
      let (rng, eq) = make_decision_core core rs.tally in
      cast_decision-Keeps (make_decision core rs.tally).1 h e r rs (make_decision core rs.tally).0 n
        (subst (λ c. Inv (store_election c h e)) (sym eq) (set_rng_held core h e i rng))
        (subst (λ c. IsSound c.env h r rs) (sym eq) s) q free

  pub try_advance-Keeps :
      (v : PrimaryVote) → v.election_hash ≡ h → Keeps h (try_advance core e rs v)
  unfolding try_advance
  try_advance-Keeps v eh =
      elim (Bool-cases (
        leb quorum (length rs.validated_votes)
        && not (load_round e h (next v.round)).voted
        && not e.is_decided)) [
          | inl go ↦ rw (eh, go) (advance-Keeps (next v.round) (ground arith) (ground arith))
          | inr stay ↦ rw (eh, stay) i
        ]
