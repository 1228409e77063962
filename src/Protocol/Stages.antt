-- ===== src/Protocol/Stages.antt =====
-- Round after round: the votes of an election are open, then lean to one value, then stand for it.
use nero_consensus.Prelude.{
  zero, suc, ◌<◌, ◌≡◌, ◌≢◌, refl, inl, inr, ◌⊎◌, Bool, true, false, some, List, [], ◌∷◌, ◌∙◌, subst,
  arith, ◌==◌, nat_eq, Bool-cases, Option-cases, length, beq_self, leb,
}
use nero_consensus.Prelude.Sets.{contains, Distinct}
use nero_consensus.Crypto.{PublicKey}
use nero_consensus.Primary.General.{quorum, number_of_total_nodes}
use nero_consensus.Primary.Vote.{
  BlockHash, Round, Value, VoteType, PrimaryVote, initial_vote, commit, decide, value_eq, type_eq,
}
use nero_consensus.Primary.Election.{Tally}
use nero_consensus.Primary.Election.Tallies.{entry, matches}
use nero_consensus.Primary.Core.State.{Core, Env}
use nero_consensus.Primary.Core.Agreement.{voted_for, tested, seen-tested}
use nero_consensus.Protocol.Phases.{Initial, Leaning, Locked}
use nero_consensus.Protocol.Shares.{tally_of}
use nero_consensus.Protocol.Network.{IsInjective, IsMember}
use nero_consensus.Protocol.Votes.{Follows, votes_in, accepted-Follows}
use nero_consensus.Protocol.Steps.{
  Follows-zeros, Follows-ones, Follows-Initial, Follows-Leaning, Follows-Locked,
}

tested_zero :
    (p : PublicKey → Bool) (nodes : List PublicKey)
    → ((n : PublicKey) → contains n nodes ≡ true → p n ≡ false)
    → tested p nodes ≡ 0
unfolding tested contains
tested_zero p [] never = refl
tested_zero p (m ∷ nodes) never =
    rw (never m (rw (beq_self m) refl))
      (omega (arith, tested_zero p nodes (λ n there. never n (ground arith))))

tested_pos :
    (p : PublicKey → Bool) (nodes : List PublicKey) (n : PublicKey)
    → contains n nodes ≡ true
    → p n ≡ true
    → 0 < tested p nodes
unfolding tested contains
tested_pos p [] n there passes = absurd (ground arith)
tested_pos p (m ∷ nodes) n there passes = elim (Bool-cases (m == n)) [
  | inl same ↦ ground arith
  | inr other ↦ ground (arith, tested_pos p nodes n)
]

module _ (env : Env) (nodes : List PublicKey) (cores : PublicKey → Core)
    (byzantine : PublicKey → Bool)
    (members : (n : PublicKey) → contains n nodes ≡ true → IsMember env nodes cores byzantine n)
    (only : IsInjective env) (size : length nodes ≡ number_of_total_nodes)
    (distinct : Distinct nodes) (h : BlockHash) where
  -- The votes that the honest nodes have accepted in a round.
  abbrev pub cast_tally : Round → Tally
  cast_tally r = tally_of (votes_in env nodes cores byzantine members only h r) nodes

  -- What every vote of a round satisfies.
  abbrev pub EachVote : Round → (PrimaryVote → Type 0) → Type 0
  EachVote r P =
      (n : PublicKey) (w : PrimaryVote)
      → contains n nodes ≡ true
      → votes_in env nodes cores byzantine members only h r n ≡ some w
      → P w

  pub none_of :
      (x : Value) (y : VoteType) (r : Round)
      → EachVote r (λ w. matches x y w ≡ false)
      → entry x y (cast_tally r) ≡ 0
  none_of x y r never =
      seen-tested x y (votes_in env nodes cores byzantine members only h r) nodes size
      ∙ tested_zero (λ n. voted_for x y (votes_in env nodes cores byzantine members only h r n))
          nodes
          (λ n there. elim (Option-cases (votes_in env nodes cores byzantine members only h r n)) [
            | inl absent ↦ rw absent refl
            | inr (w, cast) ↦ rw cast (never n w there cast)
          ])

  pub some_of :
      (r : Round) (n : PublicKey) (w : PrimaryVote)
      → contains n nodes ≡ true
      → votes_in env nodes cores byzantine members only h r n ≡ some w
      → 0 < entry w.value w.vote_type (cast_tally r)
  some_of r n w there cast =
      let counted =
        tested_pos
          (λ m.
            voted_for w.value w.vote_type (votes_in env nodes cores byzantine members only h r m))
          nodes n there (rw cast (rw (beq_self w.value, beq_self w.vote_type) refl)) in
      omega (
        arith,
        counted,
        seen-tested w.value w.vote_type (votes_in env nodes cores byzantine members only h r) nodes
            size,
      )

  pub each-Follows : (r : Round) → EachVote (suc r) (Follows (cast_tally r))
  each-Follows r n w there cast =
      elim (accepted-Follows env nodes cores byzantine members only h size distinct (suc r) n w
        cast) [
          | inl (first, kind) ↦ absurd (omega arith)
          | inr (p, after, follows) ↦ subst (λ s. Follows (cast_tally s) w) (omega arith) follows
        ]

  Initial-again :
      (r : Round) → EachVote r (λ w. w.vote_type ≡ initial_vote) → Initial (cast_tally r)
  Initial-again r all = record {
    zero_commits =
        none_of Value.zero commit r (λ n w there cast. ground (arith, all n w there cast));
    zero_decides =
        none_of Value.zero decide r (λ n w there cast. ground (arith, all n w there cast));
    one_commits = none_of Value.one commit r (λ n w there cast. ground (arith, all n w there cast));
    one_decides = none_of Value.one decide r (λ n w there cast. ground (arith, all n w there cast));
  }

  pub first_Initial : Initial (cast_tally 0)
  first_Initial = Initial-again 0 (λ n w there cast.
      elim (accepted-Follows env nodes cores byzantine members only h size distinct 0 n w cast) [
        | inl (first, kind) ↦ kind
        | inr (p, after, follows) ↦ absurd (omega arith)
      ])

  pub Leaning-next :
      (x : Value) (r : Round)
      → EachVote r (λ w. (w.value ≡ x) × (w.vote_type ≢ decide))
      → Leaning x (cast_tally r)
  Leaning-next Value.zero r all = (
    none_of Value.zero decide r (λ n w there cast. ground (arith, all n w there cast)),
    none_of Value.one initial_vote r (λ n w there cast. ground (arith, all n w there cast)),
    none_of Value.one commit r (λ n w there cast. ground (arith, all n w there cast)),
    none_of Value.one decide r (λ n w there cast. ground (arith, all n w there cast)),
  )
  Leaning-next Value.one r all = (
    none_of Value.one decide r (λ n w there cast. ground (arith, all n w there cast)),
    none_of Value.zero initial_vote r (λ n w there cast. ground (arith, all n w there cast)),
    none_of Value.zero commit r (λ n w there cast. ground (arith, all n w there cast)),
    none_of Value.zero decide r (λ n w there cast. ground (arith, all n w there cast)),
  )

  Locked-next :
      (x : Value) (r : Round)
      → EachVote r (λ w. (w.value ≡ x) × (w.vote_type ≢ initial_vote))
      → Locked x (cast_tally r)
  Locked-next Value.zero r all = (
    none_of Value.zero initial_vote r (λ n w there cast. ground (arith, all n w there cast)),
    none_of Value.one initial_vote r (λ n w there cast. ground (arith, all n w there cast)),
    none_of Value.one commit r (λ n w there cast. ground (arith, all n w there cast)),
    none_of Value.one decide r (λ n w there cast. ground (arith, all n w there cast)),
  )
  Locked-next Value.one r all = (
    none_of Value.one initial_vote r (λ n w there cast. ground (arith, all n w there cast)),
    none_of Value.zero initial_vote r (λ n w there cast. ground (arith, all n w there cast)),
    none_of Value.zero commit r (λ n w there cast. ground (arith, all n w there cast)),
    none_of Value.zero decide r (λ n w there cast. ground (arith, all n w there cast)),
  )

  -- A round of which the votes are initial ones, or lean to a value, or stand for it.
  abbrev pub Stage : Round → Type 0
  Stage r =
      Initial (cast_tally r) ⊎ ((x : Value) × (Leaning x (cast_tally r) ⊎ Locked x (cast_tally r)))

  Initial-next : (r : Round) → Initial (cast_tally r) → Stage (suc r)
  Initial-next r i = elim (Bool-cases (leb quorum (cast_tally r).zero_votes)) [
    | inl zeros ↦ inr (
      Value.zero,
      inl (
          Leaning-next Value.zero (suc r) (λ n w there cast.
            Follows-zeros (cast_tally r) w (each-Follows r n w there cast) i (ground arith))),
    )
    | inr few ↦ elim (Bool-cases (leb quorum (cast_tally r).one_votes)) [
      | inl ones ↦ inr (
        Value.one,
        inl (
            Leaning-next Value.one (suc r) (λ n w there cast.
              Follows-ones (cast_tally r) w (each-Follows r n w there cast) i (ground arith))),
      )
      | inr neither ↦ inl (
          Initial-again (suc r) (λ n w there cast.
            Follows-Initial (cast_tally r) w (each-Follows r n w there cast) i (ground arith)
              (ground arith)))
    ]
  ]

  pub Leaning-Locked :
      (x : Value) (r : Round) → Leaning x (cast_tally r) → Locked x (cast_tally (suc r))
  Leaning-Locked x r l =
      Locked-next x (suc r)
        (λ n w there cast. Follows-Leaning (cast_tally r) w x (each-Follows r n w there cast) l)

  pub Locked-Locked :
      (x : Value) (r : Round) → Locked x (cast_tally r) → Locked x (cast_tally (suc r))
  Locked-Locked x r l =
      Locked-next x (suc r)
        (λ n w there cast. Follows-Locked (cast_tally r) w x (each-Follows r n w there cast) l)

  pub stage : (r : Round) → Stage r
  stage zero = inl first_Initial
  stage (suc r) = elim (stage r) [
    | inl i ↦ Initial-next r i
    | inr (x, inl l) ↦ inr (x, inr (Leaning-Locked x r l))
    | inr (x, inr l) ↦ inr (x, inr (Locked-Locked x r l))
  ]
