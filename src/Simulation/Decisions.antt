-- ===== src/Simulation/Decisions.antt =====
-- node/src/consensus.rs: decisions are final, and no node is ever excluded.
use nero_consensus.Prelude.{
  ℕ, ◌+◌, ◌<◌, ◌≡◌, subst, Option, none, some, List, [], ◌∷◌, ◌++◌, arith, >>=-eq-some, ◌&&◌,
  Bool-cases, Option-cases, inl, inr, leb, nat_eq,
}
use mathlib.Core.Option.{some-injective}
use nero_consensus.Prelude.Map.{get, insert, get-insert}
use nero_consensus.Prelude.Sets.{contains}
use nero_consensus.Simulation.{
  Sim, Ballot, zero, one, ballot_eq, slot_eq, number_of_honest_nodes, number_of_byzantine_nodes,
  quorum, cast_byzantine,
}
use nero_consensus.Simulation.Turn.{
  vote, vote_undecided, vote_counted, vote_next, try_decide, arrive, byzantine_turn, turns,
}
use nero_consensus.Simulation.Loops.{Keeps, turns-Keeps}

-- Node `i` has decided the value.
abbrev pub HasDecided : ℕ → Ballot → Sim → Type 0
HasDecided i v s = get i s.decided ≡ some v

try_decide-HasDecided :
    (i : ℕ) (v : Ballot) (j round : ℕ) (value : Ballot) (rounds : List ℕ) (s : Sim)
    → get j s.decided ≡ none
    → HasDecided i v s
    → HasDecided i v (try_decide j round value rounds s)
unfolding try_decide
try_decide-HasDecided i v j round value rounds s fresh h =
    ground (arith, get-insert j i value s.decided)

vote_counted-HasDecided :
    (i : ℕ) (v : Ballot) (j round zeros ones : ℕ) (ors zrs : List ℕ) (s : Sim)
    → get j s.decided ≡ none
    → HasDecided i v s
    → HasDecided i v (vote_counted j round zeros ones ors zrs s)
unfolding vote_counted vote_next
vote_counted-HasDecided i v j round zeros ones ors zrs s fresh h =
    elim (Bool-cases (leb quorum ones)) [
      | inl many ↦ rw many (
          try_decide-HasDecided i v j round one (ors ++ round ∷ [])
            (vote_next j round one
              (record s { one_quorum = insert j (ors ++ round ∷ []) s.one_quorum }))
            fresh h)
      | inr few ↦ rw few (elim (Bool-cases (leb quorum zeros)) [
        | inl many ↦ rw many (
            try_decide-HasDecided i v j round zero (zrs ++ round ∷ [])
              (vote_next j round zero
                (record s { zero_quorum = insert j (zrs ++ round ∷ []) s.zero_quorum }))
              fresh h)
        | inr none_at_all ↦ rw none_at_all h
      ])
    ]

vote-HasDecided :
    (i : ℕ) (v : Ballot) (j round zeros ones : ℕ) (s s' : Sim)
    → j < number_of_honest_nodes
    → HasDecided i v s
    → vote j round zeros ones s ≡ some s'
    → HasDecided i v s'
unfolding vote vote_undecided vote_next
vote-HasDecided i v j round zeros ones s s' _ h eq = elim (Option-cases (get j s.decided)) [
  | inl fresh ↦
      let (ors, _, eq1) = >>=-eq-some (get j s.one_quorum) _ (rw (vote, fresh) at eq) in
      let (zrs, _, eq2) = >>=-eq-some (get j s.zero_quorum) _ eq1 in
      subst (HasDecided i v) (some-injective _ _ eq2)
        (vote_counted-HasDecided i v j round zeros ones ors zrs s fresh h)
  | inr (w, old) ↦ subst (HasDecided i v) (some-injective _ _ (rw (vote, old) at eq)) h
]

arrive-HasDecided :
    (i : ℕ) (v : Ballot) (round : ℕ) → Keeps (HasDecided i v) (arrive round) number_of_honest_nodes
unfolding arrive
arrive-HasDecided i v round j s s' _ h eq =
    elim (Option-cases (get (record { node = j; round = round }) s.votes)) [
      | inl absent ↦ subst (HasDecided i v) (some-injective _ _ (rw absent at eq)) h
      | inr (vs, there) ↦ subst (HasDecided i v) (some-injective _ _ (rw there at eq)) h
    ]

byzantine_turn-HasDecided :
    (i : ℕ) (v : Ballot) → Keeps (HasDecided i v) byzantine_turn number_of_byzantine_nodes
unfolding byzantine_turn cast_byzantine
byzantine_turn-HasDecided i v j s s' _ h eq =
    let node = number_of_honest_nodes + j in
    let (round, _, eq1) = >>=-eq-some (get node s.nodes) _ eq in
    let (vs, _, eq2) = >>=-eq-some (get (record { node = node; round = round }) s.votes) _ eq1 in
    elim (Bool-cases (contains one vs && contains zero vs)) [
      | inl mixed ↦ subst (HasDecided i v) (some-injective _ _ (rw mixed at eq2)) h
      | inr pure ↦ subst (HasDecided i v) (some-injective _ _ (rw pure at eq2)) h
    ]

-- A node that has decided keeps its value for the rest of the instance, however many turns follow.
pub turns-HasDecided :
    (n : ℕ) (s : Sim) {s' : Sim} {c : Option Ballot} (i : ℕ) (v : Ballot)
    → get i s.decided ≡ some v
    → turns n s ≡ some (s', c)
    → get i s'.decided ≡ some v
turns-HasDecided n s i v h eq =
    turns-Keeps (HasDecided i v) (vote-HasDecided i v) (λ j round t k. k) (arrive-HasDecided i v)
      (byzantine_turn-HasDecided i v) n s h eq
