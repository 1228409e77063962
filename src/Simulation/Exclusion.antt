-- ===== src/Simulation/Exclusion.antt =====
-- node/src/consensus.rs: the exclusion of byzantine nodes, whose votes are the same for all.
use nero_consensus.Prelude.{
  ℕ, ◌+◌, ◌<◌, ◌≡◌, refl, subst, ap, sym, ◌∙◌, Option, none, some, List, [], arith, ◌>>=◌,
  >>=-eq-some, Bool, false, ◌&&◌, Bool-cases, Option-cases, inl, inr, ◌==◌, nat_eq, replicate,
  length,
}
use mathlib.Core.Option.{some-injective}
use nero_consensus.Prelude.Map.{get, insert, get-insert}
use nero_consensus.Prelude.Sets.{contains}
use nero_consensus.Random.{Rng}
use nero_consensus.Simulation.{
  Sim, Ballot, zero, one, ballot_eq, Slot, slot_eq, number_of_nodes, number_of_honest_nodes,
  number_of_byzantine_nodes, cast_byzantine, start, start_honest, assert_voted, for_each, new_sim,
  byzantine_vote,
}
use nero_consensus.Simulation.Turn.{
  next, vote, vote_undecided, vote_counted, vote_next, try_decide, arrive, byzantine_turn, turns,
  deliver,
}
use nero_consensus.Simulation.Loops.{Keeps, for_each-Keeps, turns-Keeps}

-- The votes are seen as 1 by one node and as 0 by another.
abbrev mixed : Option (List Ballot) → Bool
mixed none = false
mixed (some votes) = contains one votes && contains zero votes

replicate-mixed : (v : Ballot) → mixed (some (replicate number_of_nodes v)) ≡ false
unfolding contains
replicate-mixed v = ground arith

-- The last votes of the byzantine node, and that it has never been excluded.
abbrev Uniform : Sim → Type 0
Uniform s =
    (s.excluded_nodes ≡ [])
    × ((r : ℕ) → mixed (get (record { node = 3; round = r }) s.votes) ≡ false)

-- A slot takes the same vote for all.
mixed-insert_same :
    (slot : Slot) (v : Ballot) (s : Sim) (r : ℕ)
    → Uniform s
    → mixed
        (get (record { node = 3; round = r }) (insert slot (replicate number_of_nodes v) s.votes))
      ≡ false
mixed-insert_same slot v s r u =
    rw (get-insert slot (record { node = 3; round = r }) (replicate number_of_nodes v) s.votes)
      (ground (arith, replicate-mixed v, u.1 r))

-- A slot of an honest node takes any vote.
mixed-insert_honest :
    (i round : ℕ) (vs : List Ballot) (s : Sim) (r : ℕ)
    → i < number_of_honest_nodes
    → Uniform s
    → mixed (
        get
          (record { node = 3; round = r })
          (insert (record { node = i; round = round }) vs s.votes))
      ≡ false
mixed-insert_honest i round vs s r h u =
    rw (get-insert (record { node = i; round = round }) (record { node = 3; round = r }) vs s.votes)
      (ground (arith, u.1 r))

vote_counted-Uniform :
    (i round zeros ones : ℕ) (ors zrs : List ℕ) (s : Sim)
    → Uniform s
    → Uniform (vote_counted i round zeros ones ors zrs s)
unfolding vote_counted vote_next try_decide
vote_counted-Uniform i round n m ors zrs s u =
    let slot : Slot = record { node = i; round = next round } in
    (
      ground arith,
      λ r. ground (arith, mixed-insert_same slot one s r u, mixed-insert_same slot zero s r u),
    )

vote-Uniform :
    (i round zeros ones : ℕ) (s s' : Sim)
    → i < number_of_honest_nodes
    → Uniform s
    → vote i round zeros ones s ≡ some s'
    → Uniform s'
unfolding vote vote_undecided vote_next
vote-Uniform i round zeros ones s s' _ u eq = elim (Option-cases (get i s.decided)) [
  | inl fresh ↦
      let (ors, _, eq1) = >>=-eq-some (get i s.one_quorum) _ (rw (vote, fresh) at eq) in
      let (zrs, _, eq2) = >>=-eq-some (get i s.zero_quorum) _ eq1 in
      subst Uniform (some-injective _ _ eq2) (vote_counted-Uniform i round zeros ones ors zrs s u)
  | inr (w, old) ↦
      subst Uniform (some-injective _ _ (rw (vote, old) at eq))
        (u.0, λ r. mixed-insert_same (record { node = i; round = next round }) w s r u)
]

arrive-Uniform : (round : ℕ) → Keeps Uniform (arrive round) number_of_honest_nodes
unfolding arrive
arrive-Uniform round j s s' h u eq =
    elim (Option-cases (get (record { node = j; round = round }) s.votes)) [
      | inl absent ↦ subst Uniform (some-injective _ _ (rw absent at eq)) u
      | inr (vs, there) ↦
          subst Uniform (some-injective _ _ (rw there at eq))
            (u.0, λ r. mixed-insert_honest j round (deliver [] vs) s r h u)
    ]

cast_byzantine-Uniform : (i round : ℕ) (s : Sim) → Uniform s → Uniform (cast_byzantine i round s)
unfolding cast_byzantine
cast_byzantine-Uniform i round s u = (
  u.0,
  λ r. mixed-insert_same (record { node = i; round = round }) (byzantine_vote s.rng).0 s r u,
)

byzantine_turn-Uniform : Keeps Uniform byzantine_turn number_of_byzantine_nodes
unfolding byzantine_turn
byzantine_turn-Uniform j s s' h u eq =
    let node = number_of_honest_nodes + j in
    let (round, _, eq1) = >>=-eq-some (get node s.nodes) _ eq in
    let (vs, there, eq2) =
      >>=-eq-some (get (record { node = node; round = round }) s.votes) _ eq1 in
    let last : 3 + j ≡ 3 = omega (arith, h) in
    let pure : contains one vs && contains zero vs ≡ false =
      ap mixed (sym there)
      ∙ ap (λ n. mixed (get (record { node = n; round = round }) s.votes)) last
      ∙ u.1 round in
    subst Uniform (some-injective _ _ (rw pure at eq2))
      (cast_byzantine-Uniform node (next round) s u)

abbrev honest_body : ℕ → Sim → Option Sim
honest_body i s = some (start_honest i s)

abbrev byzantine_body : ℕ → Sim → Option Sim
byzantine_body i s = some (cast_byzantine (i + number_of_honest_nodes) 0 s)

honest_body-Uniform : Keeps Uniform honest_body number_of_honest_nodes
unfolding start_honest
honest_body-Uniform i s s' h u eq =
    subst Uniform (some-injective _ _ eq) (u.0, λ r. mixed-insert_honest i 0 _ s r h u)

assert_voted-Uniform : Keeps Uniform assert_voted number_of_nodes
unfolding assert_voted
assert_voted-Uniform i s s' h u eq =
    let (vs, _, eq1) = >>=-eq-some (get (record { node = i; round = 0 }) s.votes) _ eq in
    elim (Bool-cases (length vs == number_of_nodes)) [
      | inl full ↦ subst Uniform (some-injective _ _ (rw full at eq1)) u
      | inr short ↦ absurd (ground (arith, eq1))
    ]

byzantine_body-Uniform : Keeps Uniform byzantine_body number_of_byzantine_nodes
byzantine_body-Uniform i s s' h u eq =
    subst Uniform (some-injective _ _ eq)
      (cast_byzantine-Uniform (i + number_of_honest_nodes) 0 s u)

start-Uniform : (rng : Rng) {s : Sim} → start rng ≡ some s → Uniform s
unfolding start get
start-Uniform rng {s} eq =
    let check = for_each assert_voted 0 number_of_nodes in
    let cast : Sim → Option Sim = for_each byzantine_body 0 number_of_byzantine_nodes in
    let (s1, honest, eq1) =
      >>=-eq-some (for_each honest_body 0 number_of_honest_nodes (new_sim rng))
        (λ t. cast t >>= check) eq in
    let (s2, byzantine, eq2) = >>=-eq-some (cast s1) check eq1 in
    for_each-Keeps Uniform assert_voted number_of_nodes assert_voted-Uniform 0 number_of_nodes s2
      (omega arith)
      (for_each-Keeps Uniform byzantine_body number_of_byzantine_nodes byzantine_body-Uniform 0
        number_of_byzantine_nodes s1 (omega arith)
        (for_each-Keeps Uniform honest_body number_of_honest_nodes honest_body-Uniform 0
          number_of_honest_nodes (new_sim rng) (omega arith) (refl, λ r. refl) honest)
        byzantine)
      eq2

-- No node is ever excluded, whatever the draws are and however many turns an instance takes.
pub turns-excluded :
    (rng : Rng) (n : ℕ) {s s' : Sim} {c : Option Ballot}
    → start rng ≡ some s
    → turns n s ≡ some (s', c)
    → s'.excluded_nodes ≡ []
turns-excluded rng n {s} begun eq =
    (turns-Keeps Uniform vote-Uniform (λ j round t u. u) arrive-Uniform byzantine_turn-Uniform n s
      (start-Uniform rng begun) eq).0
