-- ===== src/Simulation/Loops.antt =====
-- What the loops of node/src/consensus.rs keep: a property that the body of each keeps.
use nero_consensus.Prelude.{
  ℕ, zero, suc, ◌+◌, ◌≤◌, ◌<◌, ◌≡◌, subst, ap, Option, none, some, arith, >>=-eq-some, Bool-cases,
  Option-cases, inl, inr, leb, ◌==◌, nat_eq, length,
}
use mathlib.Core.Option.{some-injective}
use nero_consensus.Prelude.Map.{get}
use nero_consensus.Prelude.Map
use nero_consensus.Simulation.{
  Sim, Ballot, slot_eq, for_each, number_of_nodes, number_of_honest_nodes,
  number_of_byzantine_nodes, quorum,
}
use nero_consensus.Simulation.Turn.{
  next, count_round, vote, arrive, advance, byzantine_turn, conclude, all_decided, print_votes,
  turn, turns,
}

module _ (P : Sim → Type 0) where
  -- The body keeps the property at every index below the bound.
  abbrev pub Keeps : (ℕ → Sim → Option Sim) → ℕ → Type 0
  Keeps body bound = (i : ℕ) (s s' : Sim) → i < bound → P s → body i s ≡ some s' → P s'

  pub for_each-Keeps :
      (body : ℕ → Sim → Option Sim) (bound : ℕ)
      → Keeps body bound
      → (start n : ℕ) (s : Sim) {s' : Sim} → start + n ≤ bound
      → P s
      → for_each body start n s ≡ some s'
      → P s'
  unfolding for_each
  for_each-Keeps body bound keep start zero s h p eq = subst P (some-injective _ _ eq) p
  for_each-Keeps body bound keep start (suc n) s h p eq =
      let (s1, first, rest) = >>=-eq-some (body start s) _ eq in
      for_each-Keeps body bound keep (start + 1) n s1 (omega arith)
        (keep start s s1 (omega arith) p first) rest

  -- A loop that only asks whether something is there keeps all.
  print_votes-Keeps : Keeps print_votes number_of_nodes
  unfolding print_votes
  print_votes-Keeps i s s' h p eq =
      let (round, _, printed) = >>=-eq-some (get i s.nodes) _ eq in
      for_each-Keeps _ (round + 1)
        (λ j t t' _ q asked.
          let (_, _, same) = >>=-eq-some (get (record { node = i; round = j }) t.votes) _ asked in
          subst P (some-injective t t' same) q)
        0 (round + 1) s (omega arith) p printed

  module _
      (votes : (i round zeros ones : ℕ) (s s' : Sim)
        → i < number_of_honest_nodes
        → P s
        → vote i round zeros ones s ≡ some s'
        → P s')
      (moves : (i round : ℕ) (s : Sim) → P s → P (record s { nodes = Map.insert i round s.nodes }))
      (arrives : (round : ℕ) → Keeps (arrive round) number_of_honest_nodes)
      (byzantine : Keeps byzantine_turn number_of_byzantine_nodes) where
    advance-Keeps : Keeps advance number_of_honest_nodes
    unfolding advance
    advance-Keeps i s s' h p eq =
        let (round, _, eq1) = >>=-eq-some (get i s.nodes) _ eq in
        let (zeros, _, eq2) =
          >>=-eq-some (count_round s i round Ballot.zero 0 number_of_nodes) _ eq1 in
        let (ones, _, eq3) =
          >>=-eq-some (count_round s i round Ballot.one 0 number_of_nodes) _ eq2 in
        elim (Bool-cases (leb quorum (zeros + ones))) [
          | inl enough ↦
              let (s1, voted, moved) =
                >>=-eq-some (vote i round zeros ones s) _ (rw enough at eq3) in
              subst P (some-injective _ _ moved)
                (moves i (next round) s1 (votes i round zeros ones s s1 h p voted))
          | inr few ↦
              for_each-Keeps (arrive round) number_of_honest_nodes (arrives round) 0
                number_of_honest_nodes s (omega arith) p (rw few at eq3)
        ]

    conclude-Keeps :
        (s : Sim) {s' : Sim} {c : Option Ballot} → P s → conclude s ≡ some (s', c) → P s'
    unfolding conclude
    conclude-Keeps s {s'} {c} p eq =
        elim (Bool-cases (length s.decided == number_of_honest_nodes)) [
          | inl all ↦
              let (d, _, agreed) = >>=-eq-some (get 0 s.decided) _ (rw all at eq) in
              elim (Bool-cases (all_decided d s.decided)) [
                | inl agree ↦
                    subst P
                      (ap (λ r. r.0) (some-injective (s, some d) (s', c) (rw agree at agreed))) p
                | inr disagree ↦ absurd (ground (arith, agreed))
              ]
          | inr running ↦
              let (s1, cast, over) =
                >>=-eq-some (for_each byzantine_turn 0 number_of_byzantine_nodes s) _
                  (rw running at eq) in
              subst P (ap (λ r. r.0) (some-injective (s1, none) (s', c) over)) (
                for_each-Keeps byzantine_turn number_of_byzantine_nodes byzantine 0
                  number_of_byzantine_nodes s (omega arith) p cast)
        ]

    turn-Keeps : (s : Sim) {s' : Sim} {c : Option Ballot} → P s → turn s ≡ some (s', c) → P s'
    unfolding turn
    turn-Keeps s p eq =
        let (s1, printed, eq1) = >>=-eq-some (for_each print_votes 0 number_of_nodes s) _ eq in
        let (s2, advanced, eq2) =
          >>=-eq-some (for_each advance 0 number_of_honest_nodes s1) _ eq1 in
        conclude-Keeps s2
          (for_each-Keeps advance number_of_honest_nodes advance-Keeps 0 number_of_honest_nodes s1
            (omega arith)
            (for_each-Keeps print_votes number_of_nodes print_votes-Keeps 0 number_of_nodes s
              (omega arith) p printed)
            advanced)
          eq2

    -- An instance keeps what its loops keep.
    pub turns-Keeps :
        (n : ℕ) (s : Sim) {s' : Sim} {c : Option Ballot} → P s → turns n s ≡ some (s', c) → P s'
    unfolding turns
    turns-Keeps zero s {s'} {c} p eq =
        subst P (ap (λ r. r.0) (some-injective (s, none) (s', c) eq)) p
    turns-Keeps (suc n) s {s'} {c} p eq =
        let ((s1, conclusion), turned, rest) = >>=-eq-some (turn s) _ eq in
        elim (Option-cases conclusion) [
          | inl none_yet ↦ turns-Keeps n s1 (turn-Keeps s p turned) (rw none_yet at rest)
          | inr (d, over) ↦
              subst P (ap (λ r. r.0) (some-injective (s1, some d) (s', c) (rw over at rest)))
                (turn-Keeps s p turned)
        ]
