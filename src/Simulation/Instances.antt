-- ===== src/Simulation/Instances.antt =====
-- node/src/consensus.rs, `main`: one instance after another, and how many end with 1.
use nero_consensus.Prelude.{
  ℕ, zero, suc, ◌+◌, ◌≤◌, ◌≡◌, Option, some, arith, ◌>>=◌, >>=-eq-some, if◌then◌else◌, ◌==◌,
  Bool-cases, inl, inr,
}
use mathlib.Core.Option.{some-injective}
use nero_consensus.Random.{Rng}
use nero_consensus.Simulation.{one, ballot_eq, start}
use nero_consensus.Simulation.Turn.{turns}

abbrev pub total_txs : ℕ
total_txs = 1_000

-- `n` instances of at most `bound` turns; `none` is a panic, or an instance that takes more.
unfoldable pub instances : ℕ → ℕ → Rng → ℕ → Option ℕ
unfolding start turns
instances bound zero rng total_confirmed = some total_confirmed
instances bound (suc n) rng total_confirmed = do
  s ← start rng
  (s1, conclusion) ← turns bound s
  d ← conclusion
  instances bound n s1.rng (if d == one then total_confirmed + 1 else total_confirmed)

-- The program, but for what it prints.
unfoldable pub main : ℕ → Rng → Option ℕ
unfolding instances
main bound rng = instances bound total_txs rng 0

instances_le :
    (bound n : ℕ) (rng : Rng) (c : ℕ) {k : ℕ} → instances bound n rng c ≡ some k → k ≤ n + c
unfolding instances
instances_le bound zero rng c {k} eq = omega (arith, some-injective c k eq)
instances_le bound (suc n) rng c {k} eq =
    let (s, _, eq1) = >>=-eq-some (start rng) _ eq in
    let ((s1, conclusion), _, eq2) = >>=-eq-some (turns bound s) _ eq1 in
    let (d, _, eq3) = >>=-eq-some conclusion _ eq2 in
    elim (Bool-cases (d == one)) [
      | inl yes_one ↦ omega (arith, instances_le bound n s1.rng (c + 1) {k = k} (rw yes_one at eq3))
      | inr other ↦ omega (arith, instances_le bound n s1.rng c {k = k} (rw other at eq3))
    ]

-- No more transactions are confirmed than there are, so the counter of the program stays far below the
-- bounds of its type.
pub main_le : (bound : ℕ) (rng : Rng) {k : ℕ} → main bound rng ≡ some k → k ≤ total_txs
unfolding main
main_le bound rng eq = omega (arith, instances_le bound total_txs rng 0 eq)
