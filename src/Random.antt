-- ===== src/Random.antt =====
-- The `rand` crate: any sequence of draws, read from a position. `gen_range` is all the code uses.
use nero_consensus.Prelude.{ℕ, ◌+◌, ◌%◌, ◌<◌, arith}

pub record Rng : Type 0 where
  pub draw : ℕ → ℕ
  pub position : ℕ

-- `gen_range(0..n)`
unfoldable pub gen_range : ℕ → Rng → ℕ × Rng
gen_range n r = (r.draw r.position % n, record r { position = r.position + 1 })

pub gen_range-lt : (n : ℕ) (r : Rng) → 0 < n → (gen_range n r).0 < n
unfolding gen_range
gen_range-lt n r h = grind arith
