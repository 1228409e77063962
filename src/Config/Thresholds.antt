-- ===== src/Config/Thresholds.antt =====
-- The thresholds, against the comments on them: with N = 3f + 1 + k and k < 3 a quorum is N - f.
use nero_consensus.Prelude.{ℕ, ◌+◌, ◌*◌, ◌^◌, ◌≤◌, ◌<◌, ◌≡◌, [], ◌∷◌, arith}
use nero_consensus.Prelude.Map.{Map}
use nero_consensus.Crypto.{PublicKey}
use nero_consensus.Config.{
  Authority, Committee, u32, add_stakes, total_stake, sum_stakes, quorum_threshold,
  validity_threshold,
}

sum_stakes-lt : (m : Map PublicKey Authority) → sum_stakes m < 2 ^ 32
unfolding sum_stakes
sum_stakes-lt [] = omega arith
sum_stakes-lt ((n, a) ∷ m) = omega arith

-- The two ways to add the stakes up.
add_stakes-sum :
    (t : ℕ) (m : Map PublicKey Authority) → t < 2 ^ 32 → add_stakes t m ≡ u32 (t + sum_stakes m)
unfolding add_stakes sum_stakes
add_stakes-sum t [] h = omega arith
add_stakes-sum t ((n, a) ∷ m) h = omega (arith, add_stakes-sum (u32 (t + a.stake)) m (omega arith))

-- `total_stake` is the sum that the thresholds are computed from.
pub total_stake-sum : (c : Committee) → total_stake c ≡ sum_stakes c.authorities
unfolding total_stake
total_stake-sum c =
    omega (arith, add_stakes-sum 0 c.authorities (omega arith), sum_stakes-lt c.authorities)

module _ (c : Committee) (f k : ℕ) (small : k < 3) (total : total_stake c ≡ 3 * f + 1 + k) where
  -- With a total stake N = 3f + 1 + k, for k below 3, and 2N within a `u32`, a quorum is N - f and
  -- the validity threshold is f + 1.
  pub thresholds_lem :
      2 * total_stake c < 2 ^ 32
      → (quorum_threshold c + f ≡ total_stake c) × (validity_threshold c ≡ f + 1)
  unfolding quorum_threshold validity_threshold
  thresholds_lem room = (omega (arith, total_stake-sum c), omega (arith, total_stake-sum c))

  -- Two sets of stakes that both reach the quorum, out of a total N as above, have more than f in
  -- common.
  pub quorums_overlap :
      (p q both : ℕ)
      → 2 * total_stake c < 2 ^ 32
      → quorum_threshold c ≤ p
      → quorum_threshold c ≤ q
      → p + q ≤ total_stake c + both
      → validity_threshold c ≤ both
  quorums_overlap p q both room hp hq cover = omega (arith, thresholds_lem room)
