-- ===== src/Config/Members.antt =====
-- Who is in the committee, and what the queries say of one member and of the others.
use nero_consensus.Prelude.{
  ℕ, ◌+◌, ◌≡◌, ◌↔◌, refl, sym, ◌∙◌, true, false, some, none, List, [], ◌∷◌, arith, ◌==◌, nat_eq,
  Bool-cases, inl, inr, map,
}
use nero_consensus.Prelude.Map.{Map, get, keys}
use nero_consensus.Prelude.Sets.{contains, Distinct}
use nero_consensus.Prelude.Keys.{contains-keys}
use nero_consensus.Crypto.{PublicKey}
use nero_consensus.Prelude.Result.{ok, err}
use nero_consensus.Config.{
  Stake, PrimaryAddresses, Authority, Committee, not_in_committee, u32, stake, keep_others,
  others_stake, sum_stakes, total_stake, primary, others_primaries,
}
use nero_consensus.Config.Thresholds.{total_stake-sum}

-- The stakes of a list, added up.
pub add_up : List (PublicKey × Stake) → ℕ
add_up [] = 0
add_up ((_, s) ∷ rest) = s + add_up rest

stake_in : PublicKey → Map PublicKey Authority → Stake
stake_in name m = elim (get name m) [ none ↦ 0 | some x ↦ x.stake ]

keep_others_absent :
    (me : PublicKey) (m : Map PublicKey Authority)
    → get me m ≡ none
    → u32 (add_up (keep_others me m)) ≡ sum_stakes m
unfolding keep_others add_up sum_stakes get
keep_others_absent me [] h = refl
keep_others_absent me ((n, a) ∷ m) h = ground (arith, keep_others_absent me m)

-- A key that stands at the head of distinct keys is in no later entry.
gone :
    (me n : PublicKey) (m : Map PublicKey Authority)
    → contains n (keys m) ≡ false
    → (n == me) ≡ true
    → get me m ≡ none
gone me n m d same = ground (arith, contains-keys me m)

keep_others-sum :
    (me : PublicKey) (m : Map PublicKey Authority)
    → Distinct (keys m)
    → u32 (add_up (keep_others me m) + stake_in me m) ≡ sum_stakes m
unfolding keep_others add_up sum_stakes stake_in get
keep_others-sum me [] d = refl
keep_others-sum me ((n, a) ∷ m) d = elim (Bool-cases (n == me)) [
  | inl same ↦ ground (arith, keep_others_absent me m (gone me n m d.0 same))
  | inr other ↦ ground (arith, keep_others-sum me m d.1)
]

-- The stake of a member and the stakes of the others make up the stake of the committee, as a
-- `u32`.
pub others_stake-stake :
    (c : Committee) (me : PublicKey)
    → Distinct (keys c.authorities)
    → u32 (add_up (others_stake c me) + stake c me) ≡ total_stake c
unfolding others_stake stake stake_in
others_stake-stake c me d = keep_others-sum me c.authorities d ∙ sym (total_stake-sum c)

get-map_primary :
    (to : PublicKey) (m : Map PublicKey Authority) (p : PrimaryAddresses)
    → (get to (map (λ e. (e.0, e.1.primary)) m) ≡ some p)
      ↔ ((elim (get to m) [ none ↦ err (not_in_committee to) | some x ↦ ok x.primary ]) ≡ ok p)
unfolding get
get-map_primary to [] p = ground arith
get-map_primary to ((n, a) ∷ m) p = ground (arith, get-map_primary to m p)

-- The list of the other primaries holds the address of every member, that of `myself` too: a key
-- has an address in it exactly if `primary` finds that address.
pub others_primaries-primary :
    (c : Committee) (me to : PublicKey) (p : PrimaryAddresses)
    → (get to (others_primaries c me) ≡ some p) ↔ (primary c to ≡ ok p)
unfolding others_primaries primary
others_primaries-primary c me to p = get-map_primary to c.authorities p
