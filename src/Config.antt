-- ===== src/Config.antt =====
-- config/src/lib.rs: the committee, its stakes and thresholds, and the parameters of a node.
pub mod Thresholds
pub mod Members
pub mod Files
use nero_consensus.Prelude.{
  ℕ, ◌+◌, ◌*◌, ◌/◌, ◌%◌, ◌^◌, Bool, not, Option, none, some, List, [], ◌∷◌, map, ◌==◌, nat_eq,
  length, if◌then◌else◌,
}
use nero_consensus.Prelude.Map.{Map, get}
use nero_consensus.Prelude.Bytes.{Bytes}
use nero_consensus.Prelude.Result.{Result, ok, err}
use nero_consensus.Crypto.{PublicKey}
use nero_consensus.Network.Address.{SocketAddr}

abbrev pub Stake : Type 0
Stake = ℕ

-- Arithmetic of the `u32` of a stake.
abbrev pub u32 : ℕ → ℕ
u32 n = n % 2 ^ 32

pub record Parameters : Type 0 where
  pub batch_size : ℕ
  pub max_batch_delay : ℕ

-- `Parameters::default`
abbrev pub default_parameters : Parameters
default_parameters = record { batch_size = 500_000; max_batch_delay = 100 }

pub record PrimaryAddresses : Type 0 where
  pub transactions : SocketAddr

pub record Authority : Type 0 where
  pub stake : Stake
  pub primary : PrimaryAddresses
  pub byzantine : Bool

pub record Committee : Type 0 where
  pub authorities : Map PublicKey Authority

-- `ConfigError`; the file errors name the file and what went wrong.
pub data ConfigError : Type 0 where
  not_in_committee : PublicKey → ConfigError
  import_error : Bytes → Bytes → ConfigError
  export_error : Bytes → Bytes → ConfigError

-- `Committee::empty`
abbrev pub empty : Committee
empty = record { authorities = [] }

unfoldable pub size : Committee → ℕ
size c = length c.authorities

unfoldable pub stake : Committee → PublicKey → Stake
stake c name = elim (get name c.authorities) [ none ↦ 0 | some x ↦ x.stake ]

-- The loop of `total_stake`.
unfoldable pub add_stakes : Stake → Map PublicKey Authority → Stake
add_stakes total [] = total
add_stakes total ((_, authority) ∷ rest) = add_stakes (u32 (total + authority.stake)) rest

unfoldable pub total_stake : Committee → Stake
unfolding add_stakes
total_stake c = add_stakes 0 c.authorities

-- `values().map(|x| x.stake).sum()`
unfoldable pub sum_stakes : Map PublicKey Authority → Stake
sum_stakes [] = 0
sum_stakes ((_, authority) ∷ rest) = u32 (authority.stake + sum_stakes rest)

unfoldable pub keep_others : PublicKey → Map PublicKey Authority → List (PublicKey × Stake)
keep_others myself [] = []
keep_others myself ((name, authority) ∷ rest) =
    let others = keep_others myself rest in
    if not (name == myself) then (name, authority.stake) ∷ others else others

unfoldable pub others_stake : Committee → PublicKey → List (PublicKey × Stake)
unfolding keep_others
others_stake c myself = keep_others myself c.authorities

unfoldable pub quorum_threshold : Committee → Stake
unfolding sum_stakes
quorum_threshold c = u32 (2 * sum_stakes c.authorities) / 3 + 1

unfoldable pub validity_threshold : Committee → Stake
unfolding sum_stakes
validity_threshold c = u32 (sum_stakes c.authorities + 2) / 3

unfoldable pub primary : Committee → PublicKey → Result ConfigError PrimaryAddresses
primary c to = elim (get to c.authorities) [
  | none ↦ err (not_in_committee to)
  | some x ↦ ok x.primary
]

-- The filter on `myself` is commented out in the source.
unfoldable pub others_primaries : Committee → PublicKey → List (PublicKey × PrimaryAddresses)
others_primaries c myself = map (λ e. (e.0, e.1.primary)) c.authorities
