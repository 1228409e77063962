-- ===== src/Node/Boot.antt =====
-- node/src/main.rs: the two commands of the binary, below the reading of the command line.
pub mod Started
use nero_consensus.Prelude.{
  ℕ, Bool, true, false, Option, none, some, List, [], ◌∷◌, ◌==◌, list_eq, if◌then◌else◌, ◌>>=◌,
}
use nero_consensus.Prelude.Bytes.{Bytes}
use nero_consensus.Prelude.Result.{Result, ok, err, map_err, try_then}
use nero_consensus.Random.{Rng}
use nero_consensus.Crypto.Signatures.{Dalek}
use nero_consensus.Network.Address.{SocketAddr}
use nero_consensus.Config.{ConfigError, Committee, Parameters, default_parameters}
use nero_consensus.Config.Files.{Disk, Json, KeyPair, new_key_pair, import_file, export_file}
use nero_consensus.Primary.Core.State.{Core, Env}
use nero_consensus.Primary.Spawn.{Primary, spawn_primary}

-- The arguments of `run`.
pub record Arguments : Type 0 where
  pub keys : Bytes
  pub committee : Bytes
  pub parameters : Option Bytes
  pub store : Bytes
  pub byzantine : Bytes

-- The errors of `run`, by what failed.
pub data RunError : Type 0 where
  keypair_error committee_error parameters_error : ConfigError → RunError
  store_error : RunError

-- `parse::<bool>()`
unfoldable pub parse_bool : Bytes → Option Bool
parse_bool text =
    if text == (116 ∷ 114 ∷ 117 ∷ 101 ∷ [])
    then some true
    else if text == (102 ∷ 97 ∷ 108 ∷ 115 ∷ 101 ∷ [])
    then some false
    else none

-- `generate_keys`
unfoldable pub generate_keys :
    Dalek → Json KeyPair → Disk → Bytes → Rng → Option (Result ConfigError (Unit {0}) × Disk)
unfolding new_key_pair export_file
generate_keys d keys disk filename rng = export_file keys disk filename (new_key_pair d rng).0

-- The parameters, or the default ones if no file is named.
unfoldable pub load_parameters :
    Json Parameters → Disk → Option Bytes → Result ConfigError Parameters
unfolding import_file
load_parameters params disk none = ok default_parameters
load_parameters params disk (some filename) = import_file params disk filename

module _ (env : Env) (localhost : ℕ) (keys : Json KeyPair) (committees : Json Committee)
    (params : Json Parameters) (opens : Bytes → Bool) where
  -- `run`: the address to listen on, and the core; `opens` says which stores open.
  unfoldable pub run_node :
      Disk → Arguments → Rng → Rng → Option (Result RunError (SocketAddr × Core))
  unfolding parse_bool import_file load_parameters spawn_primary
  run_node disk arguments rng seed = do
    byzantine_node ← parse_bool arguments.byzantine
    try_then (map_err keypair_error (import_file keys disk arguments.keys)) (λ keypair.
        try_then (map_err committee_error (import_file committees disk arguments.committee))
          (λ committee.
            try_then (map_err parameters_error (load_parameters params disk arguments.parameters))
              (λ parameters.
                if opens arguments.store
                then (do
                  started ←
                      spawn_primary env localhost
                        (record {
                          keypair = keypair;
                          committee = committee;
                          parameters = parameters;
                          byzantine_node = byzantine_node;
                        })
                        rng seed
                  some (ok started))
                else some (err store_error))))
