-- ===== src/Node/Boot/Started.antt =====
-- A node that is run with the keys that were generated for it.
use nero_consensus.Config.{PrimaryAddresses}
use nero_consensus.Crypto.{PublicKey}
use nero_consensus.Prelude.{
  Option, [], ◌∷◌, map, arith, ℕ, Bool, true, false, ◌≡◌, refl, ap, ◌∙◌, none, some, ◌==◌, list_eq,
  nat_eq, ◌>>=◌,
}
use nero_consensus.Prelude.Map.{Map, get}
use nero_consensus.Prelude.Sets.{contains}
use nero_consensus.Prelude.Bytes.{Bytes}
use nero_consensus.Prelude.Result.{ok}
use nero_consensus.Random.{Rng}
use nero_consensus.Crypto.Signatures.{Dalek}
use nero_consensus.Network.Address.{SocketAddr}
use nero_consensus.Config.{
  Committee, Parameters, Authority, primary, default_parameters, others_primaries,
}
use nero_consensus.Config.Files.{Disk, Json, IsJson, KeyPair, new_key_pair, import_file}
use nero_consensus.Config.Files.Transfers.{export_file_new}
use nero_consensus.Primary.Dispatch.{peers, listen_address}
use nero_consensus.Primary.Core.State.{Core, Env, spawn}
use nero_consensus.Primary.Spawn.{spawn_primary}
use nero_consensus.Node.Boot.{Arguments, generate_keys, load_parameters, run_node, parse_bool}

listen_address_member :
    (localhost : ℕ) (committee : Committee) (name : ℕ) (authority : Authority)
    → get name committee.authorities ≡ some authority
    → listen_address localhost committee name
      ≡ some (record authority.primary.transactions { ip = localhost })
unfolding listen_address primary
listen_address_member localhost committee name authority member =
    rw (member, listen_address, primary) refl

-- The address of a member of a committee.
abbrev pub address_in : Map PublicKey Authority → PublicKey → Option SocketAddr
address_in authorities to = elim (get to authorities) [
  | none ↦ none
  | some authority ↦ some authority.primary.transactions
]

peers-address_in :
    (committee : Committee) (name to : PublicKey)
    → get to (peers committee name) ≡ address_in committee.authorities to
unfolding peers others_primaries get
peers-address_in committee name to = each committee.authorities
  where
    each :
        (m : Map PublicKey Authority)
        → get to (
            map
              (λ (e : PublicKey × PrimaryAddresses). (e.0, e.1.transactions))
              (map (λ (e : PublicKey × Authority). (e.0, e.1.primary)) m))
          ≡ address_in m to
    each [] = refl
    each ((n, a) ∷ m) = ground (arith, each m)

-- The node has no election, has recorded nothing and has sent nothing.
abbrev pub IsIdle : Core → Type 0
IsIdle core = (core.elections ≡ []) × (core.decided ≡ []) × (core.sent_votes ≡ []) × (core.log ≡ [])

module _ (env : Env) (localhost : ℕ) (keys : Json KeyPair) (committees : Json Committee)
    (params : Json Parameters) (opens : Bytes → Bool) where
  -- Where nothing fails, the primary starts.
  run_node_started :
      (disk : Disk) (arguments : Arguments) (pair : KeyPair) (committee : Committee)
      (parameters : Parameters) (byzantine : Bool) (rng seed : Rng) (started : SocketAddr × Core)
      → parse_bool arguments.byzantine ≡ some byzantine
      → import_file keys disk arguments.keys ≡ ok pair
      → import_file committees disk arguments.committee ≡ ok committee
      → load_parameters params disk arguments.parameters ≡ ok parameters
      → opens arguments.store ≡ true
      → spawn_primary env localhost
          (record {
            keypair = pair;
            committee = committee;
            parameters = parameters;
            byzantine_node = byzantine;
          })
          rng
          seed
        ≡ some started
      → run_node env localhost keys committees params opens disk arguments rng seed
        ≡ some (ok started)
  unfolding run_node
  run_node_started disk arguments pair committee parameters byzantine rng seed started parsed
        imported listed loaded opened spawned =
      rw (parsed, imported, listed, loaded, opened, spawned, run_node) refl

  -- A node is run with the file of keys that `generate_keys` has just made, where there was none
  -- and one may be written, without a file of parameters, with a store that opens, and on a
  -- committee, read from another file, that lists the new key. It listens on the local host at the
  -- port that the committee has for it, and its core has the new key as its identity, the byzantine mark
  -- that the argument spells, the address of every member of the committee, itself included, and
  -- of nobody else, and no election, no recorded value and nothing sent.
  pub run_node-generate_keys :
      (d : Dalek) (disk : Disk) (arguments : Arguments) (committee : Committee)
      (authority : Authority) (text : Bytes) (byzantine : Bool) (entropy rng seed : Rng)
      → IsJson keys
      → contains arguments.keys disk.denied ≡ false
      → get arguments.keys disk.files ≡ none
      → keys.to_string_pretty (new_key_pair d entropy).0 ≡ some text
      → (arguments.keys == arguments.committee) ≡ false
      → import_file committees disk arguments.committee ≡ ok committee
      → arguments.parameters ≡ none
      → opens arguments.store ≡ true
      → parse_bool arguments.byzantine ≡ some byzantine
      → get (new_key_pair d entropy).0.name committee.authorities ≡ some authority
      → (after : Disk) × (started : SocketAddr × Core) × (generate_keys d keys disk arguments.keys
            entropy
          ≡ some (ok tt, after))
        × (run_node env localhost keys committees params opens after arguments rng seed
            ≡ some (ok started))
        × (started.0 ≡ record { ip = localhost; port = authority.primary.transactions.port })
        × (started.1.id ≡ (new_key_pair d entropy).0.name)
        × (started.1.byzantine ≡ byzantine)
        × ((to : PublicKey)
            → get to started.1.primary_addresses ≡ address_in committee.authorities to)
        × IsIdle started.1
  unfolding generate_keys run_node load_parameters spawn_primary spawn
  run_node-generate_keys d disk arguments committee authority text byzantine entropy rng seed law
        allowed fresh printed apart listed defaults opened parsed member =
      let pair = (new_key_pair d entropy).0 in
      let (after, exported, imported, others) =
        export_file_new keys disk arguments.keys pair text law allowed fresh printed in
      let found = others Committee committees arguments.committee apart ∙ listed in
      (
        after,
        (
          record authority.primary.transactions { ip = localhost },
          spawn env pair.name (peers committee pair.name) byzantine rng seed,
        ),
        exported,
        run_node_started after arguments pair committee default_parameters byzantine rng seed _
            parsed imported found (ap (load_parameters params after) defaults) opened
            (ap
              (λ o. o >>= (λ address.
                some (address, spawn env pair.name (peers committee pair.name) byzantine rng seed)))
              (listen_address_member localhost committee pair.name authority member)),
        refl,
        refl,
        refl,
        peers-address_in committee pair.name,
        (refl, refl, refl, refl),
      )
