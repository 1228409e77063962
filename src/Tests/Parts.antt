-- ===== src/Tests/Parts.antt =====
-- The configuration, the store and the network on concrete inputs.
use nero_consensus.Prelude.{
  ℕ, ◌+◌, ◌≡◌, refl, true, false, List, [], ◌∷◌, if◌then◌else◌, ◌==◌, nat_eq, list_eq, list_beq_iff,
  arith, ap,
}
use nero_consensus.Prelude.Map.{Map, get, insert, delete}
use nero_consensus.Prelude.Map
use nero_consensus.Prelude.Sets
use nero_consensus.Crypto.{PublicKey}
use nero_consensus.Network.Address.{Bytes}
use nero_consensus.Config
use nero_consensus.Prelude.Result.{ok}
use nero_consensus.Config.{
  Authority, Committee, PrimaryAddresses, u32, total_stake, sum_stakes, quorum_threshold,
  validity_threshold, others_stake, stake, others_primaries, primary,
}
use nero_consensus.Config.Members.{add_up, others_stake-stake, others_primaries-primary}
use nero_consensus.Config.Thresholds.{thresholds_lem}
use nero_consensus.Store
use nero_consensus.Store.{
  Database, IsFaithful, Store, StoreCommand, write, read, notify_read, Reply, notify_reply,
  run_write, run_command, run_commands, notify_reply, StoreResult,
}
use nero_consensus.Store.Obligations.{
  Sent, waiting, WaitsForAbsent, run_write-waiting, run_command-WaitsForAbsent, notify_read-Sent,
}

abbrev member : ℕ → ℕ → PublicKey × Authority
member name weight = (
  name,
  record {
    stake = weight;
    primary = record { transactions = record { ip = name; port = 80 } };
    byzantine = false;
  },
)

-- A total of 6 = 3 * 1 + 1 + 2.
abbrev committee : Committee
committee = record { authorities = member 1 2 ∷ member 2 1 ∷ member 3 3 ∷ [] }

thresholds_lem_example :
    (quorum_threshold committee + 1 ≡ total_stake committee) × (validity_threshold committee ≡ 2)
unfolding total_stake Config.add_stakes
thresholds_lem_example = thresholds_lem committee 1 2 (omega arith) refl (omega arith)

others_stake-stake_example :
    u32 (add_up (others_stake committee 3) + stake committee 3) ≡ total_stake committee
unfolding Sets.contains
others_stake-stake_example = others_stake-stake committee 3 (refl, (refl, (refl, tt)))

others_primaries-primary_example : primary committee 2 ≡ ok (member 2 1).1.primary
unfolding others_primaries Map.get
others_primaries-primary_example =
    (others_primaries-primary committee 2 2 (member 2 1).1.primary).0 refl

-- A database in memory.
abbrev pub memory : Database
memory = record {
  Db = Map Bytes Bytes;
  put = λ k v db. (insert k v db, true);
  lookup = λ k db. Store.StoreResult.ok (get k db);
}

pub memory-IsFaithful : IsFaithful memory
memory-IsFaithful = record {
  lookup-put = λ k v db done. ap Store.StoreResult.ok (Map.get-insert_self k v db);
  lookup-put_ne = λ k j v db other. rw (Map.get-insert k j v db, other);
}

abbrev pub stored : Store memory
stored = record {
  db = ((1 ∷ []), (5 ∷ [])) ∷ [];
  obligations = ((2 ∷ []), (40 ∷ 41 ∷ [])) ∷ [];
  replies = [];
}

run_write-waiting_example :
    ((run_write memory stored (2 ∷ []) (9 ∷ [])).replies
      ≡ (40, notify_reply (StoreResult.ok (9 ∷ [])))
        ∷ (41, notify_reply (StoreResult.ok (9 ∷ [])))
        ∷ [])
    × ((j : Bytes)
        → waiting memory j (run_write memory stored (2 ∷ []) (9 ∷ []))
          ≡ (if (2 ∷ []) == j then [] else waiting memory j stored))
unfolding Map.get
run_write-waiting_example = run_write-waiting memory stored (2 ∷ []) (9 ∷ [])

stored-WaitsForAbsent : WaitsForAbsent memory stored
unfolding Map.get
stored-WaitsForAbsent key = ground (arith, list_beq_iff (2 ∷ []) key)

run_command-WaitsForAbsent_example :
    WaitsForAbsent memory (run_command memory stored (write (2 ∷ []) (9 ∷ [])))
run_command-WaitsForAbsent_example =
    run_command-WaitsForAbsent memory memory-IsFaithful stored (write (2 ∷ []) (9 ∷ []))
      stored-WaitsForAbsent

abbrev pub between : List StoreCommand
between = write (4 ∷ []) (6 ∷ []) ∷ read (3 ∷ []) 43 ∷ []

notify_read-Sent_example :
    Sent
      (42, notify_reply (Store.StoreResult.ok (8 ∷ [])))
      (run_command memory
        (run_commands memory (run_command memory stored (notify_read (3 ∷ []) 42)) between)
        (write (3 ∷ []) (8 ∷ []))).replies
unfolding Map.get
notify_read-Sent_example =
    notify_read-Sent memory stored (3 ∷ []) (8 ∷ []) 42 between refl (refl, (tt, tt))
