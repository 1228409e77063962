-- ===== src/Store.antt =====
-- store/src/lib.rs: the task behind a `Store`, which owns the database and takes one command at a
-- time from its channel.
pub mod Obligations
pub mod Refinement
use nero_consensus.Prelude.{
  ℕ, ◌≡◌, Bool, true, Option, none, some, List, [], ◌∷◌, ◌++◌, map, ◌==◌, list_eq, if◌then◌else◌,
  unwrap_or,
}
use nero_consensus.Prelude.Map.{Map, get, insert, delete}
use nero_consensus.Network.Address.{Bytes}

-- A oneshot sender, by its number.
abbrev pub Sender : Type 0
Sender = ℕ

-- `StoreResult` over an abstract `rocksdb::Error`.
pub data StoreResult {ℓ} (A : Type ℓ) : Type ℓ where
  ok : A → StoreResult A
  db_error : StoreResult A

-- `rocksdb::DB`: `put` says whether it succeeded.
pub record Database : Type 1 where
  pub Db : Type 0
  pub put : Bytes → Bytes → Db → Db × Bool
  pub lookup : Bytes → Db → StoreResult (Option Bytes)

-- What its documentation promises of a key that was written, and of the others.
pub record IsFaithful (d : Database) : Type 0 where
  pub lookup-put :
      (k v : Bytes) (db : d.Db)
      → (d.put k v db).1 ≡ true
      → d.lookup k (d.put k v db).0 ≡ ok (some v)
  pub lookup-put_ne :
      (k j v : Bytes) (db : d.Db)
      → (k == j) ≡ Bool.false
      → d.lookup j (d.put k v db).0 ≡ d.lookup j db

pub data StoreCommand : Type 0 where
  write : Bytes → Bytes → StoreCommand
  read : Bytes → Sender → StoreCommand
  notify_read : Bytes → Sender → StoreCommand

pub data Reply : Type 0 where
  read_reply : StoreResult (Option Bytes) → Reply
  notify_reply : StoreResult Bytes → Reply

module _ (d : Database) where
  -- The replies are those sent so far, the oldest first.
  pub record Store : Type 0 where
    pub db : d.Db
    pub obligations : Map Bytes (List Sender)
    pub replies : List (Sender × Reply)

  -- `while let Some(s) = senders.pop_front()`
  unfoldable pub notify_all : Bytes → List Sender → List (Sender × Reply)
  notify_all value [] = []
  notify_all value (s ∷ senders) = (s, notify_reply (ok value)) ∷ notify_all value senders

  unfoldable pub run_write : Store → Bytes → Bytes → Store
  unfolding notify_all get delete
  run_write s key value =
      let s1 = record s { db = (d.put key value s.db).0 } in
      elim (get key s.obligations) [
        | none ↦ s1
        | some senders ↦ record s1 {
          obligations = delete key s.obligations;
          replies = s.replies ++ notify_all value senders;
        }
      ]

  unfoldable pub run_read : Store → Bytes → Sender → Store
  run_read s key sender = record s {
    replies = s.replies ++ (sender, read_reply (d.lookup key s.db)) ∷ [];
  }

  unfoldable pub run_notify_read : Store → Bytes → Sender → Store
  unfolding get insert
  run_notify_read s key sender = elim (d.lookup key s.db) [
    | ok found ↦ elim found [
      | none ↦ record s {
        obligations =
            insert key (unwrap_or (get key s.obligations) [] ++ sender ∷ []) s.obligations;
      }
      | some value ↦ record s { replies = s.replies ++ (sender, notify_reply (ok value)) ∷ [] }
    ]
    | db_error ↦ record s { replies = s.replies ++ (sender, notify_reply db_error) ∷ [] }
  ]

  -- One turn of the loop of the task.
  unfoldable pub run_command : Store → StoreCommand → Store
  unfolding run_write run_read run_notify_read
  run_command s (write key value) = run_write s key value
  run_command s (read key sender) = run_read s key sender
  run_command s (notify_read key sender) = run_notify_read s key sender

  unfoldable pub run_commands : Store → List StoreCommand → Store
  unfolding run_command
  run_commands s [] = s
  run_commands s (c ∷ commands) = run_commands (run_command s c) commands
