-- ===== src/Store/Refinement.antt =====
-- What a `Store` promises its clients, without the database and the table of obligations: a map
-- from keys to values, and the reads that wait for each key.
use nero_consensus.Prelude.{
  ◌≡◌, refl, subst, ap, ◌∙◌, inl, inr, true, Option, none, some, List, [], ◌∷◌, ◌++◌, map, arith,
  ◌==◌, list_eq, if◌then◌else◌, Bool-cases, Option-cases, eq_of_beq, unwrap_or,
}
use nero_consensus.Prelude.Map.{get, insert, get-insert}
use nero_consensus.Network.Address.{Bytes}
use nero_consensus.Store.{
  Sender, ok, Database, IsFaithful, StoreCommand, write, read, notify_read, Reply, read_reply,
  notify_reply, Store, run_write, run_read, run_notify_read, run_command, run_commands,
}
use nero_consensus.Store.Obligations.{waiting, run_write-waiting, run_write-db}

pub record Abstract : Type 0 where
  pub contents : Bytes → Option Bytes
  pub waiters : Bytes → List Sender
  pub sent : List (Sender × Reply)

-- A function with another value at one point.
abbrev pub update {ℓ} : {A : Type ℓ} → Bytes → A → (Bytes → A) → Bytes → A
update k a f j = if k == j then a else f j

-- What each command does.
unfoldable pub act : Abstract → StoreCommand → Abstract
act a (write key value) = record {
  contents = update key (some value) a.contents;
  waiters = update key [] a.waiters;
  sent = a.sent ++ map (λ s. (s, notify_reply (ok value))) (a.waiters key);
}
act a (read key sender) = record a {
  sent = a.sent ++ (sender, read_reply (ok (a.contents key))) ∷ [];
}
act a (notify_read key sender) = elim (a.contents key) [
  | none ↦ record a { waiters = update key (a.waiters key ++ sender ∷ []) a.waiters }
  | some value ↦ record a { sent = a.sent ++ (sender, notify_reply (ok value)) ∷ [] }
]

unfoldable pub act_all : Abstract → List StoreCommand → Abstract
act_all a [] = a
act_all a (c ∷ commands) = act_all (act a c) commands

act_absent :
    (a : Abstract) (key : Bytes) (sender : Sender)
    → a.contents key ≡ none
    → act a (notify_read key sender)
      ≡ record a { waiters = update key (a.waiters key ++ sender ∷ []) a.waiters }
unfolding act
act_absent a key sender h = rw (h, act) refl

act_present :
    (a : Abstract) (key value : Bytes) (sender : Sender)
    → a.contents key ≡ some value
    → act a (notify_read key sender)
      ≡ record a { sent = a.sent ++ (sender, notify_reply (ok value)) ∷ [] }
unfolding act
act_present a key value sender h = rw (h, act) refl

-- The store behaves as this map and these waiting reads, and has sent the same replies.
pub record Refines (d : Database) (s : Store d) (a : Abstract) : Type 0 where
  pub holds : (key : Bytes) → d.lookup key s.db ≡ ok (a.contents key)
  pub waits : (key : Bytes) → waiting d key s ≡ a.waiters key
  pub told : s.replies ≡ a.sent

-- No write fails.
abbrev pub Works : Database → Type 0
Works d = (key value : Bytes) (db : d.Db) → (d.put key value db).1 ≡ true

module _ (d : Database) (faithful : IsFaithful d) (works : Works d) where
  write-Refines :
      (s : Store d) (a : Abstract) (key value : Bytes)
      → Refines d s a
      → Refines d (run_write d s key value) (act a (write key value))
  unfolding act
  write-Refines s a key value r =
      let (answered, left) = run_write-waiting d s key value in
      record {
        holds = λ j. elim (Bool-cases (key == j)) [
          | inl same ↦ rw same (
              ap (λ db. d.lookup j db) (run_write-db d s key value)
              ∙ subst (λ k. d.lookup k (d.put key value s.db).0 ≡ ok (some value))
                  (eq_of_beq key j same)
                  (faithful.lookup-put key value s.db (works key value s.db)))
          | inr other ↦ rw other (
              ap (λ db. d.lookup j db) (run_write-db d s key value)
              ∙ faithful.lookup-put_ne key j value s.db other
              ∙ r.holds j)
        ];
        waits = λ j. left j ∙ ap (λ senders. if key == j then [] else senders) (r.waits j);
        told =
            answered
            ∙ ap (λ sent. sent ++ map (λ w. (w, notify_reply (ok value))) (waiting d key s)) r.told
            ∙ ap (λ senders. a.sent ++ map (λ w. (w, notify_reply (ok value))) senders)
                (r.waits key);
      }

  notify_read_absent :
      (s : Store d) (key : Bytes) (sender : Sender)
      → d.lookup key s.db ≡ ok none
      → run_notify_read d s key sender
        ≡ record s { obligations = insert key (waiting d key s ++ sender ∷ []) s.obligations }
  unfolding run_notify_read
  notify_read_absent s key sender h = ground arith

  notify_read_present :
      (s : Store d) (key value : Bytes) (sender : Sender)
      → d.lookup key s.db ≡ ok (some value)
      → run_notify_read d s key sender
        ≡ record s { replies = s.replies ++ (sender, notify_reply (ok value)) ∷ [] }
  unfolding run_notify_read
  notify_read_present s key value sender h = ground arith

  -- The read joins those that wait for its key.
  joins :
      (s : Store d) (a : Abstract) (key j : Bytes) (sender : Sender)
      → Refines d s a
      → unwrap_or
          (if key == j then some (waiting d key s ++ sender ∷ []) else get j s.obligations)
          []
        ≡ update key (a.waiters key ++ sender ∷ []) a.waiters j
  joins s a key j sender r = elim (Bool-cases (key == j)) [
    | inl same ↦ rw same (ap (λ senders. senders ++ sender ∷ []) (r.waits key))
    | inr other ↦ rw other (r.waits j)
  ]

  notify_read-Refines :
      (s : Store d) (a : Abstract) (key : Bytes) (sender : Sender)
      → Refines d s a
      → Refines d (run_notify_read d s key sender) (act a (notify_read key sender))
  notify_read-Refines s a key sender r = elim (Option-cases (a.contents key)) [
    | inl absent ↦
        rw
          (
            notify_read_absent s key sender (r.holds key ∙ ap ok absent),
            act_absent a key sender absent,
          )
          (record {
            holds = r.holds;
            waits = λ j.
                rw (get-insert key j (waiting d key s ++ sender ∷ []) s.obligations)
                  (joins s a key j sender r);
            told = r.told;
          })
    | inr (value, present) ↦
        rw
          (
            notify_read_present s key value sender (r.holds key ∙ ap ok present),
            act_present a key value sender present,
          )
          (record {
            holds = r.holds;
            waits = r.waits;
            told = ap (λ sent. sent ++ (sender, notify_reply (ok value)) ∷ []) r.told;
          })
  ]

  command-Refines :
      (s : Store d) (a : Abstract) (c : StoreCommand)
      → Refines d s a
      → Refines d (run_command d s c) (act a c)
  unfolding run_command act run_read
  command-Refines s a (write key value) r = write-Refines s a key value r
  command-Refines s a (read key sender) r = record {
    holds = r.holds;
    waits = r.waits;
    told = rw (r.holds key, r.told) refl;
  }
  command-Refines s a (notify_read key sender) r = notify_read-Refines s a key sender r

  -- Whatever commands the store receives, it sends the replies that a plain map with lists of
  -- waiting reads sends, and in the same order, and goes on to behave as that map does, as long as
  -- the map starts with what the store holds, the database keeps what is written, and no write
  -- fails.
  pub run_commands-Refines :
      (s : Store d) (a : Abstract) (commands : List StoreCommand)
      → Refines d s a
      → Refines d (run_commands d s commands) (act_all a commands)
  unfolding run_commands act_all
  run_commands-Refines s a [] r = r
  run_commands-Refines s a (c ∷ commands) r =
      run_commands-Refines (run_command d s c) (act a c) commands (command-Refines s a c r)
