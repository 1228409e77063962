-- ===== src/Store/Obligations.antt =====
-- The reads that wait for a key to be written.
use mathlib.Core.List.{append-nil}
use nero_consensus.Prelude.{
  refl, ap, map, ◌≡◌, ◌⊎◌, inl, inr, true, false, none, List, [], ◌∷◌, ◌++◌, arith, ◌==◌, list_eq,
  nat_eq, if◌then◌else◌, unwrap_or, Bool-cases, Option-cases, subst, sym, list_beq_iff, All,
}
use nero_consensus.Prelude.Map.{get, get-insert, get-insert_self, get-delete}
use nero_consensus.Prelude.Sets.{contains, contains-append}
use nero_consensus.Network.Address.{Bytes}
use nero_consensus.Store.{
  Sender, ok, Database, IsFaithful, StoreCommand, write, read, notify_read, Reply, notify_reply,
  Store, notify_all, run_write, run_notify_read, run_command, run_commands,
}

-- The reply is in the list.
abbrev pub Sent : Sender × Reply → List (Sender × Reply) → Type 0
Sent r [] = ⊥
Sent r (x ∷ xs) = (r ≡ x) ⊎ Sent r xs

Sent-append : (r : Sender × Reply) (xs ys : List (Sender × Reply)) → Sent r ys → Sent r (xs ++ ys)
Sent-append r [] ys h = h
Sent-append r (x ∷ xs) ys h = inr (Sent-append r xs ys h)

replies-Sent :
    (value : Bytes) (sender : Sender) (senders : List Sender)
    → contains sender senders ≡ true
    → Sent (sender, notify_reply (ok value)) (map (λ w. (w, notify_reply (ok value))) senders)
unfolding contains
replies-Sent value sender [] h = absurd (ground arith)
replies-Sent value sender (s ∷ senders) h = elim (Bool-cases (s == sender)) [
  | inl same ↦ inl (ground arith)
  | inr other ↦ inr (replies-Sent value sender senders (ground arith))
]

notify_all-map :
    (d : Database) (value : Bytes) (senders : List Sender)
    → notify_all d value senders ≡ map (λ sender. (sender, notify_reply (ok value))) senders
unfolding notify_all
notify_all-map d value [] = refl
notify_all-map d value (s ∷ senders) =
    ap (λ replies. (s, notify_reply (ok value)) ∷ replies) (notify_all-map d value senders)

module _ (d : Database) where
  -- Who waits for a key, the first to come first.
  abbrev pub waiting : Bytes → Store d → List Sender
  waiting key s = unwrap_or (get key s.obligations) []

  -- A write sends its value to each of those who wait for its key, in the order in which they came;
  -- afterwards nobody waits for that key, and those who wait for another still do.
  pub run_write-waiting :
      (s : Store d) (key value : Bytes)
      → ((run_write d s key value).replies
          ≡ s.replies ++ map (λ sender. (sender, notify_reply (ok value))) (waiting key s))
        × ((j : Bytes)
            → waiting j (run_write d s key value) ≡ (if key == j then [] else waiting j s))
  unfolding run_write notify_all
  run_write-waiting s key value = elim (Option-cases (get key s.obligations)) [
    | inl nobody ↦ (
      rw (nobody, run_write) (sym (append-nil s.replies)),
      λ j. ground (arith, list_beq_iff key j),
    )
    | inr (senders, found) ↦ (
      rw (found, run_write) (ap (λ r. s.replies ++ r) (notify_all-map d value senders)),
      λ j. ground (arith, get-delete key j s.obligations),
    )
  ]

  pub run_write-db :
      (s : Store d) (key value : Bytes) → (run_write d s key value).db ≡ (d.put key value s.db).0
  unfolding run_write
  run_write-db s key value = ground arith

  notify_read-waiting :
      (s : Store d) (key : Bytes) (sender : Sender) (j : Bytes)
      → ((waiting j (run_notify_read d s key sender) ≡ waiting j s)
          × ((run_notify_read d s key sender).db ≡ s.db))
        ⊎ ((key ≡ j)
            × (d.lookup key s.db ≡ ok none)
            × ((run_notify_read d s key sender).db ≡ s.db)
            × (waiting j (run_notify_read d s key sender) ≡ waiting j s ++ sender ∷ []))
  unfolding run_notify_read
  notify_read-waiting s key sender j = ground (
    arith,
    get-insert key j (unwrap_or (get key s.obligations) [] ++ sender ∷ []) s.obligations,
    list_beq_iff key j,
  )

  -- Only a key with no value has reads waiting for it.
  abbrev pub WaitsForAbsent : Store d → Type 0
  WaitsForAbsent s = (key : Bytes) → (waiting key s ≡ []) ⊎ (d.lookup key s.db ≡ ok none)

  module _ (faithful : IsFaithful d) where
    -- Every command keeps reads waiting for keys with no value only.
    pub run_command-WaitsForAbsent :
        (s : Store d) (c : StoreCommand) → WaitsForAbsent s → WaitsForAbsent (run_command d s c)
    unfolding run_command
    run_command-WaitsForAbsent s (write key value) w j = ground (
      arith,
      (run_write-waiting s key value).1 j,
      run_write-db s key value,
      faithful.lookup-put_ne key j value s.db,
      w j,
    )
    run_command-WaitsForAbsent s (read key sender) w j = w j
    run_command-WaitsForAbsent s (notify_read key sender) w j =
        ground (arith, notify_read-waiting s key sender j, w j)

  -- The command is no write of the key.
  abbrev pub Spares : Bytes → StoreCommand → Type 0
  Spares key (write k value) = (k == key) ≡ false
  Spares key (read k sender) = Unit {0}
  Spares key (notify_read k sender) = Unit {0}

  waits-run_command :
      (s : Store d) (c : StoreCommand) (key : Bytes) (sender : Sender)
      → Spares key c
      → contains sender (waiting key s) ≡ true
      → contains sender (waiting key (run_command d s c)) ≡ true
  unfolding run_command
  waits-run_command s (write k value) key sender spares h =
      ground (arith, (run_write-waiting s k value).1 key)
  waits-run_command s (read k other) key sender spares h = h
  waits-run_command s (notify_read k other) key sender spares h = ground (
    arith,
    notify_read-waiting s k other key,
    contains-append sender (waiting key s) (other ∷ []),
  )

  waits-run_commands :
      (s : Store d) (commands : List StoreCommand) (key : Bytes) (sender : Sender)
      → All (Spares key) commands
      → contains sender (waiting key s) ≡ true
      → contains sender (waiting key (run_commands d s commands)) ≡ true
  unfolding run_commands
  waits-run_commands s [] key sender spares h = h
  waits-run_commands s (c ∷ commands) key sender spares h =
      waits-run_commands (run_command d s c) commands key sender spares.1
        (waits-run_command s c key sender spares.0 h)

  waits-notify_read :
      (s : Store d) (key : Bytes) (sender : Sender)
      → d.lookup key s.db ≡ ok none
      → contains sender (waiting key (run_notify_read d s key sender)) ≡ true
  unfolding run_notify_read contains
  waits-notify_read s key sender absent = ground (
    arith,
    get-insert_self key (unwrap_or (get key s.obligations) [] ++ sender ∷ []) s.obligations,
    contains-append sender (waiting key s) (sender ∷ []),
  )

  -- A `notify_read` of a key with no value is answered by the first write of that key, with the
  -- value written, whatever other commands come between.
  pub notify_read-Sent :
      (s : Store d) (key value : Bytes) (sender : Sender) (between : List StoreCommand)
      → d.lookup key s.db ≡ ok none
      → All (Spares key) between
      → Sent
          (sender, notify_reply (ok value))
          (run_command d
            (run_commands d (run_command d s (notify_read key sender)) between)
            (write key value)).replies
  unfolding run_command
  notify_read-Sent s key value sender between absent spares =
      let s1 = run_notify_read d s key sender in
      let s2 = run_commands d s1 between in
      subst (Sent (sender, notify_reply (ok value))) (sym (run_write-waiting s2 key value).0) (
        Sent-append (sender, notify_reply (ok value)) s2.replies
          (map (λ w. (w, notify_reply (ok value))) (waiting key s2))
          (replies-Sent value sender (waiting key s2) (
            waits-run_commands s1 between key sender spares
              (waits-notify_read s key sender absent))))
