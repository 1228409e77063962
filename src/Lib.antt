-- ===== src/Lib.antt =====
-- Nero: a node of a leaderless Byzantine agreement on transactions, one binary election for each, as in
-- the Rust workspace of this repository.
--
-- The parts and how they interact. A client's transactions and the votes of the other nodes arrive at the
-- network receiver of a primary, which forwards them to the core. The core keeps an election for each
-- transaction: it votes in rounds, and the vote of a round carries the hashes of a quorum of the votes of
-- the round before as its proof. Votes go out through the reliable sender, which keeps one connection for
-- each address. The configuration says who is in the committee. A store and a simulation of the agreement
-- stand beside them.
--
-- Which file models what:
--   Primary/General.antt       primary/src/general.rs, the constants
--   Primary/Vote.antt          primary/src/vote.rs: votes, decisions, the digest
--   Primary/Election.antt      primary/src/election.rs: tallies, rounds, elections
--   Primary/Message.antt       primary/src/messages.rs and the messages of general.rs
--   Primary/Core/State.antt    primary/src/core.rs: Core, spawn, broadcast_message
--   Primary/Core/Validate.antt primary/src/core.rs: make_decision, validate_vote
--   Primary/Core/Handlers.antt primary/src/core.rs: handle_transaction, handle_vote,
--                              validate_pending_votes, run
--   Config.antt                config/src/lib.rs
--   Store.antt                 store/src/lib.rs
--   Network/ReliableSender.antt, Network/Connection.antt
--                              network/src/reliable_sender.rs
--   Simulation.antt, Simulation/Turn.antt, Simulation/Instances.antt
--                              node/src/consensus.rs
--   Network/SimpleSender.antt  network/src/simple_sender.rs
--   Network/Receiver.antt      network/src/receiver.rs
--   Primary/Dispatch.antt      primary/src/primary.rs
--   Primary/Spawn.antt         primary/src/primary.rs: Primary::spawn
--   Node/Boot.antt             node/src/main.rs: generate_keys and run
--   Node/Client.antt           node/src/benchmark_client.rs: send and wait
--   Primary/Core/Byzantine.antt
--                              primary/src/core.rs: byzantine_votes, on fuel for its inner loop
--   Crypto/Keys.antt, Crypto/Serde.antt, Crypto/Signatures.antt, Crypto/Service.antt
--                              crypto/src/lib.rs: texts of keys, Signature, SignatureService
--   Config/Files.antt          config/src/lib.rs: Import, Export, KeyPair
--   Random.antt, Crypto.antt   the draws of rand, and the types of crypto/src/lib.rs
-- The children of these files hold the proofs: Primary/Core/Invariant, Steps and Runs carry the invariant
-- of a node along its runs, and Decided, Safety, Panics, Agreement and Acceptance draw on it and on the
-- tallies. EveryRound carries a property of all rounds along the runs, for which Tallied and Counted take the count of
-- the votes; Views and Concord compare two nodes that ran. Honest carries what an honest node's own votes rest
-- on, and those it judges valid, along its runs, and Protocol puts four nodes together, any of which may run
-- with byzantine set: Phases and Counts say what a share of the votes of a round leads to, Network and Members
-- which votes the honest nodes hold, Votes and Steps what these follow from, Stages what they come to round
-- after round, Decisions, Validity and Liveness what the honest nodes record, and when. Outbox has what a node puts into its channels, which Protocol/Delivery
-- follows into the core of a peer. Store/Refinement holds the abstract store,
-- Crypto/Verified the laws of signatures, Config/Files/Transfers what becomes of files, and
-- Network/Receiver/Interleaved the runners that take turns. Tests holds concrete runs.
--
-- How state and operations correspond to the code. Core, Election, RoundState, Tally and PrimaryVote are
-- records with the source's fields; a handler takes the state and returns the new one, or none where the
-- code panics. A HashMap or BTreeMap is an association list without repeated keys in the order of insertion.
-- A set of hashes is a sorted list, a set of votes a list without repetition. A digest or key of 32 bytes,
-- or a secret key of 64, is the number that it spells, most significant byte first. The counters of a tally
-- are u64 and wrap, stakes and rounds are u32 and wrap, as in a release build (a debug build panics
-- instead). The task loops (run, keep_alive, the store's task) are functions of the list of what they
-- receive, so their recursion is structural and needs no fuel; the simulation's loop, which need not end, is
-- counted in turns.
--
-- Parameters. sha512 and the serializer are fields of Env. The database is a record with laws (IsFaithful),
-- and so are base64 (IsBase64), the formats of serde (IsFormat), ed25519-dalek (IsDalek) and serde_json
-- (IsJson). shuffle is an argument, and rand is any sequence of draws. Sockets are arguments: which
-- connections and writes succeed, which handlers are closed, what select! yields. The files of std::fs are a
-- map from paths to bytes.
--
-- Not modelled: the fields of Core that no code reads (signature service, committee, batch sizes, counters),
-- the lines that go to the log apart from the one that tells of a broadcast, the capacity of channels,
-- the loss, delay and order of votes on their way between two nodes (Protocol takes any vote from the log
-- of its sender, at any time), nodes that depart from the code in other ways than its byzantine flag does,
-- sleeping and the order in which tokio schedules the tasks of a node, the Display texts of keys, the reading
-- of the command line, the scripts of benchmark, and primary/src/node.rs, which no module names.
pub mod Prelude
pub mod Random
pub mod Crypto
pub mod Network
pub mod Node
pub mod Config
pub mod Store
pub mod Primary
pub mod Protocol
pub mod Simulation
pub mod Tests
