-- ===== src/Primary/Core.antt =====
-- primary/src/core.rs, `Core`: the state machine of a node, and what holds of every run of it.
pub mod State
pub mod Validate
pub mod Handlers
pub mod Byzantine
pub mod Loads
pub mod Rounds
pub mod Invariant
pub mod Steps
pub mod Runs
pub mod Decided
pub mod Panics
pub mod Safety
pub mod EveryRound
pub mod Tallied
pub mod Counted
pub mod Agreement
pub mod Views
pub mod Concord
pub mod Acceptance
pub mod Honest
pub mod Outbox
