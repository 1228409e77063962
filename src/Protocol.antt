-- ===== src/Protocol.antt =====
-- Four nodes at once, honest or byzantine: what the votes that the honest ones accept, round after round, come to.
pub mod Phases
pub mod Counts
pub mod Shares
pub mod Network
pub mod Members
pub mod Votes
pub mod Steps
pub mod Stages
pub mod Decisions
pub mod Validity
pub mod Liveness
pub mod Delivery
