-- ===== src/Primary.antt =====
-- primary/src: the consensus node.
pub mod General
pub mod Vote
pub mod Election
pub mod Message
pub mod Dispatch
pub mod Spawn
pub mod Core
