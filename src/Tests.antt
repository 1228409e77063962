-- ===== src/Tests.antt =====
-- Concrete runs of the code that the other modules model, and the theorems applied to them.
pub mod Nodes
pub mod Concord
pub mod Networks
pub mod Outcomes
pub mod Wires
pub mod Votes
pub mod Parts
pub mod Keys
pub mod Binaries
pub mod Files
pub mod Links
pub mod Instances
