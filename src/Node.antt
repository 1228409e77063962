-- ===== src/Node.antt =====
-- node/src: the binaries around a primary.
pub mod Client
pub mod Boot
