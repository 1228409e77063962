-- ===== src/Crypto.antt =====
-- crypto/src/lib.rs: digests and keys; the children hold what is done with them. A `[u8; 32]` is the number that its bytes
-- spell, most significant first, so that the derived order and equality are those of numbers.
pub mod Keys
pub mod Signatures
pub mod Service
pub mod Verified
pub mod Serde
use nero_consensus.Prelude.{ℕ}

abbrev pub Digest : Type 0
Digest = ℕ

abbrev pub PublicKey : Type 0
PublicKey = ℕ

-- `SecretKey`: 64 bytes, in the same way.
abbrev pub SecretKey : Type 0
SecretKey = ℕ
