-- ===== src/Network/Address.antt =====
-- `std::net::SocketAddr`, and the bytes that travel between sockets.
use nero_consensus.Prelude.{ℕ, ◌≡◌, ◌↔◌, Bool, true, ◌&&◌, arith, PartialEq, ◌==◌, nat_eq}
pub use nero_consensus.Prelude.Bytes.{Bytes}

pub record SocketAddr : Type 0 where
  pub ip : ℕ
  pub port : ℕ

abbrev addr_beq : SocketAddr → SocketAddr → Bool
addr_beq a b = a.ip == b.ip && a.port == b.port

pub addr_beq_iff : (a b : SocketAddr) → (addr_beq a b ≡ true) ↔ (a ≡ b)
addr_beq_iff a b = ground arith

instance abbrev pub addr_eq : PartialEq SocketAddr
addr_eq = record { beq = addr_beq; beq_iff = addr_beq_iff }
