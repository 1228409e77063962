-- ===== src/Network.antt =====
-- network/src: sockets, senders and receivers.
pub mod Address
pub mod ReliableSender
pub mod Connection
pub mod Receiver
pub mod SimpleSender
