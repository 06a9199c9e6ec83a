-- ===== src/Holepunch.antt =====
-- crates/hyperswarm-rs/src/holepunch.rs: hole punching with authenticated packets.
pub mod Packet
pub mod Session
