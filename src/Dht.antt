-- ===== src/Dht.antt =====
-- crates/hyperswarm-rs/src/dht.rs: the DHT client.
pub mod Table
pub mod Compact
pub mod Client
pub mod Query
pub mod Topics
pub mod Concurrent
pub mod Evolution
pub mod Deaf
