-- ===== src/Tests.antt =====
-- Runs on concrete inputs, and each result at an input that meets its conditions.
mod Dht
mod Holepunch
mod Transport
mod Swarm
mod Parties
mod Shaken
mod Lookup
mod Concurrent
mod Examples
mod Codes
mod Wire
mod Discovery
