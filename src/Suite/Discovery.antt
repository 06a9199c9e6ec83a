-- ===== src/Suite/Discovery.antt =====
-- crates/hyperswarm-rs/tests/dht_discovery.rs: two clients that have one another in their tables,
-- each with a socket of its own.
pub mod Waits
pub mod Passes
use hyperswarm.Base.{
  ℕ, ◌+◌, Bool, true, false, not, ◌&&◌, ◌||◌, Option, none, List, [], ◌∷◌, ◌++◌, is_empty,
  if◌then◌else◌,
}
use hyperswarm.Net.{World, Event, datagram, SocketAddr, same_addr, Result, timeout}
use hyperswarm.Net.Zoom.{with_self}
use hyperswarm.Protocol.{Bencode, map_error}
use hyperswarm.Dht.Client.{DhtError, io, DhtClient, new_client, add_node_to_routing_table}
use hyperswarm.Dht.Topics.{announce, lookup}
use hyperswarm.Discovery.{Topic}
use hyperswarm.Swarm.{from_key}
use hyperswarm.Suite.{unwrap, unwrap_some, is_ok, awaited, in_time}
use hyperswarm.Suite.Dht.{empty_config}

-- b"test-localhost-discovery"
abbrev pub discovery_key : List ℕ
discovery_key =
    b't' ∷ b'e' ∷ b's' ∷ b't' ∷ b'-' ∷ b'l' ∷ b'o' ∷ b'c' ∷ b'a' ∷ b'l' ∷ b'h' ∷ b'o' ∷ b's' ∷ b't'
    ∷ b'-' ∷ b'd' ∷ b'i' ∷ b's' ∷ b'c' ∷ b'o' ∷ b'v' ∷ b'e' ∷ b'r' ∷ b'y' ∷ []

-- `DhtClient::local_addr`, with what the socket says given.
abbrev client_addr : {E : Type 0} → Result E SocketAddr → Result (DhtError E) SocketAddr
client_addr bound = map_error io bound

module _ {E : Type 0} where
  -- What one socket has sent to another, as that one sees it.
  abbrev pub delivered :
      SocketAddr → SocketAddr → ℕ → List (SocketAddr × List ℕ) → List (ℕ × Event E)
  delivered from to time [] = []
  delivered from to time ((addr, bytes) ∷ sent) =
      let before = delivered from to time sent in
      if same_addr addr to then before ++ ((time, datagram from bytes) ∷ []) else before

  -- The second socket, a tenth of a second later. Nothing else has come to it.
  abbrev pub second_socket :
      {S : Type 0} → SocketAddr → SocketAddr → DhtClient → World E S → World E DhtClient
  second_socket addr1 addr2 client2 after = record {
    now = after.now + 100;
    limit = none;
    inbox = delivered addr1 addr2 after.now after.sent;
    sends = [];
    sent = [];
    dns = after.dns;
    ties = after.ties;
    self = client2;
  }

-- The random ids, the bindings and addresses of the two sockets, and the first socket.
module _ {E : Type 0} (codec : Bencode) (blake2b512 : List ℕ → List ℕ)
    (bind1 bind2 : ℕ → Result E (Unit {0})) (id1 id2 : List ℕ) (bound1 bound2 : Result E SocketAddr)
    (w : World E (Unit {0})) where
  unfoldable pub test_two_node_localhost_discovery : Bool
  test_two_node_localhost_discovery = unwrap (new_client bind1 id1 empty_config) λ client1.
      unwrap (new_client bind2 id2 empty_config) λ client2. unwrap (client_addr bound1) λ addr1.
        unwrap (client_addr bound2) λ addr2.
          unwrap_some (from_key blake2b512 discovery_key) λ topic.
            let known1 = add_node_to_routing_table client2.node_id addr2 client1 in
            let known2 = add_node_to_routing_table client1.node_id addr1 client2 in
            awaited (announce codec topic.bytes addr1.port (with_self known1 w)) λ announced after.
              is_ok announced
              && in_time
                  (timeout {Err' = DhtError E} 2000 (lookup codec topic.bytes)
                    (second_socket addr1 addr2 known2 after))
                  λ found. unwrap found λ peers. not (is_empty peers) || is_ok announced
