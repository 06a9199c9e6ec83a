-- ===== src/Dht/Topics.antt =====
-- crates/hyperswarm-rs/src/dht.rs: `announce` and `lookup`, and the two calls that do nothing yet.
pub mod Bootstrap
pub mod Announce
pub mod Lookup
pub mod Collects
pub mod Total
use hyperswarm.Base.{ℕ, Option, none, some, List, [], ◌∷◌, ◌++◌, if◌then◌else◌, is_empty}
use hyperswarm.Net.{Result, ok, err, M, ◌>>=◌, ◌>>◌, pure, get_self, attempt}
use hyperswarm.Protocol.{Bencode}
use hyperswarm.Dht.Table.{NodeInfo, get_nodes}
use hyperswarm.Dht.Compact.{PeerAddress}
use hyperswarm.Dht.Client.{DhtError, DhtClient}
use hyperswarm.Dht.Query.{get_peers, announce_peer, bootstrap}

abbrev pub nodes_per_topic : ℕ
nodes_per_topic = 10

abbrev pub topic_nodes : DhtClient → List NodeInfo
topic_nodes c = get_nodes c.routing_table nodes_per_topic

abbrev pub found_peers :
    {Err : Type 0} → Result Err (List PeerAddress × Option (List ℕ)) → List PeerAddress
found_peers (ok (peers, _)) = peers
found_peers (err _) = []

module _ {E : Type 0} (codec : Bencode) where
  -- "If routing table is empty, bootstrap first"
  unfoldable pub bootstrap_if_empty : M E DhtClient (DhtError E) (Unit {0})
  bootstrap_if_empty = do
    client ← get_self
    if is_empty (topic_nodes client) then bootstrap codec else pure tt

  -- A node that gave a token is announced to, and a failure of that is dropped.
  unfoldable pub announce_with :
      NodeInfo
      → List ℕ
      → ℕ
      → Result (DhtError E) (List PeerAddress × Option (List ℕ))
      → M E DhtClient (DhtError E) (Unit {0})
  announce_with node info_hash port (ok (_, some token)) = do
    _ ← attempt {Err' = DhtError E} (announce_peer codec node.addr info_hash port token)
    pure tt
  announce_with node info_hash port _ = pure tt

  unfoldable pub announce_to : List NodeInfo → List ℕ → ℕ → M E DhtClient (DhtError E) (Unit {0})
  announce_to [] info_hash port = pure tt
  announce_to (node ∷ nodes) info_hash port = do
    found ← attempt (get_peers codec node.addr info_hash)
    announce_with node info_hash port found
    announce_to nodes info_hash port

  unfoldable pub announce : List ℕ → ℕ → M E DhtClient (DhtError E) (Unit {0})
  announce topic port = do
    bootstrap_if_empty
    client ← get_self
    announce_to (topic_nodes client) topic port

  unfoldable pub gather :
      List NodeInfo → List ℕ → List PeerAddress → M E DhtClient (DhtError E) (List PeerAddress)
  gather [] info_hash all_peers = pure all_peers
  gather (node ∷ nodes) info_hash all_peers = do
    found ← attempt {Err' = DhtError E} (get_peers codec node.addr info_hash)
    gather nodes info_hash (all_peers ++ found_peers found)

  unfoldable pub lookup : List ℕ → M E DhtClient (DhtError E) (List PeerAddress)
  lookup topic = do bootstrap_if_empty; client ← get_self; gather (topic_nodes client) topic []

module _ {E : Type 0} where
  unfoldable pub flush : M E DhtClient (DhtError E) (Unit {0})
  flush = pure tt

  unfoldable pub shutdown : M E DhtClient (DhtError E) (Unit {0})
  shutdown = pure tt
