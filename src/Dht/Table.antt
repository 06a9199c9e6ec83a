-- ===== src/Dht/Table.antt =====
-- crates/hyperswarm-rs/src/dht.rs: `NodeInfo` and `RoutingTable`. A node id has 20 bytes.
pub mod Window
use hyperswarm.Base.{ℕ, List, [], ◌∷◌, ◌++◌, ltb, if◌then◌else◌, length, take, drop}
use hyperswarm.Net.{SocketAddr}

pub record NodeInfo : Type 0 where
  pub node_id : List ℕ
  pub addr : SocketAddr

pub record RoutingTable : Type 0 where
  pub nodes : List NodeInfo

abbrev pub max_routing_table_size : ℕ
max_routing_table_size = 100

-- `RoutingTable::new()`.
abbrev pub new_table : RoutingTable
new_table = record { nodes = [] }

-- `nodes.remove(0)`.
abbrev pub evict : List NodeInfo → List NodeInfo
evict nodes = if ltb max_routing_table_size (length nodes) then drop 1 nodes else nodes

unfoldable pub add_node : List ℕ → SocketAddr → RoutingTable → RoutingTable
add_node node_id addr rt = record {
  nodes = evict (rt.nodes ++ (record { node_id = node_id; addr = addr } ∷ []));
}

unfoldable pub get_nodes : RoutingTable → ℕ → List NodeInfo
get_nodes rt count = take count rt.nodes
