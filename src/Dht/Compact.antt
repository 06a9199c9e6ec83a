-- ===== src/Dht/Compact.antt =====
-- crates/hyperswarm-rs/src/dht.rs: the compact formats of BEP 5, as `find_node` and `get_peers`
-- read them. A byte is a number below 256.
pub mod Nodes
pub mod Peers
use hyperswarm.Base.{
  ℕ, zero, suc, ◌+◌, ◌*◌, ◌/◌, ◌%◌, Option, none, some, List, [], ◌∷◌, ◌++◌, if◌then◌else◌, ◌==◌,
  length, take, drop, get_or,
}
use hyperswarm.Net.{IpAddr, v4, v6, SocketAddr}
use hyperswarm.Dht.Table.{NodeInfo}

abbrev pub compact_peer_info_size_ipv4 : ℕ
compact_peer_info_size_ipv4 = 6

abbrev pub compact_peer_info_size_ipv6 : ℕ
compact_peer_info_size_ipv6 = 18

abbrev pub compact_node_info_size : ℕ
compact_node_info_size = 26

pub record PeerAddress : Type 0 where
  pub addr : SocketAddr
  pub node_id : Option (List ℕ)

-- `u16::from_be_bytes` and `u16::to_be_bytes`.
abbrev pub from_be_bytes : ℕ → ℕ → ℕ
from_be_bytes hi lo = hi * 256 + lo

abbrev pub to_be_bytes : ℕ → List ℕ
to_be_bytes n = (n / 256) ∷ (n % 256) ∷ []

-- `bytes[i]`, for an index that a test of the length has shown to be in range.
abbrev byte : List ℕ → ℕ → ℕ
byte bytes i = get_or bytes i 0

-- Four bytes of address and two of port, from index `i` on.
abbrev ipv4_addr : List ℕ → ℕ → SocketAddr
ipv4_addr b i = record {
  ip = v4 (byte b i) (byte b (i + 1)) (byte b (i + 2)) (byte b (i + 3));
  port = from_be_bytes (byte b (i + 4)) (byte b (i + 5));
}

-- `slice::chunks(size)`, by the rounds left. The last chunk may be short.
unfoldable pub chunks : ℕ → ℕ → List ℕ → List (List ℕ)
chunks zero size bytes = []
chunks (suc rounds) size [] = []
chunks (suc rounds) size (b ∷ bytes) =
    take size (b ∷ bytes) ∷ chunks rounds size (drop size (b ∷ bytes))

unfoldable pub parse_chunks : List (List ℕ) → List NodeInfo
parse_chunks [] = []
parse_chunks (chunk ∷ rest) =
    if length chunk == compact_node_info_size
    then record { node_id = take 20 chunk; addr = ipv4_addr chunk 20 } ∷ parse_chunks rest
    else parse_chunks rest

-- The loop of `find_node`. As many rounds as there are bytes are enough.
unfoldable pub parse_nodes : List ℕ → List NodeInfo
unfolding chunks parse_chunks
parse_nodes bytes = parse_chunks (chunks (length bytes) compact_node_info_size bytes)

-- The body of the loop of `get_peers`.
unfoldable pub parse_peer : List ℕ → Option SocketAddr
parse_peer value =
    if length value == compact_peer_info_size_ipv4
    then some (ipv4_addr value 0)
    else if length value == compact_peer_info_size_ipv6
    then some
        (record { ip = v6 (take 16 value); port = from_be_bytes (byte value 16) (byte value 17) })
    else none

abbrev add_peer : Option SocketAddr → List PeerAddress → List PeerAddress
add_peer none peers = peers
add_peer (some addr) peers = record { addr = addr; node_id = none } ∷ peers

unfoldable pub parse_peers : List (List ℕ) → List PeerAddress
unfolding parse_peer
parse_peers [] = []
parse_peers (value ∷ rest) = add_peer (parse_peer value) (parse_peers rest)
