-- ===== src/Dht/Compact/Peers.antt =====
-- `get_peers` reads back the compact peers of BEP 5, of both address families.
use hyperswarm.Base.{
  ℕ, ◌^◌, ◌<◌, ◌≡◌, ◌≢◌, none, List, [], ◌∷◌, ◌++◌, arith, length, length-append, take-append_eq,
  get_or-append,
}
use hyperswarm.Net.{IpAddr, v4, v6}
use hyperswarm.Dht.Compact.{
  compact_peer_info_size_ipv4, compact_peer_info_size_ipv6, PeerAddress, to_be_bytes, parse_peer,
  parse_peers,
}

-- An entry of `values`: a peer of either family, or bytes of any other length.
pub data Value : Type 0 where
  ipv4 : ℕ → ℕ → ℕ → ℕ → ℕ → Value
  ipv6 : List ℕ → ℕ → Value
  unknown : List ℕ → Value

abbrev pub encode : Value → List ℕ
encode (ipv4 a b c d port) = a ∷ b ∷ c ∷ d ∷ to_be_bytes port
encode (ipv6 ip port) = ip ++ to_be_bytes port
encode (unknown bytes) = bytes

abbrev pub encode_all : List Value → List (List ℕ)
encode_all [] = []
encode_all (v ∷ vs) = encode v ∷ encode_all vs

abbrev pub IsEncodable : Value → Type 0
IsEncodable (ipv4 a b c d port) = port < 2 ^ 16
IsEncodable (ipv6 ip port) = (length ip ≡ 16) × (port < 2 ^ 16)
IsEncodable (unknown bytes) =
    (length bytes ≢ compact_peer_info_size_ipv4) × (length bytes ≢ compact_peer_info_size_ipv6)

abbrev pub AllEncodable : List Value → Type 0
AllEncodable [] = Unit
AllEncodable (v ∷ vs) = IsEncodable v × AllEncodable vs

abbrev peer : IpAddr → ℕ → PeerAddress
peer ip port = record { addr = record { ip = ip; port = port }; node_id = none }

-- The peers that the values stand for.
abbrev pub peers : List Value → List PeerAddress
peers [] = []
peers (ipv4 a b c d port ∷ vs) = peer (v4 a b c d) port ∷ peers vs
peers (ipv6 ip port ∷ vs) = peer (v6 ip) port ∷ peers vs
peers (unknown bytes ∷ vs) = peers vs

-- Peers in the compact formats are read back, in order and exactly, and every value of another
-- length is passed over.
pub parse_peers-encode_all :
    (vs : List Value) → AllEncodable vs → parse_peers (encode_all vs) ≡ peers vs
unfolding parse_peers parse_peer
parse_peers-encode_all [] h = ground arith
parse_peers-encode_all (ipv4 a b c d port ∷ vs) h = ground (arith, parse_peers-encode_all vs h.1)
parse_peers-encode_all (ipv6 ip port ∷ vs) h =
    let word = to_be_bytes port in
    ground (
      arith,
      parse_peers-encode_all vs h.1,
      length-append ip word,
      take-append_eq 16 ip word h.0.0,
      get_or-append ip word 16 0 0,
      get_or-append ip word 17 1 0,
    )
parse_peers-encode_all (unknown bytes ∷ vs) h = ground (arith, parse_peers-encode_all vs h.1)
