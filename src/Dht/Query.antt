-- ===== src/Dht/Query.antt =====
-- crates/hyperswarm-rs/src/dht.rs: the four queries, and `bootstrap`. Times are in milliseconds.
pub mod Calm
pub mod Answers
use hyperswarm.Base.{
  ℕ, Bool, Option, none, some, List, [], ◌∷◌, String, if◌then◌else◌, ◌==◌, length, take, is_empty,
}
use hyperswarm.Net.{
  SocketAddr, Result, ok, err, M, ◌>>=◌, ◌>>◌, pure, map_err, get_self, put_self, lookup_host,
  timeout, timeout_or,
}
use hyperswarm.Protocol.{
  KrpcMessage, KrpcMessageType, KrpcQueryKind, KrpcArgs, KrpcResponse, default_args, Bencode,
}
use hyperswarm.Dht.Table.{NodeInfo}
use hyperswarm.Dht.Compact.{PeerAddress, parse_nodes, parse_peers}
use hyperswarm.Dht.Client.{
  DhtError, io, timed_out, DhtClient, add_node_to_routing_table, get_transaction_id, send_krpc,
  recv_response,
}

-- How long `recv_response` may take, a name may take to resolve, and a bootstrap ping may take.
abbrev pub response_timeout : ℕ
response_timeout = 5000

abbrev pub resolve_timeout : ℕ
resolve_timeout = 2000

abbrev pub bootstrap_ping_timeout : ℕ
bootstrap_ping_timeout = 500

abbrev pub default_bootstrap_nodes : List String
default_bootstrap_nodes =
    "router.bittorrent.com:6881" ∷ "dht.transmissionbt.com:6881" ∷ "router.utorrent.com:6881" ∷ []

-- The message that a query sends; the id of the sender goes into its arguments.
abbrev pub query_message : List ℕ → KrpcQueryKind → KrpcArgs → KrpcMessage
query_message tx_id kind args = record {
  t = tx_id;
  y = KrpcMessageType.query;
  q = some kind;
  a = some args;
  r = none;
  e = none;
}

abbrev pub response_id : Option KrpcResponse → Option (List ℕ)
response_id none = none
response_id (some r) = r.id

abbrev pub bytes_or_default : Option (List ℕ) → List ℕ
bytes_or_default none = []
bytes_or_default (some bytes) = bytes

abbrev pub response_nodes : Option KrpcResponse → List NodeInfo
response_nodes none = []
response_nodes (some r) = parse_nodes (bytes_or_default r.nodes)

abbrev values_or_default : Option (List (List ℕ)) → List (List ℕ)
values_or_default none = []
values_or_default (some values) = values

abbrev pub response_peers : Option KrpcResponse → List PeerAddress × Option (List ℕ)
response_peers none = ([], none)
response_peers (some r) = (parse_peers (values_or_default r.values), r.token)

-- What `ping` does with the table: an id of 20 bytes is stored with the address that was asked.
abbrev pub learn : Option (List ℕ) → SocketAddr → DhtClient → DhtClient
learn none addr c = c
learn (some id) addr c =
    if length id == 20 then add_node_to_routing_table (take 20 id) addr c else c

-- `self.bootstrap_nodes`, or the mainline defaults if there are none.
abbrev pub bootstrap_names : DhtClient → List String
bootstrap_names c =
    if is_empty c.bootstrap_nodes then default_bootstrap_nodes else c.bootstrap_nodes

module _ {E : Type 0} (codec : Bencode) where
  -- The part that the queries share: a fresh transaction id, the message, and the wait.
  unfoldable pub exchange :
      SocketAddr → KrpcQueryKind → KrpcArgs → M E DhtClient (DhtError E) KrpcMessage
  exchange addr kind args = do
    tx_id ← get_transaction_id
    client ← get_self
    send_krpc codec addr (query_message tx_id kind (record args { id = some client.node_id }))
    timeout_or response_timeout timed_out (recv_response codec tx_id)

  unfoldable pub ping : SocketAddr → M E DhtClient (DhtError E) (List ℕ)
  ping addr = do
    response ← exchange addr KrpcQueryKind.ping default_args
    client ← get_self
    put_self (learn (response_id response.r) addr client)
    pure (bytes_or_default (response_id response.r))

  unfoldable pub find_node : SocketAddr → List ℕ → M E DhtClient (DhtError E) (List NodeInfo)
  find_node addr target = do
    response ← exchange addr KrpcQueryKind.find_node (record default_args { target = some target })
    pure (response_nodes response.r)

  unfoldable pub get_peers :
      SocketAddr → List ℕ → M E DhtClient (DhtError E) (List PeerAddress × Option (List ℕ))
  get_peers addr info_hash = do
    response ←
        exchange addr KrpcQueryKind.get_peers (record default_args { info_hash = some info_hash })
    pure (response_peers response.r)

  unfoldable pub announce_peer :
      SocketAddr → List ℕ → ℕ → List ℕ → M E DhtClient (DhtError E) (Unit {0})
  announce_peer addr info_hash port token = do
    _ ←
        exchange addr KrpcQueryKind.announce_peer
          (record default_args { info_hash = some info_hash; port = some port; token = some token })
    pure tt

  -- One name's answer: the first address is pinged, and the result of the ping is dropped.
  unfoldable pub ping_first :
      Option (Result (DhtError E) (List SocketAddr)) → M E DhtClient (DhtError E) (Unit {0})
  ping_first (some (ok (addr ∷ _))) = do
    _ ← timeout {Err' = DhtError E} bootstrap_ping_timeout (ping addr)
    pure tt
  ping_first _ = pure tt

  -- The loop of `bootstrap`.
  unfoldable pub bootstrap_from : List String → M E DhtClient (DhtError E) (Unit {0})
  bootstrap_from [] = pure tt
  bootstrap_from (name ∷ names) = do
    found ← timeout resolve_timeout (map_err io (lookup_host name))
    ping_first found
    bootstrap_from names

  unfoldable pub bootstrap : M E DhtClient (DhtError E) (Unit {0})
  bootstrap = do client ← get_self; bootstrap_from (bootstrap_names client)
