-- ===== src/Tests/Discovery.antt =====
-- Two clients over a codec that keeps the transaction id of one query.
use hyperswarm.Base.{true, ℕ, ◌≡◌, refl, none, some, List, [], ◌∷◌, arith}
use hyperswarm.Net.{World, v4, SocketAddr, ok, done, silent, timeout}
use hyperswarm.Net.Zoom.{with_self}
use hyperswarm.Protocol.{KrpcMessage, KrpcQueryKind, Bencode, default_args}
use hyperswarm.Dht.Client.{DhtClient, DhtError, transaction_id, add_node_to_routing_table}
use hyperswarm.Dht.Query.{query_message}
use hyperswarm.Dht.Topics.{announce, lookup}
use hyperswarm.Suite.Protocol.{repeated}
use hyperswarm.Suite.Discovery.{second_socket}
use hyperswarm.Suite.Discovery.Waits.{unanswered}
use hyperswarm.Suite.Discovery.Passes.{client_knowing, two_node_discovery}

abbrev id1 : List ℕ
id1 = repeated 1 20

abbrev id2 : List ℕ
id2 = repeated 2 20

abbrev topic : List ℕ
topic = repeated 7 32

abbrev query : List ℕ → KrpcMessage
query tx_id =
    query_message tx_id KrpcQueryKind.get_peers
      (record default_args { id = some id1; info_hash = some topic })

abbrev one_query : Bencode
one_query = record { to_bytes = λ msg. ok msg.t; from_bytes = λ bytes. ok (query bytes) }

abbrev host : ℕ → SocketAddr
host port = record { ip = v4 127 0 0 1; port = port }

abbrev socket : World ℕ (Unit {0})
socket = record {
  now = 0;
  limit = none;
  inbox = [];
  sends = [];
  sent = [];
  dns = λ _ _. silent;
  ties = λ _. true;
  self = tt;
}

abbrev start : World ℕ DhtClient
start = with_self (client_knowing id1 0 id2 (host 2)) socket

two_node_discovery_example :
    (announce one_query topic 1 start ≡ (done tt, unanswered one_query start (host 2) (0 ∷ 0 ∷ [])))
    × ((timeout {Err' = DhtError ℕ} 2000 (lookup one_query topic) (
          second_socket
            (host 1)
            (host 2)
            (client_knowing id2 3 id1 (host 1))
            (announce one_query topic 1 start).1)).0
        ≡ done none)
unfolding transaction_id add_node_to_routing_table
two_node_discovery_example =
    two_node_discovery one_query topic id1 id2 (host 1) (host 2) (0 ∷ 0 ∷ []) refl refl
      (omega arith) socket refl refl refl refl 1 3 (0 ∷ 3 ∷ []) refl
