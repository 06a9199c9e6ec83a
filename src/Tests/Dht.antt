-- ===== src/Tests/Dht.antt =====
-- The DHT client over a codec that writes the transaction id alone.
use hyperswarm.Base.{
  true, ℕ, zero, suc, ◌+◌, ◌*◌, ◌%◌, ◌^◌, ◌≤◌, ◌≡◌, refl, ◌↔◌, none, some, List, [], ◌∷◌, ◌++◌,
  String, arith, take,
}
use hyperswarm.Net.{v4, SocketAddr, Result, ok, err, done, fail, World, Event, datagram, silent}
use hyperswarm.Net.Success.{IsDone}
use hyperswarm.Protocol.{KrpcMessage, KrpcMessageType, Bencode, bencode_decode}
use hyperswarm.Dht.Table.{NodeInfo, new_table}
use hyperswarm.Dht.Table.Window.{add_all, window, add_all-eq-window}
use hyperswarm.Dht.Compact.{parse_nodes, parse_peers}
use hyperswarm.Dht.Compact.Nodes.{Node, compact_all, node_infos, parse_nodes-compact_all}
use hyperswarm.Dht.Compact.Peers.{
  Value, ipv4, ipv6, unknown, encode_all, peers, parse_peers-encode_all,
}
use hyperswarm.Dht.Client.{protocol, DhtConfig, DhtClient, new_client, recv_response}
use hyperswarm.Dht.Client.Ids.{drawn, drawn-eq_iff}
use hyperswarm.Dht.Client.Matching.{recv_response_first, recv_response_garbage}
use hyperswarm.Dht.Query.{bootstrap}
use hyperswarm.Dht.Topics.{announce, lookup}
use hyperswarm.Dht.Topics.Total.{client_total}
use hyperswarm.Dht.Evolution.{Reach, IsValid}
use hyperswarm.Dht.Evolution.History
use hyperswarm.Dht.Evolution.History.{Call, run, run-Reach, run-IsValid}

abbrev reply : List ℕ → KrpcMessage
reply tx_id = record {
  t = tx_id;
  y = KrpcMessageType.response;
  q = none;
  a = none;
  r = none;
  e = none;
}

abbrev read : List ℕ → Result String KrpcMessage
read [] = err "empty"
read (b ∷ bytes) = ok (reply (b ∷ bytes))

abbrev toy : Bencode
toy = record { to_bytes = λ msg. ok msg.t; from_bytes = read }

abbrev zeros : ℕ → List ℕ
zeros zero = []
zeros (suc n) = 0 ∷ zeros n

abbrev home : SocketAddr
home = record { ip = v4 127 0 0 1; port = 8080 }

abbrev client : DhtClient
client = record {
  node_id = zeros 20;
  routing_table = new_table;
  next_transaction_id = 0xffff;
  bootstrap_nodes = "a:1" ∷ [];
}

abbrev world_with : List (ℕ × Event ℕ) → World ℕ DhtClient
world_with inbox = record {
  now = 7;
  limit = none;
  inbox = inbox;
  sends = [];
  sent = [];
  dns = λ _ _. silent;
  ties = λ _. true;
  self = client;
}

abbrev quiet : World ℕ DhtClient
quiet = world_with []

abbrev stray : ℕ × Event ℕ
stray = (20, datagram home (4 ∷ []))

abbrev own_answer : ℕ × Event ℕ
own_answer = (60, datagram home (1 ∷ 2 ∷ []))

-- A stray, the response, and a datagram behind it.
abbrev busy : World ℕ DhtClient
busy = world_with (stray ∷ own_answer ∷ (90, datagram home (3 ∷ [])) ∷ [])

-- The library's `[]` is no message.
abbrev noisy : World ℕ DhtClient
noisy = world_with (stray ∷ (40, datagram home []) ∷ [])

client_total_example :
    (IsDone (bootstrap toy busy).0 × ((bootstrap toy busy).1.now ≤ 7 + 2500 * 1))
    × (IsDone (announce toy (zeros 32) 0 busy).0
        × ((announce toy (zeros 32) 0 busy).1.now ≤ 7 + (2500 * 1 + 100_000)))
    × (IsDone (lookup toy (zeros 32) busy).0
        × ((lookup toy (zeros 32) busy).1.now ≤ 7 + (2500 * 1 + 50_000)))
client_total_example = client_total toy busy refl (zeros 32) 0

-- A wait of a second, in which they come.
abbrev waiting : World ℕ DhtClient → World ℕ DhtClient
waiting w = record w { limit = some 1007 }

recv_response_first_example : recv_response toy (1 ∷ 2 ∷ []) (waiting busy) ≡ (
  done (reply (1 ∷ 2 ∷ [])),
  record (waiting busy) { now = 60; inbox = (90, datagram home (3 ∷ [])) ∷ [] },
)
unfolding take
recv_response_first_example =
    recv_response_first toy (1 ∷ 2 ∷ []) (waiting busy) (stray ∷ []) _ 60 home (1 ∷ 2 ∷ []) refl
      ((reply (4 ∷ []), omega arith, refl, λ e. cc), tt) (omega arith) (omega arith)
      (reply (1 ∷ 2 ∷ [])) refl refl

recv_response_garbage_example :
    recv_response toy (1 ∷ 2 ∷ []) (waiting noisy)
    ≡ (fail (protocol (bencode_decode "empty")), record (waiting noisy) { now = 40; inbox = [] })
unfolding take
recv_response_garbage_example =
    recv_response_garbage toy (1 ∷ 2 ∷ []) (waiting noisy) (stray ∷ []) [] 40 home [] refl
      ((reply (4 ∷ []), omega arith, refl, λ e. cc), tt) (omega arith) (omega arith) "empty" refl

drawn-eq_iff_example : (drawn 3 quiet ≡ drawn 65_539 quiet) ↔ (3 % 2 ^ 16 ≡ 65_539 % 2 ^ 16)
drawn-eq_iff_example = drawn-eq_iff 3 65_539 quiet (omega arith)

abbrev node : ℕ → NodeInfo
node n = record { node_id = n ∷ zeros 19; addr = home }

abbrev three_nodes : List NodeInfo
three_nodes = node 1 ∷ node 2 ∷ node 1 ∷ []

add_all-eq-window_example : (add_all three_nodes new_table).nodes ≡ window three_nodes
add_all-eq-window_example = add_all-eq-window three_nodes

abbrev far_node : Node
far_node = record { id = 9 ∷ zeros 19; a = 10; b = 0; c = 0; d = 1; port = 6881 }

parse_nodes-compact_all_example :
    parse_nodes (compact_all (far_node ∷ far_node ∷ []) ++ (1 ∷ 2 ∷ []))
    ≡ node_infos (far_node ∷ far_node ∷ [])
parse_nodes-compact_all_example =
    parse_nodes-compact_all (far_node ∷ far_node ∷ []) (1 ∷ 2 ∷ [])
      (refl, omega arith, (refl, omega arith, tt)) (omega arith)

abbrev values : List Value
values = ipv4 127 0 0 1 8080 ∷ unknown (1 ∷ []) ∷ ipv6 (zeros 16) 6881 ∷ []

parse_peers-encode_all_example : parse_peers (encode_all values) ≡ peers values
parse_peers-encode_all_example =
    parse_peers-encode_all values
      (omega arith, ((λ e. omega arith, λ e. omega arith), ((refl, omega arith), tt)))

abbrev calls : List Call
calls =
    History.ping home ∷ History.add_node (zeros 20) home refl ∷ History.announce (zeros 32) 0 ∷ []

run-Reach_example : Reach client (run toy calls busy).self
run-Reach_example = run-Reach toy calls busy

abbrev config : DhtConfig
config = record { bootstrap = "a:1" ∷ []; bind_port = 0 }

abbrev fresh : World ℕ DhtClient
fresh = record busy { self = record client { next_transaction_id = 0 } }

run-IsValid_example : IsValid (run toy calls fresh).self
unfolding new_client
run-IsValid_example = run-IsValid toy (λ _. ok tt) (zeros 20) config calls fresh refl refl
