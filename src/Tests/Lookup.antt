-- ===== src/Tests/Lookup.antt =====
-- A lookup over two nodes that answer, the transaction counter wrapping around between them.
use hyperswarm.Base.{
  true, ℕ, zero, suc, ◌≡◌, refl, ◌≢◌, ap, none, some, List, [], ◌∷◌, String, arith, take, get_or,
}
use hyperswarm.Net.{v4, Result, ok, err, done, World, datagram, silent}
use hyperswarm.Protocol.{KrpcMessage, KrpcMessageType, Bencode}
use hyperswarm.Dht.Table.{NodeInfo, get_nodes}
use hyperswarm.Dht.Client.{DhtClient, advance, transaction_id}
use hyperswarm.Dht.Query.Answers.{Answer}
use hyperswarm.Dht.Topics.{lookup}
use hyperswarm.Dht.Topics.Collects.{peers_of, lookup_collects}

-- A message is its transaction id, and the rest one value.
abbrev pub read : List ℕ → Result String KrpcMessage
read (a ∷ b ∷ value) = ok (record {
  t = a ∷ b ∷ [];
  y = KrpcMessageType.response;
  q = none;
  a = none;
  r = some (record { id = none; nodes = none; values = some (value ∷ []); token = none });
  e = none;
})
read _ = err "short"

abbrev pub plain : Bencode
plain = record { to_bytes = λ msg. ok msg.t; from_bytes = read }

abbrev pub zeros : ℕ → List ℕ
zeros zero = []
zeros (suc n) = 0 ∷ zeros n

abbrev pub node : ℕ → NodeInfo
node port = record { node_id = zeros 20; addr = record { ip = v4 127 0 0 1; port = port } }

abbrev pub client : DhtClient
client = record {
  node_id = zeros 20;
  routing_table = record { nodes = node 1 ∷ node 2 ∷ [] };
  next_transaction_id = 0xffff;
  bootstrap_nodes = [];
}

abbrev answer1 : List ℕ
answer1 = 255 ∷ 255 ∷ 127 ∷ 0 ∷ 0 ∷ 1 ∷ 31 ∷ 144 ∷ []

abbrev answer2 : List ℕ
answer2 = 0 ∷ 0 ∷ 10 ∷ 0 ∷ 0 ∷ 2 ∷ 0 ∷ 80 ∷ []

-- A late copy of the first answer comes before the second.
abbrev asking : World ℕ DhtClient
asking = record {
  now = 7;
  limit = none;
  inbox =
      (100, datagram (node 1).addr answer1)
      ∷ (200, datagram (node 1).addr answer1)
      ∷ (300, datagram (node 2).addr answer2)
      ∷ [];
  sends = [];
  sent = [];
  dns = λ _ _. silent;
  ties = λ _. true;
  self = client;
}

abbrev pub message : ℕ → ℕ → List ℕ → KrpcMessage
message a b value = record {
  t = a ∷ b ∷ [];
  y = KrpcMessageType.response;
  q = none;
  a = none;
  r = some (record { id = none; nodes = none; values = some (value ∷ []); token = none });
  e = none;
}

abbrev message1 : KrpcMessage
message1 = message 255 255 (127 ∷ 0 ∷ 0 ∷ 1 ∷ 31 ∷ 144 ∷ [])

abbrev message2 : KrpcMessage
message2 = message 0 0 (10 ∷ 0 ∷ 0 ∷ 2 ∷ 0 ∷ 80 ∷ [])

ids_differ : message1.t ≢ 0 ∷ 0 ∷ []
ids_differ e = omega (arith, ap (λ l. get_or l 0 0) e)

first-Answer :
    Answer {E = ℕ} plain
      (transaction_id client)
      5007
      asking.inbox
      ((200, datagram (node 1).addr answer1) ∷ (300, datagram (node 2).addr answer2) ∷ [])
      message1
unfolding transaction_id take
first-Answer = record {
  strays = [];
  time = 100;
  from = (node 1).addr;
  bytes = answer1;
  queue = refl;
  stray = tt;
  few = omega arith;
  soon = omega arith;
  decoded = refl;
  own = refl;
}

second-Answer :
    Answer {E = ℕ} plain
      (transaction_id (advance client))
      5007
      ((200, datagram (node 1).addr answer1) ∷ (300, datagram (node 2).addr answer2) ∷ [])
      []
      message2
unfolding transaction_id advance take
second-Answer = record {
  strays = (200, datagram (node 1).addr answer1) ∷ [];
  time = 300;
  from = (node 2).addr;
  bytes = answer2;
  queue = refl;
  stray = ((message1, omega arith, refl, ids_differ), tt);
  few = omega arith;
  soon = omega arith;
  decoded = refl;
  own = refl;
}

lookup_collects_example :
    ((lookup plain (zeros 32) asking).0 ≡ done (peers_of (message1 ∷ message2 ∷ [])))
    × ((lookup plain (zeros 32) asking).1.inbox ≡ [])
unfolding get_nodes take
lookup_collects_example =
    lookup_collects plain (zeros 32) (message1 ∷ message2 ∷ []) [] asking refl refl refl
      (λ tx_id. (tx_id, refl)) (_, first-Answer, (_, second-Answer, refl))
