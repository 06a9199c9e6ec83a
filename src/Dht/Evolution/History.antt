-- ===== src/Dht/Evolution/History.antt =====
-- Histories of calls on one client, from its creation on.
use hyperswarm.Base.{ℕ, ◌≡◌, List, [], ◌∷◌, arith, length}
use hyperswarm.Net.{World, SocketAddr, Result, ok}
use hyperswarm.Net.Moves.{Moves}
use hyperswarm.Protocol.{Bencode}
use hyperswarm.Dht.Client.{DhtConfig, DhtClient, new_client, add_node_to_routing_table}
use hyperswarm.Dht.Query
use hyperswarm.Dht.Topics
use hyperswarm.Dht.Evolution.{Reach, here, next, store, Reach-trans, Reach-IsValid, IsValid}
use hyperswarm.Dht.Evolution.Operations.{
  ping-Reach, find_node-Reach, get_peers-Reach, announce_peer-Reach,
}
use hyperswarm.Dht.Evolution.Topics.{bootstrap-Reach, announce-Reach, lookup-Reach}

-- The operations that can change the client.
pub data Call : Type 0 where
  bootstrap : Call
  ping : SocketAddr → Call
  find_node get_peers : SocketAddr → List ℕ → Call
  announce_peer : SocketAddr → List ℕ → ℕ → List ℕ → Call
  announce : List ℕ → ℕ → Call
  lookup : List ℕ → Call
  -- `add_node_to_routing_table`, whose id is a `[u8; 20]`.
  add_node : (node_id : List ℕ) → SocketAddr → length node_id ≡ 20 → Call

module _ {E : Type 0} (codec : Bencode) where
  -- The world after a call, whatever its outcome.
  unfoldable pub call : Call → World E DhtClient → World E DhtClient
  call bootstrap w = (Query.bootstrap codec w).1
  call (ping addr) w = (Query.ping codec addr w).1
  call (find_node addr target) w = (Query.find_node codec addr target w).1
  call (get_peers addr info_hash) w = (Query.get_peers codec addr info_hash w).1
  call (announce_peer addr info_hash port token) w =
      (Query.announce_peer codec addr info_hash port token w).1
  call (announce topic port) w = (Topics.announce codec topic port w).1
  call (lookup topic) w = (Topics.lookup codec topic w).1
  call (add_node node_id addr _) w = record w {
    self = add_node_to_routing_table node_id addr w.self;
  }

  unfoldable pub run : List Call → World E DhtClient → World E DhtClient
  run [] w = w
  run (c ∷ calls) w = run calls (call c w)

  call-Reach : (c : Call) (w : World E DhtClient) → Reach w.self (call c w).self
  unfolding call
  call-Reach bootstrap w = Moves.moved (bootstrap-Reach codec w)
  call-Reach (ping addr) w = Moves.moved (ping-Reach codec addr w)
  call-Reach (find_node addr target) w = Moves.moved (find_node-Reach codec addr target w)
  call-Reach (get_peers addr info_hash) w = Moves.moved (get_peers-Reach codec addr info_hash w)
  call-Reach (announce_peer addr info_hash port token) w =
      Moves.moved (announce_peer-Reach codec addr info_hash port token w)
  call-Reach (announce topic port) w = Moves.moved (announce-Reach codec topic port w)
  call-Reach (lookup topic) w = Moves.moved (lookup-Reach codec topic w)
  call-Reach (add_node node_id addr e) w = next here (store w.self node_id addr e)

  -- Any calls, with any outcomes, take the client along atomic steps: taking the next transaction
  -- id, and storing a node under an id of 20 bytes.
  pub run-Reach : (calls : List Call) (w : World E DhtClient) → Reach w.self (run calls w).self
  unfolding run
  run-Reach [] w = here
  run-Reach (c ∷ calls) w = Reach-trans (call-Reach c w) (run-Reach calls (call c w))

  -- A client that was created with a node id of 20 bytes stays valid, whatever calls are made on
  -- it and whatever the network does: its table has 100 nodes at most, all under ids of 20 bytes,
  -- its transaction counter is a 16-bit word and its own id has 20 bytes.
  pub run-IsValid :
      (bind : ℕ → Result E (Unit {0})) (node_id : List ℕ) (config : DhtConfig)
      → (calls : List Call) (w : World E DhtClient) → length node_id ≡ 20
      → new_client bind node_id config ≡ ok w.self
      → IsValid (run calls w).self
  unfolding new_client
  run-IsValid bind node_id config calls w e created =
      Reach-IsValid (run-Reach calls w) (ground arith)
