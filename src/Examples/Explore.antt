-- ===== src/Examples/Explore.antt =====
-- The first three steps of examples/p2p_connection.rs.
use hyperswarm.Base.{ℕ, ◌+◌, ◌*◌, ◌≤◌, ◌≡◌, refl, ◌∙◌, none, some, List, arith, length}
use hyperswarm.Net.{World, Outcome, done, ok, timeout}
use hyperswarm.Net.Io.{timeout-Calm, timeout-Swift}
use hyperswarm.Net.Reached.{reached, IsFound, close-NoError, found}
use hyperswarm.Net.Moves.{Moves}
use hyperswarm.Protocol.{Bencode}
use hyperswarm.Dht.Client.{DhtClient}
use hyperswarm.Dht.Query.{bootstrap, bootstrap_names}
use hyperswarm.Dht.Query.Calm.{bootstrap-Calm}
use hyperswarm.Dht.Topics.{announce, lookup}
use hyperswarm.Dht.Topics.Announce.{announce-Calm}
use hyperswarm.Dht.Topics.Lookup.{lookup-Calm, lookup-IsSuccess}
use hyperswarm.Dht.Topics.Total.{bootstrap_total, announce_total}
use hyperswarm.Dht.Evolution.{Reach-bootstrap_nodes}
use hyperswarm.Dht.Evolution.Topics.{bootstrap-Reach}
use hyperswarm.Discovery.{Topic}
use hyperswarm.Swarm.{from_key}
use hyperswarm.Examples.{ExampleError, Machine, Explored, explore, connection_key, example_nodes}

module _ {E : Type 0} where
  -- The end of the first three steps: no timer is left, and at most 115 seconds have passed.
  abbrev pub HasExplored :
      World E DhtClient → Topic → Outcome (ExampleError E) (Explored E) × World E DhtClient → Type 0
  HasExplored v topic (done x, u) =
      (x.topic ≡ topic)
      × (x.bootstrapped ≡ ok tt)
      × (x.announced ≡ ok tt)
      × IsFound x.found
      × (u.limit ≡ none)
      × (u.now ≤ v.now + 115_000)
  HasExplored v topic _ = ⊥

module _ {E : Type 0} (codec : Bencode) (machine : Machine E) where
  names_two : (c : DhtClient) → c.bootstrap_nodes ≡ example_nodes → length (bootstrap_names c) ≡ 2
  names_two c e = rw e refl

  same_nodes :
      (v : World E DhtClient) → (bootstrap codec v).1.self.bootstrap_nodes ≡ v.self.bootstrap_nodes
  same_nodes v = Reach-bootstrap_nodes (Moves.moved (bootstrap-Reach codec v))

  after_bootstrap :
      (v u : World E DhtClient) (x : Unit {0})
      → v.limit ≡ none
      → v.self.bootstrap_nodes ≡ example_nodes
      → bootstrap codec v ≡ (done x, u)
      → (u.limit ≡ none) × (u.now ≤ v.now + 5000) × (u.self.bootstrap_nodes ≡ example_nodes)
  after_bootstrap v u x l names e =
      let soon : u.now ≤ v.now + 2500 * length (bootstrap_names v.self) =
        rw e at (bootstrap_total codec v l).1 in
      let two = names_two v.self names in
      let moved : u.self.bootstrap_nodes ≡ v.self.bootstrap_nodes = rw e at (same_nodes v) in
      (rw e at (bootstrap-Calm codec v).kept ∙ l, omega arith, moved ∙ names)

  after_announce :
      (u t : World E DhtClient) (topic : List ℕ) (y : Unit {0})
      → u.limit ≡ none
      → u.self.bootstrap_nodes ≡ example_nodes
      → announce codec topic 0 u ≡ (done y, t)
      → (t.limit ≡ none) × (t.now ≤ u.now + 105_000)
  after_announce u t topic y l names e =
      let soon : t.now ≤ u.now + (2500 * length (bootstrap_names u.self) + 100_000) =
        rw e at (announce_total codec u l topic 0).1 in
      let two = names_two u.self names in
      (rw e at (announce-Calm codec topic 0 u).kept ∙ l, omega arith)

  pub explore-HasExplored :
      (v : World E DhtClient) (topic : Topic)
      → v.limit ≡ none
      → v.self.bootstrap_nodes ≡ example_nodes
      → from_key machine.blake2b512 connection_key ≡ some topic
      → HasExplored v topic (explore codec machine v)
  unfolding explore timeout
  explore-HasExplored v topic l names key =
      reached (HasExplored v topic) (bootstrap codec v) _ (bootstrap_total codec v l).0 λ x u e.
        let (free_u, soon_u, names_u) = after_bootstrap v u x l names e in
        rw key (
          reached (HasExplored v topic) (announce codec topic.bytes 0 u) _
            (announce_total codec u free_u topic.bytes 0).0
            λ y t e'.
              let (free_t, soon_t) = after_announce u t topic.bytes y free_u names_u e' in
              found 5000 (Explored E) (HasExplored v topic) t _ _ free_t
                (timeout-Calm 5000 (lookup codec topic.bytes) (lookup-Calm codec topic.bytes) t)
                (timeout-Swift 5000 (lookup codec topic.bytes) (lookup-Calm codec topic.bytes) t)
                (close-NoError (ExampleError E) t.limit (t.now + 5000) _
                  (lookup-IsSuccess codec topic.bytes _))
                λ z s ok_found free soon. (refl, refl, refl, ok_found, free, omega arith))
