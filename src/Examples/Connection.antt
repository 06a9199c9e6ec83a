-- ===== src/Examples/Connection.antt =====
-- The run of examples/p2p_connection.rs.
use hyperswarm.Base.{ℕ, ◌+◌, ◌≤◌, ◌≡◌, refl, none, some, List, arith, take}
use hyperswarm.Net.{
  World, M, Outcome, done, fail, elapsed, pending, panicked, Result, ok, err, continue, pure, v4,
}
use hyperswarm.Net.Reached.{IsFound}
use hyperswarm.Net.Zoom.{with_self}
use hyperswarm.Protocol.{Bencode}
use hyperswarm.Dht.Client.{DhtClient, new_client}
use hyperswarm.Dht.Table.{new_table}
use hyperswarm.Holepunch.Session.{HolepunchError}
use hyperswarm.Transport.{Noise, TransportError}
use hyperswarm.Discovery.{Topic}
use hyperswarm.Swarm.{from_key}
use hyperswarm.Examples.{
  ExampleError, Machine, Report, Explored, example_client, explore, connect, p2p_connection,
  connection_key, example_nodes,
}
use hyperswarm.Examples.Explore.{HasExplored, explore-HasExplored}
use hyperswarm.Examples.Connect.{IsReady, HasConnected, connect-HasConnected}

module _ {E : Type 0} where
  -- The end of the program: it reports that the bootstrap and the announcement went well, that
  -- the lookup did or was too slow, and that the stream refused to send, or all probes failed.
  abbrev pub HasReported :
      World E (Unit {0}) → Outcome (ExampleError E) (Report E) × World E (Unit {0}) → Type 0
  HasReported w (done report, v) =
      (report.bootstrapped ≡ ok tt)
      × (report.announced ≡ ok tt)
      × IsFound report.found
      × (report.sent ≡ err TransportError.handshake_incomplete)
      × (v.now ≤ w.now + 115_000)
  HasReported w (fail (ExampleError.holepunch (HolepunchError.io e)), v) = v.now ≤ w.now + 115_000
  HasReported w _ = ⊥

  abbrev report_of : Explored E → Result (TransportError E) (Unit {0}) → Report E
  report_of x sent = record {
    bootstrapped = x.bootstrapped;
    announced = x.announced;
    found = x.found;
    sent = sent;
  }

  after_connect :
      (w u : World E (Unit {0})) (x : Explored E)
      → (r : Outcome (ExampleError E) (Result (TransportError E) (Unit {0})) × World E (Unit {0}))
      → x.bootstrapped ≡ ok tt
      → x.announced ≡ ok tt
      → IsFound x.found
      → u.now ≤ w.now + 115_000
      → HasConnected u r
      → HasReported w (continue r (λ sent. pure (report_of x sent)))
  after_connect w u x (done sent, v) b a f s h = (b, a, f, h.0, ground (arith, h.1))
  after_connect w u x (fail (ExampleError.holepunch (HolepunchError.io e)), v) b a f s h =
      ground arith
  after_connect w u x (_, v) b a f s h = absurd h

  after_explore :
      (w : World E (Unit {0})) (c : DhtClient) (topic : Topic)
      → (r : Outcome (ExampleError E) (Explored E) × World E DhtClient)
      → (f : Explored E → M E (Unit {0}) (ExampleError E) (Report E))
      → HasExplored (with_self c w) topic r
      → ((x : Explored E) (u : World E (Unit {0}))
          → x.bootstrapped ≡ ok tt
          → x.announced ≡ ok tt
          → IsFound x.found
          → u.now ≤ w.now + 115_000
          → HasReported w (f x u))
      → HasReported w (continue (r.0, with_self w.self r.1) f)
  after_explore w c topic (done x, u) f h k =
      let (same, bootstrapped, announced, found_ok, free, soon) = h in
      k x _ bootstrapped announced found_ok soon
  after_explore w c topic (fail e, u) f h k = absurd h
  after_explore w c topic (elapsed, u) f h k = absurd h
  after_explore w c topic (pending, u) f h k = absurd h
  after_explore w c topic (panicked, u) f h k = absurd h

module _ (n : Noise) {E : Type 0} (codec : Bencode) (machine : Machine E)
    (ready : IsReady n machine) where
  pub topic_of-ready :
      (key : List ℕ)
      → from_key machine.blake2b512 key ≡ some (record { bytes = take 32 (machine.blake2b512 key) })
  unfolding from_key
  topic_of-ready key = let d = ready.digest key in ground arith

  abbrev pub example_dht : DhtClient
  example_dht = record {
    node_id = machine.random_id;
    routing_table = new_table;
    next_transaction_id = 0;
    bootstrap_nodes = example_nodes;
  }

  pub example_client-ready : example_client machine ≡ ok example_dht
  unfolding new_client
  example_client-ready = rw (ready.bound 0 (record { ip = v4 0 0 0 0; port = 0 }), new_client) refl

  -- On a machine on which sockets can be bound, a digest has 64 bytes and snow makes a key pair,
  -- with no timer around it: whatever the network, the resolver and the sends do, the program ends
  -- within 115 seconds, and of what it can print it prints that the bootstrap and the announcement
  -- went well, that the lookup did or took more than five seconds, and that the stream refuses to
  -- send before a handshake; or it ends with the error of a probe, when no probe could be sent.
  pub p2p_connection-HasReported :
      (w : World E (Unit {0})) → w.limit ≡ none → HasReported w (p2p_connection n codec machine w)
  unfolding p2p_connection
  p2p_connection-HasReported w free =
      let topic : Topic = record { bytes = take 32 (machine.blake2b512 connection_key) } in
      rw example_client-ready (
        after_explore w example_dht topic (explore codec machine (with_self example_dht w)) _
          (explore-HasExplored codec machine (with_self example_dht w) topic free refl
            (topic_of-ready connection_key))
          λ x u b a f s.
            after_connect w u x (connect n machine x.topic u) b a f s
              (connect-HasConnected n machine ready x.topic u))
