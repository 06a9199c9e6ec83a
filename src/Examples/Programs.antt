-- ===== src/Examples/Programs.antt =====
-- The runs of examples/dht_bootstrap.rs and examples/topic_announce.rs.
use hyperswarm.Base.{◌≡◌, refl, none, take}
use hyperswarm.Net.{World, Outcome, done, fail, elapsed, pending, panicked, ok, reflect}
use hyperswarm.Net.Reached.{reached}
use hyperswarm.Net.Success.{IsDone}
use hyperswarm.Net.Zoom.{with_self}
use hyperswarm.Protocol.{Bencode}
use hyperswarm.Dht.Client.{new_client}
use hyperswarm.Dht.Query.{bootstrap}
use hyperswarm.Dht.Topics.{flush, shutdown}
use hyperswarm.Dht.Topics.Total.{bootstrap_total}
use hyperswarm.Transport.{Noise}
use hyperswarm.Discovery.{Hyperswarm, Topic, new_manager}
use hyperswarm.Swarm.{Display, new_swarm, join, flush_swarm, destroy, default_config}
use hyperswarm.Swarm.Joining.{join_total}
use hyperswarm.Examples.{
  any_address, Machine, dht_bootstrap, announce_on, topic_announce, announce_key,
}
use hyperswarm.Examples.Connect.{IsReady}
use hyperswarm.Examples.Connection.{example_dht, example_client-ready, topic_of-ready}

module _ {E S Err Err' : Type 0} where
  reflect-done :
      (r : Outcome Err (Unit {0}) × World E S)
      → IsDone r.0
      → (reflect {Err' = Err'} r).0 ≡ done (ok tt)
  reflect-done (done x, w) h = refl
  reflect-done (fail e, w) h = absurd h
  reflect-done (elapsed, w) h = absurd h
  reflect-done (pending, w) h = absurd h
  reflect-done (panicked, w) h = absurd h

module _ (n : Noise) {E : Type 0} (codec : Bencode) (machine : Machine E)
    (ready : IsReady n machine) where
  -- With no timer around it, and whatever the network and the resolver do, dht_bootstrap prints
  -- that the bootstrap was completed.
  dht_bootstrap-done :
      (w : World E (Unit {0})) → w.limit ≡ none → (dht_bootstrap codec machine w).0 ≡ done (ok tt)
  unfolding dht_bootstrap
  dht_bootstrap-done w free =
      let c = example_dht n codec machine ready in
      rw (example_client-ready n codec machine ready) (
        reflect-done (bootstrap codec (with_self c w))
          (bootstrap_total codec (with_self c w) free).0)

  abbrev example_swarm : Hyperswarm
  example_swarm = record {
    dht = record (example_dht n codec machine ready) { bootstrap_nodes = default_config.bootstrap };
    discovery = new_manager (record { max_peers = 64 });
  }

  new_swarm-ready :
      (display : Display E)
      → new_swarm display
          (λ port. machine.bind 0 (any_address port))
          machine.random_id
          default_config
        ≡ ok example_swarm
  unfolding new_client new_swarm
  new_swarm-ready display = rw (ready.bound 0 (any_address 0), new_swarm) refl

  announce_on-done :
      (display : Display E) (topic : Topic) (w : World E Hyperswarm)
      → w.limit ≡ none
      → (announce_on codec machine display topic w).0 ≡ done (ok tt)
  unfolding announce_on flush_swarm destroy flush shutdown
  announce_on-done display topic w free =
      reached (λ r. r.0 ≡ done (ok tt)) (join display codec topic w) _
        (join_total display codec w topic free).0 λ x u e. refl

  -- With no timer around it, and whatever the network and the resolver do, topic_announce prints
  -- that the topic was joined, and returns `Ok`.
  topic_announce-done :
      (display : Display E) (w : World E (Unit {0}))
      → w.limit ≡ none
      → (topic_announce codec machine display w).0 ≡ done (ok tt)
  unfolding topic_announce
  topic_announce-done display w free =
      rw
        (
          new_swarm-ready display,
          topic_of-ready n codec machine ready announce_key,
          announce_on-done display (record { bytes = take 32 (machine.blake2b512 announce_key) })
              (with_self example_swarm w) free,
        )
        refl
