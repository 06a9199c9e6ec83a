-- ===== src/Swarm.antt =====
-- crates/hyperswarm-rs/src/lib.rs: the facade `Hyperswarm` and its configuration.
pub mod Membership
pub mod Joining
pub mod Validity
use hyperswarm.Base.{ℕ, Option, none, some, List, [], ◌∷◌, String, length, take, leb, if◌then◌else◌}
use hyperswarm.Net.{M, Result, ok, err, map_err}
use hyperswarm.Net.Zoom.{zoom}
use hyperswarm.Protocol.{Bencode, map_error}
use hyperswarm.Dht.Client.{DhtConfig, DhtError, DhtClient, new_client}
use hyperswarm.Dht.Topics.{flush, shutdown}
use hyperswarm.Discovery.{
  Topic, DiscoveryConfig, DiscoveryError, DiscoveryManager, new_manager, Hyperswarm, write_dht,
  manager_join, manager_leave,
}

pub record SwarmConfig : Type 0 where
  pub bootstrap : List String
  pub port : ℕ
  pub max_peers : ℕ

-- `SwarmConfig::default()`.
abbrev pub default_config : SwarmConfig
default_config = record {
  bootstrap =
      "node1.hyperdht.org:49737" ∷ "node2.hyperdht.org:49737" ∷ "node3.hyperdht.org:49737" ∷ [];
  port = 0;
  max_peers = 64;
}

-- `Topic::from_key`, with BLAKE2b given; `none` is the panic of a digest that is too short.
unfoldable pub from_key : (List ℕ → List ℕ) → List ℕ → Option Topic
from_key blake2b512 key =
    if leb 32 (length (blake2b512 key))
    then some (record { bytes = take 32 (blake2b512 key) })
    else none

pub data SwarmError : Type 0 where
  dht connection transport : String → SwarmError

-- The texts of errors, which `thiserror` derives.
pub record Display (E : Type 0) : Type 0 where
  pub dht_text : DhtError E → String
  pub discovery_text : DiscoveryError E → String

module _ {E : Type 0} (display : Display E) where
  -- `Hyperswarm::new`.
  unfoldable pub new_swarm :
      (ℕ → Result E (Unit {0})) → List ℕ → SwarmConfig → Result SwarmError Hyperswarm
  new_swarm bind random_id config =
      elim (new_client bind random_id
        (record { bootstrap = config.bootstrap; bind_port = config.port })) [
          | err e ↦ err (SwarmError.dht (display.dht_text e))
          | ok client ↦ ok (record {
            dht = client;
            discovery = new_manager (record { max_peers = config.max_peers });
          })
        ]

  unfoldable pub join : Bencode → Topic → M E Hyperswarm SwarmError (Unit {0})
  join codec topic =
      map_err (λ e. SwarmError.dht (display.discovery_text e)) (manager_join codec topic)

  unfoldable pub leave : Topic → M E Hyperswarm SwarmError (Unit {0})
  leave topic = map_err (λ e. SwarmError.dht (display.discovery_text e)) (manager_leave topic)

  unfoldable pub flush_swarm : M E Hyperswarm SwarmError (Unit {0})
  flush_swarm =
      map_err (λ e. SwarmError.dht (display.dht_text e))
        (zoom (λ (s : Hyperswarm). s.dht) write_dht flush)

  unfoldable pub destroy : M E Hyperswarm SwarmError (Unit {0})
  destroy =
      map_err (λ e. SwarmError.dht (display.dht_text e))
        (zoom (λ (s : Hyperswarm). s.dht) write_dht shutdown)
