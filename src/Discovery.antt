-- ===== src/Discovery.antt =====
-- crates/hyperswarm-rs/src/discovery.rs: `DiscoveryManager`, and the types of src/lib.rs that it
-- uses. `HashSet<Topic>` is a list without repetitions.
use hyperswarm.Base.{ℕ, Bool, false, ◌||◌, List, [], ◌∷◌, same_bytes, if◌then◌else◌}
use hyperswarm.Net.{M, ◌>>=◌, ◌>>◌, pure, get_self, put_self, map_err}
use hyperswarm.Net.Zoom.{zoom}
use hyperswarm.Protocol.{Bencode}
use hyperswarm.Dht.Client.{DhtError, DhtClient}
use hyperswarm.Dht.Topics.{announce, lookup}

pub record Topic : Type 0 where
  pub bytes : List ℕ

pub record DiscoveryConfig : Type 0 where
  pub max_peers : ℕ

pub data DiscoveryError (E : Type 0) : Type 0 where
  dht : DhtError E → DiscoveryError E
  unimplemented : DiscoveryError E

pub record DiscoveryManager : Type 0 where
  pub config : DiscoveryConfig
  pub topics : List Topic

-- `DiscoveryManager::new`.
abbrev pub new_manager : DiscoveryConfig → DiscoveryManager
new_manager config = record { config = config; topics = [] }

-- `HashSet::contains`, `insert` and `remove`.
unfoldable pub has_topic : Topic → List Topic → Bool
has_topic topic [] = false
has_topic topic (t ∷ topics) = same_bytes t.bytes topic.bytes || has_topic topic topics

unfoldable pub insert_topic : Topic → List Topic → List Topic
insert_topic topic topics = if has_topic topic topics then topics else topic ∷ topics

unfoldable pub remove_topic : Topic → List Topic → List Topic
remove_topic topic [] = []
remove_topic topic (t ∷ topics) =
    let rest = remove_topic topic topics in
    if same_bytes t.bytes topic.bytes then rest else t ∷ rest

-- The object of src/lib.rs, whose two parts `join` and `leave` work on.
pub record Hyperswarm : Type 0 where
  pub dht : DhtClient
  pub discovery : DiscoveryManager

abbrev pub write_dht : DhtClient → Hyperswarm → Hyperswarm
write_dht client swarm = record swarm { dht = client }

abbrev pub write_topics : List Topic → Hyperswarm → Hyperswarm
write_topics topics swarm = record swarm { discovery = record swarm.discovery { topics = topics } }

module _ {E : Type 0} where
  -- `DiscoveryManager::leave`.
  unfoldable pub manager_leave : Topic → M E Hyperswarm (DiscoveryError E) (Unit {0})
  manager_leave topic = do
    swarm ← get_self
    put_self (write_topics (remove_topic topic swarm.discovery.topics) swarm)

module _ {E : Type 0} (codec : Bencode) where
  -- A call on the client, `await`ed with `?`.
  abbrev pub on_dht :
      {X : Type 0} → M E DhtClient (DhtError E) X → M E Hyperswarm (DiscoveryError E) X
  on_dht m = map_err DiscoveryError.dht (zoom (λ (s : Hyperswarm). s.dht) write_dht m)

  -- `DiscoveryManager::join`; what the lookup finds is logged and dropped.
  unfoldable pub manager_join : Topic → M E Hyperswarm (DiscoveryError E) (Unit {0})
  manager_join topic = do
    swarm ← get_self
    put_self (write_topics (insert_topic topic swarm.discovery.topics) swarm)
    on_dht (announce codec topic.bytes 0)
    _ ← on_dht (lookup codec topic.bytes)
    pure tt
