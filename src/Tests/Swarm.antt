-- ===== src/Tests/Swarm.antt =====
-- A swarm over a network that answers nothing.
use hyperswarm.Base.{
  ℕ, zero, suc, ◌+◌, ◌*◌, ◌≤◌, ◌≡◌, refl, true, false, none, some, List, [], ◌∷◌, take, same_bytes,
  ℕ_discrete,
}
use hyperswarm.Net.{ok, err, World, silent}
use hyperswarm.Net.Success.{IsDone}
use hyperswarm.Protocol.{Bencode}
use hyperswarm.Dht.Table.{new_table}
use hyperswarm.Dht.Client.{new_client}
use hyperswarm.Dht.Evolution.{IsValid}
use hyperswarm.Discovery.{Topic, Hyperswarm, has_topic}
use hyperswarm.Swarm.{Display, default_config, from_key, new_swarm, join}
use hyperswarm.Swarm.Membership.{
  SwarmCall, joined, left, flushed, wanted, run_swarm, run_swarm-wanted,
}
use hyperswarm.Swarm.Joining.{join_total}
use hyperswarm.Swarm.Validity.{run_swarm-IsValid}

abbrev mute : Bencode
mute = record { to_bytes = λ msg. ok msg.t; from_bytes = λ _. err "no message" }

abbrev plain : Display ℕ
plain = record { dht_text = λ _. "dht"; discovery_text = λ _. "discovery" }

abbrev zeros : ℕ → List ℕ
zeros zero = []
zeros (suc n) = 0 ∷ zeros n

abbrev swarm : Hyperswarm
swarm = record {
  dht = record {
    node_id = zeros 20;
    routing_table = new_table;
    next_transaction_id = 0;
    bootstrap_nodes = default_config.bootstrap;
  };
  discovery = record { config = record { max_peers = 64 }; topics = [] };
}

abbrev created : World ℕ Hyperswarm
created = record {
  now = 7;
  limit = none;
  inbox = [];
  sends = [];
  sent = [];
  dns = λ _ _. silent;
  ties = λ _. true;
  self = swarm;
}

run_new_swarm : new_swarm plain (λ _. ok tt) (zeros 20) default_config ≡ ok swarm
unfolding new_swarm new_client
run_new_swarm = refl

-- The topic of a digest is its first 32 bytes.
topic_of_key : from_key (λ key. zeros 64) (1 ∷ []) ≡ some (record { bytes = zeros 32 })
unfolding from_key take
topic_of_key = refl

abbrev news : Topic
news = record { bytes = zeros 32 }

abbrev other : Topic
other = record { bytes = 1 ∷ zeros 31 }

abbrev calls : List SwarmCall
calls = joined news ∷ joined other ∷ flushed ∷ left news ∷ []

run_swarm-wanted_example :
    has_topic other (run_swarm plain mute calls created).self.discovery.topics
    ≡ wanted other calls (has_topic other [])
run_swarm-wanted_example = run_swarm-wanted plain mute other calls created

wanted-other : wanted other calls false ≡ true
unfolding same_bytes ℕ_discrete
wanted-other = refl

wanted-news : wanted news calls false ≡ false
unfolding same_bytes ℕ_discrete
wanted-news = refl

join_total_example :
    IsDone (join plain mute news created).0
    × ((join plain mute news created).1.now ≤ 7 + (5000 * 3 + 150_000))
    × (has_topic news (join plain mute news created).1.self.discovery.topics ≡ true)
join_total_example = join_total plain mute created news refl

run_swarm-IsValid_example :
    IsValid (run_swarm plain mute calls created).self.dht
    × ((run_swarm plain mute calls created).self.discovery.config.max_peers ≡ 64)
run_swarm-IsValid_example =
    run_swarm-IsValid plain mute (λ _. ok tt) (zeros 20) default_config calls created refl
      run_new_swarm
