-- ===== src/Dht/Topics/Lookup.antt =====
-- `lookup` ends by itself and cannot fail.
use hyperswarm.Base.{ℕ, ◌+◌, ◌*◌, List, [], ◌∷◌, ◌++◌, arith, length}
use hyperswarm.Net.{World}
use hyperswarm.Net.Calm.{
  Swift, IsTame, done-Calm, done-Swift, continue-Calm, continue-Swift, reflect-Calm, reflect-Swift,
  Swift-mono,
}
use hyperswarm.Net.Success.{IsSuccess, continue-IsSuccess, reflect-IsSuccess}
use hyperswarm.Protocol.{Bencode}
use hyperswarm.Dht.Table.{NodeInfo}
use hyperswarm.Dht.Compact.{PeerAddress}
use hyperswarm.Dht.Client.{DhtError, DhtClient}
use hyperswarm.Dht.Query.{bootstrap_names, get_peers, response_timeout}
use hyperswarm.Dht.Query.Calm.{get_peers-Calm, get_peers-Swift}
use hyperswarm.Dht.Topics.Bootstrap.{
  get_nodes_bound, bootstrap_if_empty-Calm, bootstrap_if_empty-Swift, bootstrap_if_empty-IsSuccess,
}
use hyperswarm.Dht.Topics.{topic_nodes, nodes_per_topic, gather, lookup, found_peers}

module _ {E : Type 0} (codec : Bencode) where
  gather-Calm :
      (nodes : List NodeInfo) (info_hash : List ℕ) (found : List PeerAddress)
      → IsTame (gather {E = E} codec nodes info_hash found)
  unfolding gather
  gather-Calm [] info_hash found w = done-Calm found w
  gather-Calm (node ∷ nodes) info_hash found w =
      continue-Calm w _ _ (reflect-Calm w _ (get_peers-Calm codec node.addr info_hash w))
        λ reply w'. gather-Calm nodes info_hash (found ++ found_peers reply) w'

  gather-Swift :
      (nodes : List NodeInfo) (info_hash : List ℕ) (found : List PeerAddress)
      → (w : World E DhtClient)
      → Swift (5000 * length nodes) w (gather codec nodes info_hash found w)
  unfolding gather
  gather-Swift [] info_hash found w = Swift-mono w _ (omega arith) (done-Swift found w)
  gather-Swift (node ∷ nodes) info_hash found w = Swift-mono w _ (omega arith) (
      continue-Swift response_timeout (5000 * length nodes) w _ _
        (reflect-Swift response_timeout w _ (get_peers-Swift codec node.addr info_hash w))
        λ reply w'. gather-Swift nodes info_hash (found ++ found_peers reply) w')

  gather-IsSuccess :
      (nodes : List NodeInfo) (info_hash : List ℕ) (found : List PeerAddress)
      → (w : World E DhtClient) → IsSuccess (gather codec nodes info_hash found w).0
  unfolding gather
  gather-IsSuccess [] info_hash found w = tt
  gather-IsSuccess (node ∷ nodes) info_hash found w =
      continue-IsSuccess _ _
        (reflect-IsSuccess (DhtError E) (get_peers codec node.addr info_hash w))
        λ reply w'. gather-IsSuccess nodes info_hash (found ++ found_peers reply) w'

  pub lookup-Calm : (topic : List ℕ) → IsTame (lookup {E = E} codec topic)
  unfolding lookup
  lookup-Calm topic w =
      continue-Calm w _ _ (bootstrap_if_empty-Calm codec w)
        λ _ w'. gather-Calm (topic_nodes w'.self) topic [] w'

  pub lookup-Swift :
      (topic : List ℕ) (w : World E DhtClient)
      → Swift (2500 * length (bootstrap_names w.self) + 50_000) w (lookup codec topic w)
  unfolding lookup
  lookup-Swift topic w = continue-Swift _ 50_000 w _ _ (bootstrap_if_empty-Swift codec w) λ _ w'.
      Swift-mono w' _ (omega (arith, get_nodes_bound w'.self.routing_table nodes_per_topic))
        (gather-Swift (topic_nodes w'.self) topic [] w')

  pub lookup-IsSuccess :
      (topic : List ℕ) (w : World E DhtClient) → IsSuccess (lookup codec topic w).0
  unfolding lookup
  lookup-IsSuccess topic w =
      continue-IsSuccess _ _ (bootstrap_if_empty-IsSuccess codec w)
        λ _ w'. gather-IsSuccess (topic_nodes w'.self) topic [] w'
