-- ===== src/Dht/Topics/Announce.antt =====
-- `announce` ends by itself and cannot fail.
use hyperswarm.Base.{ℕ, ◌+◌, ◌*◌, Option, some, List, [], ◌∷◌, arith, length}
use hyperswarm.Net.{World, Result, ok}
use hyperswarm.Net.Calm.{
  Swift, IsTame, done-Calm, done-Swift, continue-Calm, continue-Swift, reflect-Calm, reflect-Swift,
  Swift-mono,
}
use hyperswarm.Net.Success.{IsSuccess, continue-IsSuccess, reflect-IsSuccess}
use hyperswarm.Protocol.{Bencode}
use hyperswarm.Dht.Table.{NodeInfo}
use hyperswarm.Dht.Compact.{PeerAddress}
use hyperswarm.Dht.Client.{DhtError, DhtClient}
use hyperswarm.Dht.Query.{bootstrap_names, get_peers, announce_peer, response_timeout}
use hyperswarm.Dht.Query.Calm.{
  get_peers-Calm, get_peers-Swift, announce_peer-Calm, announce_peer-Swift,
}
use hyperswarm.Dht.Topics.Bootstrap.{
  get_nodes_bound, bootstrap_if_empty-Calm, bootstrap_if_empty-Swift, bootstrap_if_empty-IsSuccess,
}
use hyperswarm.Dht.Topics.{topic_nodes, nodes_per_topic, announce_with, announce_to, announce}

-- What a `get_peers` answered.
abbrev Reply : Type 0 → Type 0
Reply E = Result (DhtError E) (List PeerAddress × Option (List ℕ))

module _ {E : Type 0} (codec : Bencode) where
  announce_with-Calm :
      (node : NodeInfo) (info_hash : List ℕ) (port : ℕ) (reply : Reply E)
      → IsTame (announce_with codec node info_hash port reply)
  unfolding announce_with
  announce_with-Calm node info_hash port (ok (_, some token)) w =
      continue-Calm w _ _
        (reflect-Calm w _ (announce_peer-Calm codec node.addr info_hash port token w))
        λ _ w'. done-Calm tt w'
  announce_with-Calm node info_hash port _ w = done-Calm tt w

  announce_with-Swift :
      (node : NodeInfo) (info_hash : List ℕ) (port : ℕ) (reply : Reply E) (w : World E DhtClient)
      → Swift response_timeout w (announce_with codec node info_hash port reply w)
  unfolding announce_with
  announce_with-Swift node info_hash port (ok (_, some token)) w =
      continue-Swift response_timeout 0 w _ _
        (reflect-Swift response_timeout w _
          (announce_peer-Swift codec node.addr info_hash port token w))
        λ _ w'. done-Swift tt w'
  announce_with-Swift node info_hash port _ w = Swift-mono w _ (omega arith) (done-Swift tt w)

  announce_with-IsSuccess :
      (node : NodeInfo) (info_hash : List ℕ) (port : ℕ) (reply : Reply E) (w : World E DhtClient)
      → IsSuccess (announce_with codec node info_hash port reply w).0
  unfolding announce_with
  announce_with-IsSuccess node info_hash port (ok (_, some token)) w =
      continue-IsSuccess _ _
        (reflect-IsSuccess (DhtError E) (announce_peer codec node.addr info_hash port token w))
        λ _ _. tt
  announce_with-IsSuccess node info_hash port _ w = tt

  announce_to-Calm :
      (nodes : List NodeInfo) (info_hash : List ℕ) (port : ℕ)
      → IsTame (announce_to {E = E} codec nodes info_hash port)
  unfolding announce_to
  announce_to-Calm [] info_hash port w = done-Calm tt w
  announce_to-Calm (node ∷ nodes) info_hash port w =
      continue-Calm w _ _ (reflect-Calm w _ (get_peers-Calm codec node.addr info_hash w))
        λ reply w₁.
          continue-Calm w₁ _ _ (announce_with-Calm node info_hash port reply w₁)
            λ _ w₂. announce_to-Calm nodes info_hash port w₂

  announce_to-Swift :
      (nodes : List NodeInfo) (info_hash : List ℕ) (port : ℕ) (w : World E DhtClient)
      → Swift (10_000 * length nodes) w (announce_to codec nodes info_hash port w)
  unfolding announce_to
  announce_to-Swift [] info_hash port w = Swift-mono w _ (omega arith) (done-Swift tt w)
  announce_to-Swift (node ∷ nodes) info_hash port w = Swift-mono w _ (omega arith) (
      continue-Swift response_timeout (response_timeout + 10_000 * length nodes) w _ _
        (reflect-Swift response_timeout w _ (get_peers-Swift codec node.addr info_hash w))
        λ reply w₁.
          continue-Swift response_timeout (10_000 * length nodes) w₁ _ _
            (announce_with-Swift node info_hash port reply w₁)
            λ _ w₂. announce_to-Swift nodes info_hash port w₂)

  announce_to-IsSuccess :
      (nodes : List NodeInfo) (info_hash : List ℕ) (port : ℕ) (w : World E DhtClient)
      → IsSuccess (announce_to codec nodes info_hash port w).0
  unfolding announce_to
  announce_to-IsSuccess [] info_hash port w = tt
  announce_to-IsSuccess (node ∷ nodes) info_hash port w =
      continue-IsSuccess _ _
        (reflect-IsSuccess (DhtError E) (get_peers codec node.addr info_hash w))
        λ reply w₁.
          continue-IsSuccess _ _ (announce_with-IsSuccess node info_hash port reply w₁)
            λ _ w₂. announce_to-IsSuccess nodes info_hash port w₂

  pub announce-Calm : (topic : List ℕ) (port : ℕ) → IsTame (announce {E = E} codec topic port)
  unfolding announce
  announce-Calm topic port w =
      continue-Calm w _ _ (bootstrap_if_empty-Calm codec w)
        λ _ w'. announce_to-Calm (topic_nodes w'.self) topic port w'

  pub announce-Swift :
      (topic : List ℕ) (port : ℕ) (w : World E DhtClient)
      → Swift (2500 * length (bootstrap_names w.self) + 100_000) w (announce codec topic port w)
  unfolding announce
  announce-Swift topic port w =
      continue-Swift _ 100_000 w _ _ (bootstrap_if_empty-Swift codec w) λ _ w'.
        Swift-mono w' _ (omega (arith, get_nodes_bound w'.self.routing_table nodes_per_topic))
          (announce_to-Swift (topic_nodes w'.self) topic port w')

  pub announce-IsSuccess :
      (topic : List ℕ) (port : ℕ) (w : World E DhtClient)
      → IsSuccess (announce codec topic port w).0
  unfolding announce
  announce-IsSuccess topic port w =
      continue-IsSuccess _ _ (bootstrap_if_empty-IsSuccess codec w)
        λ _ w'. announce_to-IsSuccess (topic_nodes w'.self) topic port w'
