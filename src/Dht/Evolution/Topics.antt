-- ===== src/Dht/Evolution/Topics.antt =====
-- `bootstrap`, `announce` and `lookup` take steps of `Evolution` only.
use hyperswarm.Base.{ℕ, Option, some, List, [], ◌∷◌, ◌++◌, String, is_empty}
use hyperswarm.Net.{SocketAddr, Result, ok, map_err, lookup_host}
use hyperswarm.Net.Moves.{
  IsMove, continue-Moves, convert-Moves, reflect-Moves, timeout-Moves, if-Moves, done-Moves,
  lookup_host-Moves,
}
use hyperswarm.Protocol.{Bencode}
use hyperswarm.Dht.Table.{NodeInfo}
use hyperswarm.Dht.Compact.{PeerAddress}
use hyperswarm.Dht.Client.{DhtError, io}
use hyperswarm.Dht.Query.{
  resolve_timeout, bootstrap_ping_timeout, bootstrap_names, ping_first, bootstrap_from, bootstrap,
}
use hyperswarm.Dht.Topics.{
  topic_nodes, bootstrap_if_empty, announce_with, announce_to, announce, gather, lookup,
  found_peers,
}
use hyperswarm.Dht.Evolution.{Reach, Reach-IsPreorder}
use hyperswarm.Dht.Evolution.Operations.{ping-Reach, get_peers-Reach, announce_peer-Reach}

module _ {E : Type 0} (codec : Bencode) where
  ping_first-Reach :
      (found : Option (Result (DhtError E) (List SocketAddr)))
      → IsMove Reach (ping_first codec found)
  unfolding ping_first
  ping_first-Reach (some (ok (addr ∷ _))) w =
      continue-Moves Reach-IsPreorder w _ _
        (timeout-Moves bootstrap_ping_timeout _ (ping-Reach codec addr) w)
        λ x w'. done-Moves Reach-IsPreorder tt w'
  ping_first-Reach _ w = done-Moves Reach-IsPreorder tt w

  bootstrap_from-Reach : (names : List String) → IsMove Reach (bootstrap_from {E = E} codec names)
  unfolding bootstrap_from
  bootstrap_from-Reach [] w = done-Moves Reach-IsPreorder tt w
  bootstrap_from-Reach (name ∷ names) w =
      continue-Moves Reach-IsPreorder w _ _
        (timeout-Moves resolve_timeout (map_err io (lookup_host name))
          (λ v. convert-Moves v _ io (lookup_host-Moves Reach-IsPreorder name v)) w)
        λ found w₁.
          continue-Moves Reach-IsPreorder w₁ _ _ (ping_first-Reach found w₁)
            λ _ w₂. bootstrap_from-Reach names w₂

  pub bootstrap-Reach : IsMove Reach (bootstrap {E = E} codec)
  unfolding bootstrap
  bootstrap-Reach w = bootstrap_from-Reach (bootstrap_names w.self) w

  bootstrap_if_empty-Reach : IsMove Reach (bootstrap_if_empty {E = E} codec)
  unfolding bootstrap_if_empty
  bootstrap_if_empty-Reach w =
      if-Moves (is_empty (topic_nodes w.self)) _ _ w (bootstrap-Reach w)
        (done-Moves Reach-IsPreorder tt w)

  announce_with-Reach :
      (node : NodeInfo) (info_hash : List ℕ) (port : ℕ)
      → (reply : Result (DhtError E) (List PeerAddress × Option (List ℕ)))
      → IsMove Reach (announce_with codec node info_hash port reply)
  unfolding announce_with
  announce_with-Reach node info_hash port (ok (_, some token)) w =
      continue-Moves Reach-IsPreorder w _ _
        (reflect-Moves w _ (announce_peer-Reach codec node.addr info_hash port token w))
        λ _ w'. done-Moves Reach-IsPreorder tt w'
  announce_with-Reach node info_hash port _ w = done-Moves Reach-IsPreorder tt w

  announce_to-Reach :
      (nodes : List NodeInfo) (info_hash : List ℕ) (port : ℕ)
      → IsMove Reach (announce_to {E = E} codec nodes info_hash port)
  unfolding announce_to
  announce_to-Reach [] info_hash port w = done-Moves Reach-IsPreorder tt w
  announce_to-Reach (node ∷ nodes) info_hash port w =
      continue-Moves Reach-IsPreorder w _ _
        (reflect-Moves w _ (get_peers-Reach codec node.addr info_hash w))
        λ reply w₁.
          continue-Moves Reach-IsPreorder w₁ _ _ (announce_with-Reach node info_hash port reply w₁)
            λ _ w₂. announce_to-Reach nodes info_hash port w₂

  pub announce-Reach :
      (topic : List ℕ) (port : ℕ) → IsMove Reach (announce {E = E} codec topic port)
  unfolding announce
  announce-Reach topic port w =
      continue-Moves Reach-IsPreorder w _ _ (bootstrap_if_empty-Reach w)
        λ _ w'. announce_to-Reach (topic_nodes w'.self) topic port w'

  gather-Reach :
      (nodes : List NodeInfo) (info_hash : List ℕ) (found : List PeerAddress)
      → IsMove Reach (gather {E = E} codec nodes info_hash found)
  unfolding gather
  gather-Reach [] info_hash found w = done-Moves Reach-IsPreorder found w
  gather-Reach (node ∷ nodes) info_hash found w =
      continue-Moves Reach-IsPreorder w _ _
        (reflect-Moves w _ (get_peers-Reach codec node.addr info_hash w))
        λ reply w'. gather-Reach nodes info_hash (found ++ found_peers reply) w'

  pub lookup-Reach : (topic : List ℕ) → IsMove Reach (lookup {E = E} codec topic)
  unfolding lookup
  lookup-Reach topic w =
      continue-Moves Reach-IsPreorder w _ _ (bootstrap_if_empty-Reach w)
        λ _ w'. gather-Reach (topic_nodes w'.self) topic [] w'
