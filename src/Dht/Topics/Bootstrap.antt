-- ===== src/Dht/Topics/Bootstrap.antt =====
-- The bootstrap that `announce` and `lookup` begin with ends by itself and cannot fail.
use hyperswarm.Base.{ℕ, ◌*◌, ◌≤◌, arith, length, length-take, is_empty}
use hyperswarm.Net.{World}
use hyperswarm.Net.Calm.{Swift, IsTame, done-Calm, done-Swift, if-Calm, if-Swift, Swift-mono}
use hyperswarm.Net.Success.{IsSuccess, if-IsSuccess}
use hyperswarm.Protocol.{Bencode}
use hyperswarm.Dht.Table.{RoutingTable, get_nodes}
use hyperswarm.Dht.Client.{DhtClient}
use hyperswarm.Dht.Query.{bootstrap_names}
use hyperswarm.Dht.Query.Calm.{bootstrap-Calm, bootstrap-Swift, bootstrap-IsSuccess}
use hyperswarm.Dht.Topics.{topic_nodes, bootstrap_if_empty}

pub get_nodes_bound : (rt : RoutingTable) (n : ℕ) → length (get_nodes rt n) ≤ n
unfolding get_nodes
get_nodes_bound rt n = omega (arith, length-take n rt.nodes)

module _ {E : Type 0} (codec : Bencode) where
  pub bootstrap_if_empty-Calm : IsTame (bootstrap_if_empty {E = E} codec)
  unfolding bootstrap_if_empty
  bootstrap_if_empty-Calm w =
      if-Calm (is_empty (topic_nodes w.self)) _ _ w (bootstrap-Calm codec w) (done-Calm tt w)

  pub bootstrap_if_empty-Swift :
      (w : World E DhtClient)
      → Swift (2500 * length (bootstrap_names w.self)) w (bootstrap_if_empty codec w)
  unfolding bootstrap_if_empty
  bootstrap_if_empty-Swift w =
      if-Swift _ (is_empty (topic_nodes w.self)) _ _ w (bootstrap-Swift codec w)
        (Swift-mono w _ (omega arith) (done-Swift tt w))

  pub bootstrap_if_empty-IsSuccess :
      (w : World E DhtClient) → IsSuccess (bootstrap_if_empty codec w).0
  unfolding bootstrap_if_empty
  bootstrap_if_empty-IsSuccess w =
      if-IsSuccess (is_empty (topic_nodes w.self)) _ _ w (bootstrap-IsSuccess codec w) tt
