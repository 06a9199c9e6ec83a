-- ===== src/Dht/Deaf/Topics.antt =====
-- `bootstrap`, `announce` and `lookup` of a deaf client.
use hyperswarm.Base.{ℕ, ◌≡◌, refl, Option, none, some, List, [], ◌∷◌, String, arith, is_empty}
use mathlib.Core.List.{append-nil}
use hyperswarm.Net.{
  World, M, Outcome, done, fail, elapsed, pending, panicked, SocketAddr, Result, ok, err, Lookup,
  answered, refused, silent, continue, reflect, lookup_host, resolve, map_err,
}
use hyperswarm.Net.Drains.{Drains, stays-Drains}
use hyperswarm.Protocol.{Bencode}
use hyperswarm.Dht.Table.{NodeInfo, RoutingTable}
use hyperswarm.Dht.Compact.{PeerAddress}
use hyperswarm.Dht.Client.{DhtError, io, DhtClient}
use hyperswarm.Dht.Query.{
  resolve_timeout, bootstrap_ping_timeout, bootstrap_names, ping, ping_first, bootstrap_from,
  bootstrap,
}
use hyperswarm.Dht.Topics.{
  topic_nodes, bootstrap_if_empty, announce_with, announce_to, announce, gather, lookup,
}
use hyperswarm.Dht.Deaf.{
  Deaf, StaysDeaf, NotDone, of_Drains-StaysDeaf, continue-StaysDeaf, convert-StaysDeaf,
  reflect-StaysDeaf, timeout-StaysDeaf, if-StaysDeaf,
}
use hyperswarm.Dht.Deaf.Queries.{ping-StaysDeaf, get_peers-StaysDeaf, announce_peer-StaysDeaf}

module _ {E : Type 0} where
  resolve-Drains : (a : Lookup E) (w : World E DhtClient) → Drains w (resolve a w)
  resolve-Drains (answered delay addrs) w = stays-Drains w _ (ground arith) (ground arith)
  resolve-Drains (refused delay e) w = stays-Drains w _ (ground arith) (ground arith)
  resolve-Drains silent w = stays-Drains w _ (ground arith) (ground arith)

  lookup_host-Drains : (name : String) (w : World E DhtClient) → Drains w (lookup_host name w)
  unfolding lookup_host
  lookup_host-Drains name w = resolve-Drains (w.dns w.now name) w

  -- A list, when one is returned, is just that one.
  abbrev pub Gives : List PeerAddress → Outcome (DhtError E) (List PeerAddress) → Type 0
  Gives peers (done found) = found ≡ peers
  Gives peers _ = Unit

module _ {E : Type 0} (codec : Bencode) (table : RoutingTable) where
  ping_first-StaysDeaf :
      (found : Option (Result (DhtError E) (List SocketAddr))) (w : World E DhtClient)
      → Deaf codec table w
      → StaysDeaf codec table (ping_first codec found w)
  unfolding ping_first
  ping_first-StaysDeaf none w d = record { deaf = d }
  ping_first-StaysDeaf (some (err e)) w d = record { deaf = d }
  ping_first-StaysDeaf (some (ok [])) w d = record { deaf = d }
  ping_first-StaysDeaf (some (ok (addr ∷ rest))) w d =
      continue-StaysDeaf codec table _ _
        (timeout-StaysDeaf codec table bootstrap_ping_timeout (ping codec addr)
          (λ v h. (ping-StaysDeaf codec table addr v h).0) w d)
        λ x v h. record { deaf = h }

  bootstrap_from-StaysDeaf :
      (names : List String) (w : World E DhtClient)
      → Deaf codec table w
      → StaysDeaf codec table (bootstrap_from codec names w)
  unfolding bootstrap_from
  bootstrap_from-StaysDeaf [] w d = record { deaf = d }
  bootstrap_from-StaysDeaf (name ∷ names) w d =
      continue-StaysDeaf codec table _ _
        (timeout-StaysDeaf codec table resolve_timeout (map_err io (lookup_host name))
          (λ v h.
            convert-StaysDeaf codec table _ io
              (of_Drains-StaysDeaf codec table v _ (lookup_host-Drains name v) h))
          w d)
        λ found v h.
          continue-StaysDeaf codec table _ _ (ping_first-StaysDeaf found v h)
            λ _ u k. bootstrap_from-StaysDeaf names u k

  pub bootstrap-StaysDeaf :
      (w : World E DhtClient) → Deaf codec table w → StaysDeaf codec table (bootstrap codec w)
  unfolding bootstrap
  bootstrap-StaysDeaf w d = bootstrap_from-StaysDeaf (bootstrap_names w.self) w d

  bootstrap_if_empty-StaysDeaf :
      (w : World E DhtClient)
      → Deaf codec table w
      → StaysDeaf codec table (bootstrap_if_empty codec w)
  unfolding bootstrap_if_empty
  bootstrap_if_empty-StaysDeaf w d =
      if-StaysDeaf codec table (is_empty (topic_nodes w.self)) _ _ w (bootstrap-StaysDeaf w d)
        (record { deaf = d })

  announce_with-StaysDeaf :
      (node : NodeInfo) (info_hash : List ℕ) (port : ℕ)
      → (reply : Result (DhtError E) (List PeerAddress × Option (List ℕ))) (w : World E DhtClient)
      → Deaf codec table w
      → StaysDeaf codec table (announce_with codec node info_hash port reply w)
  unfolding announce_with
  announce_with-StaysDeaf node info_hash port (ok (peers, some token)) w d =
      continue-StaysDeaf codec table _ _
        (reflect-StaysDeaf codec table _
          (announce_peer-StaysDeaf codec table node.addr info_hash port token w d).0)
        λ x v h. record { deaf = h }
  announce_with-StaysDeaf node info_hash port (ok (peers, none)) w d = record { deaf = d }
  announce_with-StaysDeaf node info_hash port (err e) w d = record { deaf = d }

  announce_to-StaysDeaf :
      (nodes : List NodeInfo) (info_hash : List ℕ) (port : ℕ) (w : World E DhtClient)
      → Deaf codec table w
      → StaysDeaf codec table (announce_to codec nodes info_hash port w)
  unfolding announce_to
  announce_to-StaysDeaf [] info_hash port w d = record { deaf = d }
  announce_to-StaysDeaf (node ∷ nodes) info_hash port w d =
      continue-StaysDeaf codec table _ _
        (reflect-StaysDeaf codec table _
          (get_peers-StaysDeaf codec table node.addr info_hash w d).0)
        λ reply v h.
          continue-StaysDeaf codec table _ _ (announce_with-StaysDeaf node info_hash port reply v h)
            λ _ u k. announce_to-StaysDeaf nodes info_hash port u k

  pub announce-StaysDeaf :
      (topic : List ℕ) (port : ℕ) (w : World E DhtClient)
      → Deaf codec table w
      → StaysDeaf codec table (announce codec topic port w)
  unfolding announce
  announce-StaysDeaf topic port w d =
      continue-StaysDeaf codec table _ _ (bootstrap_if_empty-StaysDeaf w d)
        λ _ v h. announce_to-StaysDeaf (topic_nodes v.self) topic port v h

  -- A run that leaves the client deaf, and returns just that list, if it returns one.
  pub record Yields (peers : List PeerAddress)
      (r : Outcome (DhtError E) (List PeerAddress) × World E DhtClient) : Type 0 where
    pub deaf : Deaf codec table r.1
    pub gives : Gives peers r.0

  after-Yields :
      (peers : List PeerAddress) (r : Outcome (DhtError E) (Unit {0}) × World E DhtClient)
      → (f : Unit {0} → M E DhtClient (DhtError E) (List PeerAddress)) → StaysDeaf codec table r
      → ((v : World E DhtClient) → Deaf codec table v → Yields peers (f tt v))
      → Yields peers (continue r f)
  after-Yields peers (done x, v) f h k = k v h.deaf
  after-Yields peers (fail e, v) f h k = record { deaf = h.deaf; gives = tt }
  after-Yields peers (elapsed, v) f h k = record { deaf = h.deaf; gives = tt }
  after-Yields peers (pending, v) f h k = record { deaf = h.deaf; gives = tt }
  after-Yields peers (panicked, v) f h k = record { deaf = h.deaf; gives = tt }

  unanswered-Yields :
      {X : Type 0} (peers : List PeerAddress) (r : Outcome (DhtError E) X × World E DhtClient)
      → (f : Result (DhtError E) X → M E DhtClient (DhtError E) (List PeerAddress))
      → StaysDeaf codec table r
      → NotDone r.0
      → ((e : DhtError E) (v : World E DhtClient) → Deaf codec table v → Yields peers (f (err e) v))
      → Yields peers (continue (reflect r) f)
  unanswered-Yields peers (done x, v) f h n k = absurd n
  unanswered-Yields peers (fail e, v) f h n k = k e v h.deaf
  unanswered-Yields peers (elapsed, v) f h n k = record { deaf = h.deaf; gives = tt }
  unanswered-Yields peers (pending, v) f h n k = record { deaf = h.deaf; gives = tt }
  unanswered-Yields peers (panicked, v) f h n k = record { deaf = h.deaf; gives = tt }

  gather-Yields :
      (nodes : List NodeInfo) (info_hash : List ℕ) (peers : List PeerAddress)
      → (w : World E DhtClient) → Deaf codec table w
      → Yields peers (gather codec nodes info_hash peers w)
  unfolding gather
  gather-Yields [] info_hash peers w d = record { deaf = d; gives = refl }
  gather-Yields (node ∷ nodes) info_hash peers w d =
      let (stays, never) = get_peers-StaysDeaf codec table node.addr info_hash w d in
      unanswered-Yields peers _ _ stays never
        λ e v h. rw (append-nil peers) (gather-Yields nodes info_hash peers v h)

  pub lookup-Yields :
      (topic : List ℕ) (w : World E DhtClient)
      → Deaf codec table w
      → Yields [] (lookup codec topic w)
  unfolding lookup
  lookup-Yields topic w d =
      after-Yields [] _ _ (bootstrap_if_empty-StaysDeaf w d)
        λ v h. gather-Yields (topic_nodes v.self) topic [] v h
