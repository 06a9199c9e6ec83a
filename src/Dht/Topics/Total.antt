-- ===== src/Dht/Topics/Total.antt =====
-- The public operations of the DHT client always return, in bounded time.
use hyperswarm.Base.{ℕ, ◌+◌, ◌*◌, ◌≤◌, ◌≡◌, none, List, length}
use hyperswarm.Net.{World}
use hyperswarm.Net.Success.{IsDone, IsDone-of_success}
use hyperswarm.Protocol.{Bencode}
use hyperswarm.Dht.Client.{DhtClient}
use hyperswarm.Dht.Query.{bootstrap_names, bootstrap}
use hyperswarm.Dht.Query.Calm.{bootstrap-Calm, bootstrap-Swift, bootstrap-IsSuccess}
use hyperswarm.Dht.Topics.{announce, lookup}
use hyperswarm.Dht.Topics.Announce.{announce-Calm, announce-Swift, announce-IsSuccess}
use hyperswarm.Dht.Topics.Lookup.{lookup-Calm, lookup-Swift, lookup-IsSuccess}

module _ {E : Type 0} (codec : Bencode) (w : World E DhtClient) (free : w.limit ≡ none) where
  -- With no timer around it, and whatever the network, the resolver and the sends do, `bootstrap`
  -- returns `Ok` after at most 2.5 seconds for each name that it tries.
  pub bootstrap_total :
      IsDone (bootstrap codec w).0
      × ((bootstrap codec w).1.now ≤ w.now + 2500 * length (bootstrap_names w.self))
  bootstrap_total =
      let s = bootstrap-Swift codec w in
      (
        IsDone-of_success _ w _ free (bootstrap-Calm codec w) s (bootstrap-IsSuccess codec w),
        s.soon,
      )

  -- With no timer around it, `announce` returns `Ok`: after at most the bootstrap's 2.5 seconds a
  -- name and 100 seconds, that is two queries of 5 seconds for each of ten nodes.
  pub announce_total :
      (topic : List ℕ) (port : ℕ)
      → IsDone (announce codec topic port w).0
        × ((announce codec topic port w).1.now
            ≤ w.now + (2500 * length (bootstrap_names w.self) + 100_000))
  announce_total topic port =
      let s = announce-Swift codec topic port w in
      (
        IsDone-of_success _ w _ free (announce-Calm codec topic port w) s
            (announce-IsSuccess codec topic port w),
        s.soon,
      )

  -- With no timer around it, `lookup` returns `Ok`: after at most the bootstrap's 2.5 seconds a
  -- name and 50 seconds, that is one query of 5 seconds for each of ten nodes.
  pub lookup_total :
      (topic : List ℕ)
      → IsDone (lookup codec topic w).0
        × ((lookup codec topic w).1.now ≤ w.now + (2500 * length (bootstrap_names w.self) + 50_000))
  lookup_total topic =
      let s = lookup-Swift codec topic w in
      (
        IsDone-of_success _ w _ free (lookup-Calm codec topic w) s (lookup-IsSuccess codec topic w),
        s.soon,
      )

  -- With no timer around it, and whatever the network, the resolver and the sends do: `bootstrap`
  -- returns `Ok` after at most 2.5 seconds for each name that it tries; `announce` after that and
  -- 100 seconds, two queries of 5 seconds for each of ten nodes; and `lookup` after that and 50
  -- seconds, one query for each.
  pub client_total :
      (topic : List ℕ) (port : ℕ)
      → (IsDone (bootstrap codec w).0
          × ((bootstrap codec w).1.now ≤ w.now + 2500 * length (bootstrap_names w.self)))
        × (IsDone (announce codec topic port w).0
            × ((announce codec topic port w).1.now
                ≤ w.now + (2500 * length (bootstrap_names w.self) + 100_000)))
        × (IsDone (lookup codec topic w).0
            × ((lookup codec topic w).1.now
                ≤ w.now + (2500 * length (bootstrap_names w.self) + 50_000)))
  client_total topic port = (bootstrap_total, announce_total topic port, lookup_total topic)
