-- ===== src/Swarm/Joining.antt =====
-- `Hyperswarm::join` always returns.
use hyperswarm.Base.{
  ℕ, ◌+◌, ◌*◌, ◌≤◌, ◌≡◌, refl, ◌∙◌, ap, true, none, List, arith, length, same_bytes_refl, ◌||◌,
}
use hyperswarm.Net.{World, M, Outcome, done, fail, elapsed, pending, panicked, convert}
use hyperswarm.Net.Calm.{Calm, Swift, IsTame, convert-Calm, convert-Swift}
use hyperswarm.Net.Ends.{Ends, continue-Ends, convert-Ends, self-Ends}
use hyperswarm.Net.Moves.{Moves, convert-Moves}
use hyperswarm.Net.Success.{IsDone, IsSuccess, IsDone-of_success, continue-IsSuccess}
use hyperswarm.Net.Zoom.{with_self, zoom, zoom-Calm, zoom-Swift}
use hyperswarm.Protocol.{Bencode}
use hyperswarm.Dht.Client.{DhtClient, DhtError}
use hyperswarm.Dht.Query.{bootstrap_names}
use hyperswarm.Dht.Topics.{announce, lookup}
use hyperswarm.Dht.Topics.Announce.{announce-Calm, announce-Swift, announce-IsSuccess}
use hyperswarm.Dht.Topics.Lookup.{lookup-Calm, lookup-Swift, lookup-IsSuccess}
use hyperswarm.Dht.Evolution.{Reach-bootstrap_nodes}
use hyperswarm.Dht.Evolution.Topics.{announce-Reach}
use hyperswarm.Discovery.{
  Topic, DiscoveryError, Hyperswarm, write_dht, write_topics, has_topic, insert_topic, manager_join,
  on_dht,
}
use hyperswarm.Swarm.{Display, join}
use hyperswarm.Swarm.Membership.{join-topics, has_topic-insert}

module _ {E S Err X : Type 0} where
  of_Swift-Ends :
      (last k : ℕ) (w : World E S) (r : Outcome Err X × World E S)
      → Calm w r
      → Swift k w r
      → w.now + k ≤ last
      → Ends last w r
  of_Swift-Ends last k w r c s h = record { calm = c; ended = s.ended; by = ground (arith, s.soon) }

module _ {E S Err X Y : Type 0} where
  convert-IsSuccess :
      (r : Outcome Err X × World E S) (f : Err → Y) → IsSuccess r.0 → IsSuccess (convert f r).0
  convert-IsSuccess (done x, w') f h = tt
  convert-IsSuccess (elapsed, w') f h = tt
  convert-IsSuccess (pending, w') f h = tt
  convert-IsSuccess (panicked, w') f h = tt
  convert-IsSuccess (fail e, w') f h = absurd h

-- The client's bootstrap names stay.
abbrev SameNames : Hyperswarm → Hyperswarm → Type 0
SameNames s t = t.dht.bootstrap_nodes ≡ s.dht.bootstrap_nodes

module _ {E : Type 0} (codec : Bencode) where
  on_dht-Calm :
      {X : Type 0} (m : M E DhtClient (DhtError E) X)
      → IsTame m
      → (w : World E Hyperswarm) → Calm w (on_dht codec m w)
  on_dht-Calm m h w =
      convert-Calm w _ DiscoveryError.dht
        (zoom-Calm (λ (s : Hyperswarm). s.dht) write_dht m w (h _))

  on_dht-Swift :
      {X : Type 0} (m : M E DhtClient (DhtError E) X) (k : ℕ) (w : World E Hyperswarm)
      → Swift k (with_self w.self.dht w) (m (with_self w.self.dht w))
      → Swift k w (on_dht codec m w)
  on_dht-Swift m k w h =
      convert-Swift k w _ DiscoveryError.dht
        (zoom-Swift (λ (s : Hyperswarm). s.dht) write_dht m k w h)

  on_dht-IsSuccess :
      {X : Type 0} (m : M E DhtClient (DhtError E) X) (w : World E Hyperswarm)
      → IsSuccess (m (with_self w.self.dht w)).0
      → IsSuccess (on_dht codec m w).0
  on_dht-IsSuccess m w h =
      convert-IsSuccess (zoom (λ (s : Hyperswarm). s.dht) write_dht m w) DiscoveryError.dht h

  announce-SameNames :
      (topic : List ℕ) (w : World E Hyperswarm)
      → Moves SameNames w (on_dht codec (announce codec topic 0) w)
  announce-SameNames topic w =
      let m = announce-Reach codec topic 0 (with_self w.self.dht w) in
      convert-Moves w _ DiscoveryError.dht (record { moved = Reach-bootstrap_nodes m.moved })

-- The names that a bootstrap would try.
abbrev pub name_count : DhtClient → ℕ
name_count c = length (bootstrap_names c)

name_count-eq :
    (c d : DhtClient) → c.bootstrap_nodes ≡ d.bootstrap_nodes → name_count c ≡ name_count d
name_count-eq c d e = rw e refl

module _ {E : Type 0} (codec : Bencode) where
  announce-Ends :
      (last : ℕ) (topic : List ℕ) (w : World E Hyperswarm)
      → w.now + (2500 * name_count w.self.dht + 100_000) ≤ last
      → Ends last w (on_dht codec (announce codec topic 0) w)
  announce-Ends last topic w h =
      of_Swift-Ends last _ w _
        (on_dht-Calm codec (announce codec topic 0) (announce-Calm codec topic 0) w)
        (on_dht-Swift codec (announce codec topic 0) _ w (announce-Swift codec topic 0 _)) h

  lookup-Ends :
      (last : ℕ) (topic : List ℕ) (w : World E Hyperswarm)
      → w.now + (2500 * name_count w.self.dht + 50_000) ≤ last
      → Ends last w (on_dht codec (lookup codec topic) w)
  lookup-Ends last topic w h =
      of_Swift-Ends last _ w _ (on_dht-Calm codec (lookup codec topic) (lookup-Calm codec topic) w)
        (on_dht-Swift codec (lookup codec topic) _ w (lookup-Swift codec topic _)) h

  -- What the announcement of a join has left.
  announced :
      (topic : List ℕ) (w : World E Hyperswarm) (x : Unit {0}) (u : World E Hyperswarm)
      → on_dht codec (announce codec topic 0) w ≡ (done x, u)
      → (u.now ≤ w.now + (2500 * name_count w.self.dht + 100_000))
        × (name_count u.self.dht ≡ name_count w.self.dht)
  announced topic w x u e =
      let s =
        on_dht-Swift codec (announce codec topic 0) _ w
          (announce-Swift codec topic 0 (with_self w.self.dht w)) in
      let m = announce-SameNames codec topic w in
      (rw e at s.soon, name_count-eq u.self.dht w.self.dht (rw e at m.moved))

  -- The first moment by which a `join` has ended for certain.
  abbrev pub join_deadline : World E Hyperswarm → ℕ
  join_deadline w = w.now + (5000 * name_count w.self.dht + 150_000)

  manager_join-Ends :
      (topic : Topic) (w : World E Hyperswarm)
      → Ends (join_deadline w) w (manager_join codec topic w)
  unfolding manager_join
  manager_join-Ends topic w =
      let s = write_topics (insert_topic topic w.self.discovery.topics) w.self in
      let v = record w { self = s } in
      self-Ends _ s w _ (
        continue-Ends (join_deadline w) v _ _
          (announce-Ends (join_deadline w) topic.bytes v (omega arith))
          λ x u e.
            let (soon, names) = announced topic.bytes v x u e in
            continue-Ends (join_deadline w) u _ _
              (lookup-Ends (join_deadline w) topic.bytes u (omega arith)) λ x' u' e'. ground arith)

  manager_join-IsSuccess :
      (topic : Topic) (w : World E Hyperswarm) → IsSuccess (manager_join codec topic w).0
  unfolding manager_join
  manager_join-IsSuccess topic w =
      continue-IsSuccess _ _
        (on_dht-IsSuccess codec (announce codec topic.bytes 0) _
          (announce-IsSuccess codec topic.bytes 0 _))
        λ x u.
          continue-IsSuccess _ _
            (on_dht-IsSuccess codec (lookup codec topic.bytes) u
              (lookup-IsSuccess codec topic.bytes _))
            λ x' u'. tt

module _ {E : Type 0} (display : Display E) (codec : Bencode) (w : World E Hyperswarm) where
  join-Ends : (topic : Topic) → Ends (join_deadline codec w) w (join display codec topic w)
  unfolding join
  join-Ends topic = convert-Ends _ w _ _ (manager_join-Ends codec topic w)

  join-IsSuccess : (topic : Topic) → IsSuccess (join display codec topic w).0
  unfolding join
  join-IsSuccess topic = convert-IsSuccess _ _ (manager_join-IsSuccess codec topic w)

  -- With no timer around it, and whatever the network, the resolver and the sends do, `join`
  -- returns `Ok`: after at most 150 seconds and two bootstraps of 2.5 seconds a name. The topic is
  -- then recorded.
  pub join_total :
      (topic : Topic)
      → w.limit ≡ none
      → IsDone (join display codec topic w).0
        × ((join display codec topic w).1.now ≤ w.now + (5000 * name_count w.self.dht + 150_000))
        × (has_topic topic (join display codec topic w).1.self.discovery.topics ≡ true)
  join_total topic free =
      let e = join-Ends topic in
      let by : (join display codec topic w).1.now ≤ join_deadline codec w = omega (arith, e.by) in
      let s : Swift (5000 * name_count w.self.dht + 150_000) w (join display codec topic w) =
        record { ended = e.ended; soon = by } in
      (
        IsDone-of_success _ w _ free e.calm s (join-IsSuccess topic),
        by,
        ap (has_topic topic) (join-topics display codec topic w)
            ∙ has_topic-insert topic topic w.self.discovery.topics
            ∙ ap (λ b. b || has_topic topic w.self.discovery.topics) (same_bytes_refl topic.bytes),
      )
