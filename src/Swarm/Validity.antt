-- ===== src/Swarm/Validity.antt =====
-- What any history of calls keeps of a swarm.
use hyperswarm.Base.{ℕ, ◌≡◌, refl, ◌∙◌, subst, sym, ap, List, [], ◌∷◌, arith, length}
use hyperswarm.Net.{World, M, Result, ok}
use hyperswarm.Net.Moves.{IsPreorder, Moves, IsMove, continue-Moves, convert-Moves, done-Moves}
use hyperswarm.Net.Zoom.{with_self}
use hyperswarm.Protocol.{Bencode}
use hyperswarm.Dht.Client.{DhtClient, DhtError, new_client}
use hyperswarm.Dht.Topics.{flush}
use hyperswarm.Dht.Evolution.{Reach, here, Reach-trans, Reach-IsValid, IsValid}
use hyperswarm.Dht.Evolution.Topics.{announce-Reach, lookup-Reach}
use hyperswarm.Discovery.{
  Topic, DiscoveryConfig, DiscoveryError, Hyperswarm, write_topics, insert_topic, manager_join,
  manager_leave, on_dht,
}
use hyperswarm.Swarm.{Display, SwarmConfig, SwarmError, join, leave, flush_swarm, new_swarm}
use hyperswarm.Swarm.Membership.{SwarmCall, joined, left, flushed, swarm_call, run_swarm}

-- The client has taken some of its steps, and the configuration is as before.
pub record Advance (s t : Hyperswarm) : Type 0 where
  pub steps : Reach s.dht t.dht
  pub config : t.discovery.config ≡ s.discovery.config

Advance-IsPreorder : IsPreorder Advance
Advance-IsPreorder = record {
  stays = λ s t e. subst (Advance s) (sym e) (record { steps = here; config = refl });
  trans = λ s t u p q. record { steps = Reach-trans p.steps q.steps; config = q.config ∙ p.config };
}

module _ {E : Type 0} (display : Display E) (codec : Bencode) where
  on_dht-Advance :
      {X : Type 0} (m : M E DhtClient (DhtError E) X)
      → IsMove Reach m
      → (w : World E Hyperswarm) → Moves Advance w (on_dht codec m w)
  on_dht-Advance m h w =
      let c = h (with_self w.self.dht w) in
      convert-Moves w _ DiscoveryError.dht
        (record { moved = record { steps = c.moved; config = refl } })

  join-Advance :
      (topic : Topic) (w : World E Hyperswarm) → Advance w.self (join display codec topic w).1.self
  unfolding join manager_join
  join-Advance topic w =
      let p = Advance-IsPreorder in
      let s = write_topics (insert_topic topic w.self.discovery.topics) w.self in
      let v = record w { self = s } in
      let m =
        convert-Moves v _ (λ e. SwarmError.dht (display.discovery_text e))
          (continue-Moves p v _ _ (on_dht-Advance _ (announce-Reach codec topic.bytes 0) v) λ x u.
            continue-Moves p u _ _ (on_dht-Advance _ (lookup-Reach codec topic.bytes) u)
              λ x' u'. done-Moves p tt u') in
      p.trans _ s _ (record { steps = here; config = refl }) m.moved

  swarm_call-Advance :
      (c : SwarmCall) (w : World E Hyperswarm) → Advance w.self (swarm_call display codec c w).self
  unfolding swarm_call leave manager_leave flush_swarm flush
  swarm_call-Advance (joined topic) w = join-Advance topic w
  swarm_call-Advance (left topic) w = record { steps = here; config = refl }
  swarm_call-Advance flushed w = record { steps = here; config = refl }

  run_swarm-Advance :
      (calls : List SwarmCall) (w : World E Hyperswarm)
      → Advance w.self (run_swarm display codec calls w).self
  unfolding run_swarm
  run_swarm-Advance [] w = record { steps = here; config = refl }
  run_swarm-Advance (c ∷ calls) w =
      IsPreorder.trans Advance-IsPreorder _ _ _ (swarm_call-Advance c w)
        (run_swarm-Advance calls (swarm_call display codec c w))

  new_swarm-IsValid :
      (bind : ℕ → Result E (Unit {0})) (random_id : List ℕ) (config : SwarmConfig)
      → (s : Hyperswarm) → length random_id ≡ 20
      → new_swarm display bind random_id config ≡ ok s
      → IsValid s.dht × (s.discovery.config.max_peers ≡ config.max_peers)
  unfolding new_swarm new_client
  new_swarm-IsValid bind random_id config s size e = ground arith

  -- A swarm that was created with a node id of 20 bytes keeps a valid client, whatever calls of
  -- `join`, `leave` and `flush` are made on it and whatever the network does: its table has 100
  -- nodes at most, all under ids of 20 bytes, and its transaction counter is a 16-bit word. Its
  -- configuration stays too.
  pub run_swarm-IsValid :
      (bind : ℕ → Result E (Unit {0})) (random_id : List ℕ) (config : SwarmConfig)
      → (calls : List SwarmCall) (w : World E Hyperswarm) → length random_id ≡ 20
      → new_swarm display bind random_id config ≡ ok w.self
      → IsValid (run_swarm display codec calls w).self.dht
        × ((run_swarm display codec calls w).self.discovery.config.max_peers ≡ config.max_peers)
  run_swarm-IsValid bind random_id config calls w size created =
      let a = run_swarm-Advance calls w in
      let (valid, same) = new_swarm-IsValid bind random_id config w.self size created in
      (Reach-IsValid a.steps valid, ap (λ (c : DiscoveryConfig). c.max_peers) a.config ∙ same)
