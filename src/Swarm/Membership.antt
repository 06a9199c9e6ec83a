-- ===== src/Swarm/Membership.antt =====
-- Which topics a swarm is in, after any history of calls.
use hyperswarm.Base.{
  ℕ, ◌≡◌, refl, ◌∙◌, ap, sym, Bool, true, false, ◌||◌, List, [], ◌∷◌, arith, same_bytes,
  same_bytes_iff, if◌then◌else◌, Bool-cases, inl, inr,
}
use hyperswarm.Net.{World, M}
use hyperswarm.Net.Moves.{IsPreorder, Moves, continue-Moves, convert-Moves, done-Moves}
use hyperswarm.Protocol.{Bencode}
use hyperswarm.Dht.Client.{DhtClient, DhtError}
use hyperswarm.Dht.Topics.{announce, lookup, flush}
use hyperswarm.Discovery.{
  Topic, DiscoveryError, DiscoveryManager, Hyperswarm, write_topics, has_topic, insert_topic,
  remove_topic, manager_join, manager_leave, on_dht,
}
use hyperswarm.Swarm.{Display, SwarmError, join, leave, flush_swarm}

pub has_topic-insert :
    (t u : Topic) (topics : List Topic)
    → has_topic t (insert_topic u topics) ≡ same_bytes u.bytes t.bytes || has_topic t topics
unfolding insert_topic has_topic
has_topic-insert t u topics = elim (Bool-cases (has_topic u topics)) [
  | inl known ↦ elim (Bool-cases (same_bytes u.bytes t.bytes)) [
    | inl same ↦
        let e : u ≡ t = ground (arith, (same_bytes_iff u.bytes t.bytes).0 same) in
        rw (known, same) (rw e at known)
    | inr differs ↦ rw (known, differs) refl
  ]
  | inr new ↦ rw new refl
]

-- Equal bytes have the same comparisons.
same_bytes_trans :
    (xs ys zs : List ℕ) → same_bytes xs ys ≡ true → same_bytes xs zs ≡ same_bytes ys zs
same_bytes_trans xs ys zs e = ap (λ l. same_bytes l zs) ((same_bytes_iff xs ys).0 e)

-- What equals two lists of bytes makes them equal.
same_bytes_euclid :
    (xs ys zs : List ℕ)
    → same_bytes xs zs ≡ true
    → same_bytes ys zs ≡ true
    → same_bytes xs ys ≡ true
same_bytes_euclid xs ys zs e f =
    (same_bytes_iff xs ys).1 ((same_bytes_iff xs zs).0 e ∙ sym ((same_bytes_iff ys zs).0 f))

pub has_topic-remove :
    (t u : Topic) (topics : List Topic)
    → has_topic t (remove_topic u topics)
      ≡ (if same_bytes u.bytes t.bytes then false else has_topic t topics)
unfolding remove_topic has_topic
has_topic-remove t u [] = ground arith
has_topic-remove t u (v ∷ topics) =
    let ih = has_topic-remove t u topics in
    elim (Bool-cases (same_bytes v.bytes u.bytes)) [
      | inl same ↦
          let agree = same_bytes_trans v.bytes u.bytes t.bytes same in
          rw (same, ih, agree) (ground arith)
      | inr differs ↦ elim (Bool-cases (same_bytes u.bytes t.bytes)) [
        | inl gone ↦ elim (Bool-cases (same_bytes v.bytes t.bytes)) [
          | inl also ↦
              let clash = same_bytes_euclid v.bytes u.bytes t.bytes also gone in ground arith
          | inr other ↦ rw (differs, other, ih, gone) refl
        ]
        | inr kept ↦ rw (differs, ih, kept) refl
      ]
    ]

pub data SwarmCall : Type 0 where
  joined left : Topic → SwarmCall
  flushed : SwarmCall

-- Whether a topic is wanted: the last call about it decides.
abbrev pub wanted : Topic → List SwarmCall → Bool → Bool
wanted t [] b = b
wanted t (joined u ∷ calls) b = wanted t calls (same_bytes u.bytes t.bytes || b)
wanted t (left u ∷ calls) b = wanted t calls (if same_bytes u.bytes t.bytes then false else b)
wanted t (flushed ∷ calls) b = wanted t calls b

-- A run on the client leaves the discovery manager alone.
abbrev Unchanged : Hyperswarm → Hyperswarm → Type 0
Unchanged s t = t.discovery ≡ s.discovery

Unchanged-IsPreorder : IsPreorder Unchanged
Unchanged-IsPreorder = record {
  stays = λ s t e. ap (λ (x : Hyperswarm). x.discovery) e;
  trans = λ s t u p q. q ∙ p;
}

module _ {E : Type 0} (display : Display E) (codec : Bencode) where
  -- The world after a call, whatever its outcome.
  unfoldable pub swarm_call : SwarmCall → World E Hyperswarm → World E Hyperswarm
  swarm_call (joined topic) w = (join display codec topic w).1
  swarm_call (left topic) w = (leave display topic w).1
  swarm_call flushed w = (flush_swarm display w).1

  unfoldable pub run_swarm : List SwarmCall → World E Hyperswarm → World E Hyperswarm
  run_swarm [] w = w
  run_swarm (c ∷ calls) w = run_swarm calls (swarm_call c w)

  on_dht-Unchanged :
      {X : Type 0} (m : M E DhtClient (DhtError E) X) (w : World E Hyperswarm)
      → Moves Unchanged w (on_dht codec m w)
  on_dht-Unchanged m w = convert-Moves w _ DiscoveryError.dht (record { moved = refl })

  -- After the assignment, joining only uses the client.
  pub join-topics :
      (topic : Topic) (w : World E Hyperswarm)
      → (join display codec topic w).1.self.discovery.topics
        ≡ insert_topic topic w.self.discovery.topics
  unfolding join manager_join
  join-topics topic w =
      let p = Unchanged-IsPreorder in
      let s = write_topics (insert_topic topic w.self.discovery.topics) w.self in
      let v = record w { self = s } in
      let m =
        convert-Moves v _ (λ e. SwarmError.dht (display.discovery_text e))
          (continue-Moves p v _ _ (on_dht-Unchanged (announce codec topic.bytes 0) v) λ x u.
            continue-Moves p u _ _ (on_dht-Unchanged (lookup codec topic.bytes) u)
              λ x' u'. done-Moves p tt u') in
      ap (λ (d : DiscoveryManager). d.topics) m.moved

  leave-topics :
      (topic : Topic) (w : World E Hyperswarm)
      → (leave display topic w).1.self.discovery.topics ≡ remove_topic topic w.self.discovery.topics
  unfolding leave manager_leave
  leave-topics topic w = refl

  flush-topics :
      (w : World E Hyperswarm)
      → (flush_swarm display w).1.self.discovery.topics ≡ w.self.discovery.topics
  unfolding flush_swarm flush
  flush-topics w = refl

  swarm_call-wanted :
      (t : Topic) (c : SwarmCall) (calls : List SwarmCall) (w : World E Hyperswarm)
      → wanted t calls (has_topic t (swarm_call c w).self.discovery.topics)
        ≡ wanted t (c ∷ calls) (has_topic t w.self.discovery.topics)
  unfolding swarm_call
  swarm_call-wanted t (joined u) calls w =
      ap (wanted t calls)
        (ap (has_topic t) (join-topics u w) ∙ has_topic-insert t u w.self.discovery.topics)
  swarm_call-wanted t (left u) calls w =
      ap (wanted t calls)
        (ap (has_topic t) (leave-topics u w) ∙ has_topic-remove t u w.self.discovery.topics)
  swarm_call-wanted t flushed calls w = ap (wanted t calls) (ap (has_topic t) (flush-topics w))

  -- After any calls of `join`, `leave` and `flush`, with any outcomes and whatever the network
  -- does, a topic is recorded just if the last `join` or `leave` of it was a `join`, or if there
  -- was none and it was recorded before.
  pub run_swarm-wanted :
      (t : Topic) (calls : List SwarmCall) (w : World E Hyperswarm)
      → has_topic t (run_swarm calls w).self.discovery.topics
        ≡ wanted t calls (has_topic t w.self.discovery.topics)
  unfolding run_swarm
  run_swarm-wanted t [] w = refl
  run_swarm-wanted t (c ∷ calls) w =
      run_swarm-wanted t calls (swarm_call c w) ∙ swarm_call-wanted t c calls w
