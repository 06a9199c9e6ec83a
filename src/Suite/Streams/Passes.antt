-- ===== src/Suite/Streams/Passes.antt =====
-- What streams send goes through.
use hyperswarm.Base.{
  ℕ, ◌≤◌, ◌≡◌, refl, ◌∙◌, ap, Bool, true, none, List, [], ◌∷◌, length, same_bytes_refl,
}
use hyperswarm.Net.{ok, World, done}
use hyperswarm.Transport.{Noise, EncryptedStream, established, send, recv}
use hyperswarm.Transport.Channel.{recv_delivers}
use hyperswarm.Transport.Conversation.{Flow, Carries}
use hyperswarm.Transport.Conversation.Exchange.{send-ok, next_own}
use hyperswarm.Suite.{awaited_of_done}
use hyperswarm.Suite.Streams.{passed, each_passed}

module _ (n : Noise) {E : Type 0} where
  -- The sender after a message.
  abbrev pub wrote_one :
      n.TransportState → List ℕ → List ℕ → World E (EncryptedStream n) → World E (EncryptedStream n)
  wrote_one t m c v = record v {
    sends = [];
    sent = (v.self.remote_addr, c) ∷ v.sent;
    self = record v.self { state = established (n.write_message t m).0 };
  }

  module _ (t1 t2 : n.TransportState) (m c : List ℕ) (cs : List (List ℕ))
      (v1 v2 : World E (EncryptedStream n)) (written : (n.write_message t1 m).1 ≡ ok c)
      (fits : length c ≤ 65_535) (read : (n.read_message t2 c).1 ≡ ok m)
      (state1 : v1.self.state ≡ established t1) (fates : v1.sends ≡ [])
      (state2 : v2.self.state ≡ established t2) (free : v2.limit ≡ none)
      (carried : Carries v2.self.remote_addr (c ∷ cs) v2.inbox) where
    -- The receiver after it.
    pub record After : Type 0 where
      pub got : (recv n v2).0 ≡ done m
      pub stream :
          (recv n v2).1.self ≡ record v2.self { state = established (n.read_message t2 c).0 }
      pub kept : (recv n v2).1.limit ≡ none
      pub sends : (recv n v2).1.sends ≡ v2.sends
      pub more : Carries (recv n v2).1.self.remote_addr cs (recv n v2).1.inbox

    pub after : After
    after =
        let (strangers, time, rest, i, all, later) =
          next_own v2.self.remote_addr c cs v2.inbox carried in
        let (got, left, self, kept, fates, out) =
          recv_delivers n strangers rest time c m t2 v2 free state2 fits read all i in
        record {
          got = got;
          stream = self;
          kept = kept ∙ free;
          sends = fates;
          more = rw (self, left) later;
        }

    pub passed-ok :
        (rest : World E (EncryptedStream n) → World E (EncryptedStream n) → Bool)
        → passed n m v1 v2 rest ≡ rest (wrote_one t1 m c v1) (recv n v2).1
    unfolding send
    passed-ok rest =
        rw (send-ok n v1.self.state t1 m c v1 state1 written fates)
          (awaited_of_done (recv n v2) m _ (After.got after) ∙ rw (same_bytes_refl m) refl)

  pub each_passed-ok :
      (t1 t2 : n.TransportState) (ms cs : List (List ℕ)) (v1 v2 : World E (EncryptedStream n))
      → Flow n t1 t2 ms cs
      → v1.self.state ≡ established t1
      → v1.sends ≡ []
      → v2.self.state ≡ established t2
      → v2.limit ≡ none
      → Carries v2.self.remote_addr cs v2.inbox
      → each_passed n ms v1 v2 ≡ true
  each_passed-ok t1 t2 [] cs v1 v2 flow s1 q s2 l carried = refl
  each_passed-ok t1 t2 (m ∷ ms) [] v1 v2 flow s1 q s2 l carried = absurd flow
  each_passed-ok t1 t2 (m ∷ ms) (c ∷ cs) v1 v2 (written, fits, read, flow) s1 q s2 l carried =
      let a = after t1 t2 m c cs v1 v2 written fits read s1 q s2 l carried in
      passed-ok t1 t2 m c cs v1 v2 written fits read s1 q s2 l carried _
      ∙ each_passed-ok (n.write_message t1 m).0 (n.read_message t2 c).0 ms cs (wrote_one t1 m c v1)
          (recv n v2).1 flow refl refl (ap (λ (s : EncryptedStream n). s.state) (After.stream a))
          (After.kept a) (After.more a)
