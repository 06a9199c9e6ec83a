-- ===== src/Transport/Pair.antt =====
-- The two parties of a handshake, run against one another.
use hyperswarm.Base.{
  ℕ, ◌+◌, ◌≤◌, ◌<◌, ◌≡◌, refl, Option, none, some, List, [], ◌∷◌, ◌++◌, arith, ◌⊎◌,
}
use hyperswarm.Net.{World, Outcome, done, Event, datagram, SocketAddr, ok}
use hyperswarm.Net.Receive.{Reaches}
use hyperswarm.Transport.{
  Noise, EncryptedStream, StreamState, handshaking, established, TransportError, establish,
  finish_initiator, run_initiator, initiate_from, handshake_initiator, finish_responder,
  handshake_responder,
}
use hyperswarm.Transport.Awaits.{AllEarlyStrangers, await_peer_hears}
use hyperswarm.Transport.Pattern.{
  Xx, extract_key, send_peer-sent, establish-ok, validate-none_or_same, agreed,
}

module _ (n : Noise) {E : Type 0} (priv_i pub_i priv_r pub_r : List ℕ)
    (x : Xx n priv_i pub_i priv_r pub_r) where
  finish_initiator-ok :
      (expected : Option (List ℕ)) (w : World E (EncryptedStream n))
      → (expected ≡ none) ⊎ (expected ≡ some pub_r)
      → w.sends ≡ []
      → finish_initiator n expected x.i2 w ≡ (
        done tt,
        record w {
          sends = [];
          sent = (w.self.remote_addr, x.m3) ∷ w.sent;
          self = agreed n w.self x.transport_i pub_r;
        },
      )
  unfolding finish_initiator
  finish_initiator-ok expected w fits s =
      rw
        (
          extract_key n x.i2 pub_r x.key_r x.size_r,
          validate-none_or_same n {E = E} expected pub_r fits,
          x.write3,
          send_peer-sent n x.m3 w s,
        )
        (establish-ok n x.i3 x.transport_i (some pub_r) _ x.mode_i)

  -- What the initiator has at its start: its own state and key, and the second message coming.
  pub record InitiatorReady (w : World E (EncryptedStream n)) : Type 0 where
    pub state : w.self.state ≡ handshaking x.initiator
    pub privkey : w.self.local_static_privkey ≡ priv_i
    pub pubkey : w.self.local_static_pubkey ≡ pub_i
    -- The last moment at which something comes; no timer fires before.
    pub last : ℕ
    pub ends : last ≤ w.now + 30_000
    pub free : Reaches w.limit last
    pub sends : w.sends ≡ []
    pub noise : List (ℕ × Event E)
    pub time : ℕ
    pub rest : List (ℕ × Event E)
    pub queue : w.inbox ≡ noise ++ (time, datagram w.self.remote_addr x.m2) ∷ rest
    pub early : AllEarlyStrangers w.self.remote_addr last noise
    pub soon : time < last

  -- What the responder has at its start: its key, and the first and the third message coming.
  pub record ResponderReady (w : World E (EncryptedStream n)) : Type 0 where
    pub privkey : w.self.local_static_privkey ≡ priv_r
    pub pubkey : w.self.local_static_pubkey ≡ pub_r
    -- The last moment at which something comes; no timer fires before.
    pub last : ℕ
    pub ends : last ≤ w.now + 30_000
    pub free : Reaches w.limit last
    pub sends : w.sends ≡ []
    pub noise1 : List (ℕ × Event E)
    pub time1 : ℕ
    pub noise3 : List (ℕ × Event E)
    pub time3 : ℕ
    pub rest : List (ℕ × Event E)
    pub queue :
        w.inbox
        ≡ noise1
          ++ (time1, datagram w.self.remote_addr x.m1)
            ∷ (noise3 ++ (time3, datagram w.self.remote_addr x.m3) ∷ rest)
    pub early1 : AllEarlyStrangers w.self.remote_addr last noise1
    pub early3 : AllEarlyStrangers w.self.remote_addr last noise3
    pub soon1 : time1 < last
    pub soon3 : time3 < last

  -- A run that ended well: the stream agreed with the peer, sent the messages, and left what
  -- came after the peer's last one.
  pub record Agrees (w : World E (EncryptedStream n)) (t : n.TransportState) (key : List ℕ)
      (sent : List (SocketAddr × List ℕ)) (rest : List (ℕ × Event E))
      (r : Outcome (TransportError E) (Unit {0}) × World E (EncryptedStream n)) : Type 0 where
    pub success : r.0 ≡ done tt
    pub stream : r.1.self ≡ agreed n w.self t key
    pub out : r.1.sent ≡ sent
    pub inbox : r.1.inbox ≡ rest
    pub kept : r.1.limit ≡ w.limit
    pub sends : r.1.sends ≡ []

  -- The initiator comes as far as reading the responder's key.
  pub run_initiator-revealed :
      (expected : Option (List ℕ)) (w : World E (EncryptedStream n))
      → (noise rest : List (ℕ × Event E)) (time last : ℕ) → Reaches w.limit last
      → last ≤ w.now + 30_000
      → w.sends ≡ []
      → w.inbox ≡ noise ++ (time, datagram w.self.remote_addr x.m2) ∷ rest
      → AllEarlyStrangers w.self.remote_addr last noise
      → time < last
      → (now : ℕ) × (run_initiator n expected x.initiator w
          ≡ finish_initiator n expected x.i2 (record w {
            now = now;
            inbox = rest;
            sends = [];
            sent = (w.self.remote_addr, x.m1) ∷ w.sent;
          }))
  unfolding run_initiator
  run_initiator-revealed expected w noise rest time last l ends s i early soon =
      let u = record w { sends = []; sent = (w.self.remote_addr, x.m1) ∷ w.sent } in
      let (now, _, _, came) =
        await_peer_hears n (w.now + 30_000) last noise rest time x.m2 u l ends i early soon
          (omega arith) x.fits2 in
      (now, rw (x.write1, send_peer-sent n x.m1 w s, came, x.read2) refl)

  run_initiator-ok :
      (expected : Option (List ℕ)) (w : World E (EncryptedStream n))
      → (noise rest : List (ℕ × Event E)) (time last : ℕ)
      → (expected ≡ none) ⊎ (expected ≡ some pub_r)
      → Reaches w.limit last
      → last ≤ w.now + 30_000
      → w.sends ≡ []
      → w.inbox ≡ noise ++ (time, datagram w.self.remote_addr x.m2) ∷ rest
      → AllEarlyStrangers w.self.remote_addr last noise
      → time < last
      → Agrees w x.transport_i pub_r
          ((w.self.remote_addr, x.m3) ∷ (w.self.remote_addr, x.m1) ∷ w.sent)
          rest
          (run_initiator n expected x.initiator w)
  run_initiator-ok expected w noise rest time last fits l ends s i early soon =
      let (now, run) =
        run_initiator-revealed expected w noise rest time last l ends s i early soon in
      let v = record w {
        now = now;
        inbox = rest;
        sends = [];
        sent = (w.self.remote_addr, x.m1) ∷ w.sent;
      } in
      rw (run, finish_initiator-ok expected v fits refl)
        (record {
          success = refl;
          stream = refl;
          out = refl;
          inbox = refl;
          kept = refl;
          sends = refl;
        })

  initiate_from-ok :
      (expected : Option (List ℕ)) (w : World E (EncryptedStream n)) (state : StreamState n)
      → state ≡ handshaking x.initiator
      → (expected ≡ none) ⊎ (expected ≡ some pub_r)
      → (r : InitiatorReady w)
      → Agrees w x.transport_i pub_r
          ((w.self.remote_addr, x.m3) ∷ (w.self.remote_addr, x.m1) ∷ w.sent)
          r.rest
          (initiate_from n state expected w)
  initiate_from-ok expected w (established t) state fits r = ground arith
  initiate_from-ok expected w (handshaking h) state fits r =
      let same : h ≡ x.initiator = ground arith in
      let v = record w { self = record w.self { state = handshaking x.placeholder } } in
      let a =
        run_initiator-ok expected v r.noise r.rest r.time r.last fits r.free r.ends r.sends r.queue
          r.early r.soon in
      let built : n.build_initiator w.self.local_static_privkey ≡ ok x.placeholder =
        rw r.privkey x.built in
      rw (same, built)
        (record {
          success = a.success;
          stream = a.stream;
          out = a.out;
          inbox = a.inbox;
          kept = a.kept;
          sends = a.sends;
        })

  handshake_initiator-ok :
      (expected : Option (List ℕ)) (w : World E (EncryptedStream n))
      → (expected ≡ none) ⊎ (expected ≡ some pub_r)
      → (r : InitiatorReady w)
      → Agrees w x.transport_i pub_r
          ((w.self.remote_addr, x.m3) ∷ (w.self.remote_addr, x.m1) ∷ w.sent)
          r.rest
          (handshake_initiator n expected w)
  unfolding handshake_initiator
  handshake_initiator-ok expected w fits r = initiate_from-ok expected w w.self.state r.state fits r

  handshake_responder-ok :
      (w : World E (EncryptedStream n))
      → (r : ResponderReady w)
      → Agrees w x.transport_r pub_i
          ((w.self.remote_addr, x.m2) ∷ w.sent)
          r.rest
          (handshake_responder n w)
  unfolding handshake_responder finish_responder
  handshake_responder-ok w r =
      let last = w.now + 30_000 in
      let (now1, before, _, came1) =
        await_peer_hears n last r.last r.noise1 _ r.time1 x.m1 w r.free r.ends r.queue r.early1
          r.soon1 (omega arith) x.fits1 in
      let u = record w {
        now = now1;
        inbox = r.noise3 ++ (r.time3, datagram w.self.remote_addr x.m3) ∷ r.rest;
      } in
      let u' = record u { sends = []; sent = (w.self.remote_addr, x.m2) ∷ w.sent } in
      let (now3, _, _, came3) =
        await_peer_hears n last r.last r.noise3 r.rest r.time3 x.m3 u' r.free r.ends refl r.early3
          r.soon3 before x.fits3 in
      let v = record u' { now = now3; inbox = r.rest } in
      let answers : n.build_responder w.self.local_static_privkey ≡ ok x.responder =
        rw r.privkey x.answers in
      let run : handshake_responder n w ≡ establish n x.r3 (some pub_i) v =
        rw
          (
            answers,
            came1,
            x.read1,
            x.write2,
            send_peer-sent n x.m2 u r.sends,
            came3,
            x.read3,
            extract_key n x.r3 pub_i x.key_i x.size_i,
          )
          refl in
      rw (run, establish-ok n x.r3 x.transport_r (some pub_i) v x.mode_r)
        (record {
          success = refl;
          stream = refl;
          out = refl;
          inbox = refl;
          kept = refl;
          sends = refl;
        })

-- A handshake over messages that arrive. Both streams have the keys of a run of the pattern, with
-- sends that succeed; the first and third message of the run come to the responder and the second
-- to the initiator, each within thirty seconds, before any timer around the handshake fires, and
-- behind whatever early datagrams of strangers; the initiator expects no key, or the responder's.
-- Then both handshakes succeed, the messages that come to one party are just what the other has
-- sent, each stream ends with the transport of its side, the key that it has recorded is the
-- other's own, and what came after the messages is still in the inbox.
pub handshake_pair :
    (n : Noise) {E : Type 0} (priv_i pub_i priv_r pub_r : List ℕ)
    (x : Xx n priv_i pub_i priv_r pub_r)
    → (expected : Option (List ℕ)) (w1 w2 : World E (EncryptedStream n))
    → (expected ≡ none) ⊎ (expected ≡ some pub_r)
    → (r1 : InitiatorReady n priv_i pub_i priv_r pub_r x w1)
    → (r2 : ResponderReady n priv_i pub_i priv_r pub_r x w2)
    → Agrees n priv_i pub_i priv_r pub_r x w1 x.transport_i w2.self.local_static_pubkey
        ((w1.self.remote_addr, x.m3) ∷ (w1.self.remote_addr, x.m1) ∷ w1.sent)
        r1.rest
        (handshake_initiator n expected w1)
      × Agrees n priv_i pub_i priv_r pub_r x w2 x.transport_r w1.self.local_static_pubkey
          ((w2.self.remote_addr, x.m2) ∷ w2.sent)
          r2.rest
          (handshake_responder n w2)
handshake_pair n priv_i pub_i priv_r pub_r x expected w1 w2 fits r1 r2 = (
  rw r2.pubkey (handshake_initiator-ok n priv_i pub_i priv_r pub_r x expected w1 fits r1),
  rw r1.pubkey (handshake_responder-ok n priv_i pub_i priv_r pub_r x w2 r2),
)
