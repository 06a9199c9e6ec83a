-- ===== src/Examples/Connect.antt =====
-- The last two steps of examples/p2p_connection.rs.
use hyperswarm.Base.{
  ℕ, ◌≤◌, ◌≡◌, refl, ap, ◌∙◌, Option, none, some, List, [], ◌∷◌, arith, length, take, length-take,
}
use hyperswarm.Net.{
  World, M, Outcome, done, fail, elapsed, pending, panicked, Result, ok, err, SocketAddr, continue,
  convert, send_to,
}
use hyperswarm.Net.Zoom.{with_self}
use hyperswarm.Holepunch.Packet.{HolepunchSession}
use hyperswarm.Holepunch.Session.{HolepunchError, probe, probe_each, new_session}
use hyperswarm.Transport.{
  Noise, Keypair, TransportError, EncryptedStream, handshaking, first32, new_stream,
  generate_keypair_and_initiator, send,
}
use hyperswarm.Discovery.{Topic}
use hyperswarm.Examples.{ExampleError, Machine, open_stream, connect, candidates, localhost}

module _ {E : Type 0} where
  -- One of the probes went out, or the last one's error is reported.
  abbrev HasProbed :
      World E HolepunchSession
      → Outcome (HolepunchError E) (Unit {0}) × World E HolepunchSession
      → Type 0
  HasProbed w (done _, v) = v.now ≡ w.now
  HasProbed w (fail (HolepunchError.io e), v) = v.now ≡ w.now
  HasProbed w _ = ⊥

  probed_as :
      (fates : List (Option E)) (w : World E HolepunchSession)
      → w.sends ≡ fates
      → HasProbed w (probe candidates w)
  unfolding probe probe_each send_to
  probed_as [] w h = ground arith
  probed_as (none ∷ []) w h = ground arith
  probed_as (some e ∷ []) w h = ground arith
  probed_as (none ∷ none ∷ rest) w h = ground arith
  probed_as (none ∷ some f ∷ rest) w h = ground arith
  probed_as (some e ∷ none ∷ rest) w h = ground arith
  probed_as (some e ∷ some f ∷ rest) w h = ground arith

-- Sockets can be bound, a digest of BLAKE2b has 64 bytes, and snow makes a key pair and accepts it.
pub record IsReady (n : Noise) {E : Type 0} (machine : Machine E) : Type 0 where
  pub bound : (k : ℕ) (addr : SocketAddr) → machine.bind k addr ≡ ok tt
  pub addr : SocketAddr
  pub local : machine.local_addr ≡ ok addr
  pub digest : (bytes : List ℕ) → length (machine.blake2b512 bytes) ≡ 64
  pub keys : Keypair
  pub generated : machine.keypair ≡ ok keys
  pub long_public : 32 ≤ length keys.public
  pub long_private : 32 ≤ length keys.private
  pub accepted :
      (key : List ℕ) → length key ≡ 32 → (h : n.HandshakeState) × (n.build_initiator key ≡ ok h)

module _ {E : Type 0} where
  -- What the stream reports, or the probes' error.
  abbrev pub HasConnected :
      World E (Unit {0})
      → Outcome (ExampleError E) (Result (TransportError E) (Unit {0})) × World E (Unit {0})
      → Type 0
  HasConnected w (done sent, v) = (sent ≡ err TransportError.handshake_incomplete) × (v.now ≡ w.now)
  HasConnected w (fail (ExampleError.holepunch (HolepunchError.io e)), v) = v.now ≡ w.now
  HasConnected w _ = ⊥

  after_probe :
      (w : World E (Unit {0}))
      (r : Outcome (HolepunchError E) (Unit {0}) × World E HolepunchSession)
      → (f : Unit {0} → M E (Unit {0}) (ExampleError E) (Result (TransportError E) (Unit {0})))
      → (s : HolepunchSession) → HasProbed (with_self s w) r
      → ((v : World E (Unit {0})) → v.now ≡ w.now → HasConnected w (f tt v))
      → HasConnected w (
          continue
            (
              (convert ExampleError.holepunch r).0,
              with_self tt (convert ExampleError.holepunch r).1,
            )
            f)
  after_probe w (done x, v) f s h k = k _ h
  after_probe w (fail (HolepunchError.io e), v) f s h k = h
  after_probe w (fail HolepunchError.timed_out, v) f s h k = absurd h
  after_probe w (fail HolepunchError.no_viable_candidates, v) f s h k = absurd h
  after_probe w (fail HolepunchError.authentication_failed, v) f s h k = absurd h
  after_probe w (elapsed, v) f s h k = absurd h
  after_probe w (pending, v) f s h k = absurd h
  after_probe w (panicked, v) f s h k = absurd h

module _ (n : Noise) {E : Type 0} (machine : Machine E) (ready : IsReady n machine) where
  abbrev accepted_key :
      (h : n.HandshakeState) × (n.build_initiator (take 32 ready.keys.private) ≡ ok h)
  accepted_key =
      ready.accepted (take 32 ready.keys.private)
        (let e = length-take 32 ready.keys.private in omega (arith, ready.long_private))

  abbrev fresh_stream : SocketAddr → EncryptedStream n
  fresh_stream addr = record {
    remote_addr = addr;
    state = handshaking accepted_key.0;
    remote_static_key = none;
    local_static_pubkey = take 32 ready.keys.public;
    local_static_privkey = take 32 ready.keys.private;
  }

  first32-long : (key : List ℕ) → 32 ≤ length key → first32 n key ≡ some (take 32 key)
  first32-long key h = ground arith

  new_stream-ok :
      (keys : Keypair) (addr : SocketAddr) (public private : List ℕ) (h : n.HandshakeState)
      → first32 n keys.public ≡ some public
      → first32 n keys.private ≡ some private
      → n.build_initiator private ≡ ok h
      → new_stream n {E = E} (ok keys) addr
        ≡ done (record {
          remote_addr = addr;
          state = handshaking h;
          remote_static_key = none;
          local_static_pubkey = public;
          local_static_privkey = private;
        })
  unfolding new_stream generate_keypair_and_initiator
  new_stream-ok keys addr public private h a b c = ground (arith, a, b, c)

  new_stream-ready :
      (addr : SocketAddr) → new_stream n {E = E} machine.keypair addr ≡ done (fresh_stream addr)
  new_stream-ready addr =
      ap (λ made. new_stream n made addr) ready.generated
      ∙ new_stream-ok ready.keys addr _ _ _ (first32-long ready.keys.public ready.long_public)
          (first32-long ready.keys.private ready.long_private) accepted_key.1

  new_session-ready :
      (k : ℕ) (addr : SocketAddr) (key : List ℕ)
      → new_session (machine.bind k) addr key ≡ ok (record { session_key = key })
  unfolding new_session
  new_session-ready k addr key = rw (ready.bound k addr, new_session) refl

  open_stream-ready :
      (w : World E (Unit {0}))
      → open_stream n machine w ≡ (done (err TransportError.handshake_incomplete), w)
  unfolding open_stream send
  open_stream-ready w = rw (ready.bound 2 (localhost 0), new_stream-ready (localhost 8080)) refl

  pub connect-HasConnected :
      (topic : Topic) (w : World E (Unit {0})) → HasConnected w (connect n machine topic w)
  unfolding connect
  connect-HasConnected topic w =
      simp (new_session-ready 1 (localhost 0) topic.bytes, ready.local)
        (after_probe w (probe candidates _) (λ _. open_stream n machine)
          (record { session_key = topic.bytes }) (probed_as w.sends _ refl)
          λ v h. rw (open_stream-ready v) (refl, h))
