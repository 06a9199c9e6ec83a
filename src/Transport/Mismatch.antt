-- ===== src/Transport/Mismatch.antt =====
-- A handshake whose peer has another key than the one expected.
use hyperswarm.Base.{
  ℕ, ◌≡◌, refl, ◌≢◌, some, List, [], ◌∷◌, arith, same_bytes, same_bytes_iff, Bool-cases, inl, inr,
}
use hyperswarm.Net.{World, fail, ok, err}
use hyperswarm.Transport.{
  Noise, EncryptedStream, StreamState, handshaking, established, peer_authentication_failed,
  validate, finish_initiator, initiate_from, handshake_initiator,
}
use hyperswarm.Transport.Pattern.{Xx, extract_key}
use hyperswarm.Transport.Pair.{InitiatorReady, run_initiator-revealed}

validate-other :
    (n : Noise) {E : Type 0} (key actual : List ℕ)
    → actual ≢ key
    → validate n {E = E} (some key) (some actual) ≡ err peer_authentication_failed
validate-other n key actual other = elim (Bool-cases (same_bytes actual key)) [
  | inl same ↦ absurd (other ((same_bytes_iff actual key).0 same))
  | inr differs ↦ rw differs refl
]

-- The stream before the handshake, with another state.
abbrev pub reset : (n : Noise) → n.HandshakeState → EncryptedStream n → EncryptedStream n
reset n h s = record s { state = handshaking h }

module _ (n : Noise) {E : Type 0} (priv_i pub_i priv_r pub_r : List ℕ)
    (x : Xx n priv_i pub_i priv_r pub_r) (key : List ℕ) (other : pub_r ≢ key) where
  finish_initiator-other :
      (w : World E (EncryptedStream n))
      → finish_initiator n (some key) x.i2 w ≡ (fail peer_authentication_failed, w)
  unfolding finish_initiator
  finish_initiator-other w =
      rw (extract_key n x.i2 pub_r x.key_r x.size_r, validate-other n {E = E} key pub_r other) refl

  initiate_from-other :
      (w : World E (EncryptedStream n)) (state : StreamState n)
      → state ≡ handshaking x.initiator
      → InitiatorReady n priv_i pub_i priv_r pub_r x w
      → ((initiate_from n state (some key) w).0 ≡ fail peer_authentication_failed)
        × ((initiate_from n state (some key) w).1.self ≡ reset n x.placeholder w.self)
        × ((initiate_from n state (some key) w).1.sent ≡ (w.self.remote_addr, x.m1) ∷ w.sent)
  initiate_from-other w (established t) state r = ground arith
  initiate_from-other w (handshaking h) state r =
      let same : h ≡ x.initiator = ground arith in
      let built : n.build_initiator w.self.local_static_privkey ≡ ok x.placeholder =
        rw r.privkey x.built in
      let (now, run) =
        run_initiator-revealed n priv_i pub_i priv_r pub_r x (some key)
          (record w { self = reset n x.placeholder w.self }) r.noise r.rest r.time r.last r.free
          r.ends r.sends r.queue r.early r.soon in
      let v = record w {
        now = now;
        inbox = r.rest;
        sends = [];
        sent = (w.self.remote_addr, x.m1) ∷ w.sent;
        self = reset n x.placeholder w.self;
      } in
      rw (same, built, run, finish_initiator-other v) (refl, refl, refl)

  -- When the initiator expects another key than the responder's, and all else is as in a handshake
  -- that would succeed: it fails with `PeerAuthenticationFailed`, the third message, which would
  -- reveal its own key, is not sent, and the stream keeps its keys, is not established and can
  -- begin a handshake anew.
  pub handshake_mismatch :
      (w : World E (EncryptedStream n))
      → InitiatorReady n priv_i pub_i priv_r pub_r x w
      → ((handshake_initiator n (some key) w).0 ≡ fail peer_authentication_failed)
        × ((handshake_initiator n (some key) w).1.self ≡ reset n x.placeholder w.self)
        × ((handshake_initiator n (some key) w).1.sent ≡ (w.self.remote_addr, x.m1) ∷ w.sent)
  unfolding handshake_initiator
  handshake_mismatch w r = initiate_from-other w w.self.state r.state r
