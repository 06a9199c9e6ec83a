-- ===== src/Transport/Auth.antt =====
-- What a handshake that succeeded has established.
use hyperswarm.Base.{
  ℕ, zero, suc, String, ◌≡◌, refl, ◌∙◌, Option, List, [], ◌∷◌, arith, leb, take, Bool-cases, ◌⊎◌,
  inl, inr,
}
use hyperswarm.Net.{
  World, M, done, Event, datagram, recv_error, SocketAddr, same_addr, same_addr_iff, Result, ok,
  err, continue, lift,
}
use hyperswarm.Net.Receive.{
  Received, late, heard, broken, Frame, timeout_recv, sent-SendFrame, SendFrame,
}
use hyperswarm.Net.Invert.{continue-eq-done}
use hyperswarm.Protocol.{map_error}
use hyperswarm.Transport.{
  Noise, EncryptedStream, established, TransportError, io, noise, max_message_size, on_packet,
  await_rounds, await_peer, send_peer, establish,
}

-- A datagram from the address is in the inbox, and the buffer takes these bytes of it.
abbrev pub Came : {E : Type 0} → SocketAddr → List ℕ → List (ℕ × Event E) → Type 0
Came addr bytes [] = ⊥
Came addr bytes ((_, datagram from raw) ∷ rest) =
    ((from ≡ addr) × (bytes ≡ take max_message_size raw)) ⊎ Came addr bytes rest
Came addr bytes ((_, recv_error _) ∷ rest) = Came addr bytes rest

module _ (n : Noise) where
  -- The end of a successful handshake: the stream is as before but for its state, which holds the
  -- transport of the last handshake state, and for the peer's key.
  pub record Settled (key : Option (List ℕ)) (last : n.HandshakeState) (s t : EncryptedStream n)
      : Type 0 where
    pub transport : n.TransportState
    pub mode : n.into_transport_mode last ≡ ok transport
    pub stream : t ≡ record s { state = established transport; remote_static_key = key }

module _ (n : Noise) {E : Type 0} where
  -- What a receiving loop that gave these bytes has done.
  pub record Awaited (bytes : List ℕ) (w w' : World E (EncryptedStream n)) : Type 0 where
    pub came : Came w.self.remote_addr bytes w.inbox
    pub self : w'.self ≡ w.self
    pub older : (addr : SocketAddr) (b : List ℕ) → Came addr b w'.inbox → Came addr b w.inbox

  on_packet-Awaited :
      (k : ℕ) (next : M E (EncryptedStream n) (TransportError E) (List ℕ)) (bytes : List ℕ)
      → (w v w' : World E (EncryptedStream n))
      → ((u : World E (EncryptedStream n)) → next u ≡ (done bytes, w') → Awaited bytes u w')
      → (x : Option (Result E (SocketAddr × List ℕ))) → Received k max_message_size w x v
      → Frame w v
      → on_packet n next x v ≡ (done bytes, w')
      → Awaited bytes w w'
  unfolding on_packet
  on_packet-Awaited k next bytes w v w' ih x (late e t i) f h = let h' = rw e at h in ground arith
  on_packet-Awaited k next bytes w v w' ih x (broken t failure e i now) f h =
      let h' = rw e at h in ground arith
  on_packet-Awaited k next bytes w v w' ih x (heard t from raw e i now) f h =
      elim (Bool-cases (same_addr from v.self.remote_addr)) [
        | inl s ↦
            let own : from ≡ w.self.remote_addr =
              rw f.self at ((same_addr_iff from v.self.remote_addr).0 s) in
            let h' = rw s at (rw e at h) in
            let given : (bytes ≡ take max_message_size raw) × (w' ≡ v) = ground arith in
            record {
              came = rw i (inl (own, given.0));
              self = rw given.1 f.self;
              older = λ addr b c. rw i (inr (rw given.1 at c));
            }
        | inr s ↦
            let a = ih v (rw s at (rw e at h)) in
            record {
              came = rw i (inr (rw f.self at a.came));
              self = a.self ∙ f.self;
              older = λ addr b c. rw i (inr (a.older addr b c));
            }
      ]

  await_rounds-Awaited :
      (rounds deadline : ℕ) (bytes : List ℕ) (w w' : World E (EncryptedStream n))
      → await_rounds n rounds deadline w ≡ (done bytes, w')
      → Awaited bytes w w'
  unfolding await_rounds
  await_rounds-Awaited zero deadline bytes w w' e = ground arith
  await_rounds-Awaited (suc rounds) deadline bytes w w' e = elim (Bool-cases (leb deadline w.now)) [
    | inl past ↦ ground arith
    | inr early ↦
        let (x, v, r, k) = continue-eq-done _ _ bytes w' (rw early at e) in
        let (received, f) = timeout_recv _ _ _ w x v r in
        on_packet-Awaited _ _ bytes w v w' (λ u. await_rounds-Awaited rounds deadline bytes u w') x
          received f k
  ]

  pub await_peer-Awaited :
      (deadline : ℕ) (bytes : List ℕ) (w w' : World E (EncryptedStream n))
      → await_peer n deadline w ≡ (done bytes, w')
      → Awaited bytes w w'
  unfolding await_peer
  await_peer-Awaited deadline bytes w w' e = await_rounds-Awaited _ deadline bytes w w' e

  pub send_peer-SendFrame :
      (bytes : List ℕ) (w : World E (EncryptedStream n)) (x : Unit {0})
      → (w' : World E (EncryptedStream n)) → send_peer n bytes w ≡ (done x, w')
      → SendFrame w w'
  unfolding send_peer
  send_peer-SendFrame bytes w x w' e = sent-SendFrame io bytes w.self.remote_addr w x w' e

  -- A step without waiting that was passed.
  pub lift-passed :
      {X Y : Type 0} (r : Result (TransportError E) X)
      → (f : X → M E (EncryptedStream n) (TransportError E) Y)
      → (w w' : World E (EncryptedStream n)) (y : Y) → continue (lift r w) f ≡ (done y, w')
      → (x : X) × (r ≡ ok x) × (f x w ≡ (done y, w'))
  lift-passed (ok x) f w w' y e = (x, refl, e)
  lift-passed (err e') f w w' y e = ground arith

  pub noise-passed :
      {X : Type 0} (r : Result String X) (x : X)
      → map_error {B = TransportError E} noise r ≡ ok x
      → r ≡ ok x
  noise-passed (ok y) x e = ground arith
  noise-passed (err t) x e = ground arith

  pub establish-Settled :
      (last : n.HandshakeState) (key : Option (List ℕ)) (w w' : World E (EncryptedStream n))
      → establish n last key w ≡ (done tt, w')
      → Settled n key last w.self w'.self
  unfolding establish
  establish-Settled last key w w' e =
      let (t, mode, k) = lift-passed (map_error noise (n.into_transport_mode last)) _ w w' tt e in
      record { transport = t; mode = noise-passed _ t mode; stream = ground arith }
