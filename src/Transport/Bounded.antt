-- ===== src/Transport/Bounded.antt =====
-- The handshakes end within thirty seconds, whatever arrives.
use hyperswarm.Base.{
  ℕ, zero, suc, ◌+◌, ◌-◌, ◌<◌, ◌≡◌, Option, List, arith, length, leb, Bool-cases, inl, inr,
}
use hyperswarm.Net.{World, M, SocketAddr, done, same_addr, Result, ok, err, continue, lift}
use hyperswarm.Net.Ends.{
  Ends, continue-Ends, convert-Ends, send_to-Ends, timeout_recv-Ends, self-Ends, if-Ends,
}
use hyperswarm.Net.Receive.{Received, late, heard, broken, timeout_recv, sent-SendFrame, SendFrame}
use hyperswarm.Protocol.{map_error}
use hyperswarm.Transport.{
  Noise, EncryptedStream, StreamState, handshaking, established, TransportError, io, noise,
  max_message_size, on_packet, await_rounds, await_peer, send_peer, establish, finish_initiator,
  run_initiator, initiate_from, handshake_initiator, finish_responder, handshake_responder,
  make_initiator_state, make_responder_state, validate, extract_remote_static,
}

module _ (n : Noise) {E : Type 0} where
  on_packet-Ends :
      (rounds deadline k : ℕ) (next : M E (EncryptedStream n) (TransportError E) (List ℕ))
      → (w : World E (EncryptedStream n)) → length w.inbox < suc rounds
      → ((v : World E (EncryptedStream n)) → length v.inbox < rounds → Ends deadline v (next v))
      → (x : Option (Result E (SocketAddr × List ℕ))) (w' : World E (EncryptedStream n))
      → Received k max_message_size w x w'
      → Ends deadline w' (on_packet n next x w')
  unfolding on_packet
  on_packet-Ends rounds deadline k next w room ih x w' (late e t i) = rw e (ground arith)
  on_packet-Ends rounds deadline k next w room ih x w' (heard t from bytes e i now) = rw e (
      if-Ends deadline (same_addr from w'.self.remote_addr) _ _ w' (ground arith)
        (ih w' (ground arith)))
  on_packet-Ends rounds deadline k next w room ih x w' (broken t f e i now) = rw e (ground arith)

  await_rounds-Ends :
      (rounds deadline : ℕ) (w : World E (EncryptedStream n))
      → length w.inbox < rounds
      → Ends deadline w (await_rounds n rounds deadline w)
  unfolding await_rounds
  await_rounds-Ends zero deadline w room = absurd (omega arith)
  await_rounds-Ends (suc rounds) deadline w room = elim (Bool-cases (leb deadline w.now)) [
    | inl past ↦ rw past (ground arith)
    | inr early ↦ rw early (
        continue-Ends deadline w _ _
          (timeout_recv-Ends (TransportError E) deadline (deadline - w.now) max_message_size w
            (ground arith))
          λ x w' e.
            let (r, f) = timeout_recv _ _ _ w x w' e in
            on_packet-Ends rounds deadline _ _ w room (await_rounds-Ends rounds deadline) x w' r)
  ]

  await_peer-Ends :
      (deadline : ℕ) (w : World E (EncryptedStream n)) → Ends deadline w (await_peer n deadline w)
  unfolding await_peer
  await_peer-Ends deadline w = await_rounds-Ends _ deadline w (omega arith)

  send_peer-Ends :
      (last : ℕ) (bytes : List ℕ) (w : World E (EncryptedStream n))
      → Ends last w (send_peer n bytes w)
  unfolding send_peer
  send_peer-Ends last bytes w =
      convert-Ends last w _ io (send_to-Ends last bytes w.self.remote_addr w)

  send_peer-SendFrame :
      (bytes : List ℕ) (w : World E (EncryptedStream n)) (x : Unit {0}) (w' : World E _)
      → send_peer n bytes w ≡ (done x, w')
      → SendFrame w w'
  unfolding send_peer
  send_peer-SendFrame bytes w x w' e = sent-SendFrame io bytes w.self.remote_addr w x w' e

  -- A step without waiting, before the rest.
  lift-Ends-then :
      {X Y : Type 0} (last : ℕ) (r : Result (TransportError E) X)
      → (f : X → M E (EncryptedStream n) (TransportError E) Y) → (w : World E (EncryptedStream n))
      → ((x : X) → Ends last w (f x w))
      → Ends last w (continue (lift r w) f)
  lift-Ends-then last (ok x) f w k = k x
  lift-Ends-then last (err e) f w k = ground arith

  establish-Ends :
      (last : ℕ) (h : n.HandshakeState) (key : Option (List ℕ)) (w : World E (EncryptedStream n))
      → Ends last w (establish n h key w)
  unfolding establish
  establish-Ends last h key w =
      lift-Ends-then last (map_error noise (n.into_transport_mode h)) _ w λ t. ground arith

  finish_initiator-Ends :
      (last : ℕ) (expected : Option (List ℕ)) (h : n.HandshakeState) (w : World E _)
      → Ends last w (finish_initiator n expected h w)
  unfolding finish_initiator
  finish_initiator-Ends last expected h w =
      lift-Ends-then last (validate n expected (extract_remote_static n h)) _ w λ u.
        lift-Ends-then last (map_error noise (n.write_handshake h)) _ w λ (message, after).
          continue-Ends last w _ _ (send_peer-Ends last message w)
            λ u' v e. establish-Ends last after _ v

  run_initiator-Ends :
      (expected : Option (List ℕ)) (h : n.HandshakeState) (w : World E _)
      → Ends (w.now + 30_000) w (run_initiator n expected h w)
  unfolding run_initiator
  run_initiator-Ends expected h w =
      lift-Ends-then _ (map_error noise (n.write_handshake h)) _ w λ (message, sent).
        continue-Ends _ w _ _ (send_peer-Ends _ message w) λ u v e.
          let f = send_peer-SendFrame message w u v e in
          rw⁻¹ f.now (
            continue-Ends _ v _ _ (await_peer-Ends _ v) λ bytes v' e'.
              lift-Ends-then _ (map_error noise (n.read_handshake sent bytes)) _ v'
                λ revealed. finish_initiator-Ends _ expected revealed v')

  initiate_from-Ends :
      (state : StreamState n) (expected : Option (List ℕ)) (w : World E (EncryptedStream n))
      → Ends (w.now + 30_000) w (initiate_from n state expected w)
  initiate_from-Ends (established t) expected w = ground arith
  initiate_from-Ends (handshaking h) expected w =
      lift-Ends-then _ (make_initiator_state n w.self) _ w
        λ placeholder. self-Ends _ _ w _ (run_initiator-Ends expected h _)

  -- `handshake_initiator` does not wait for ever and does not panic: whatever arrives and whenever,
  -- also from other addresses, it ends within thirty seconds, with `Ok` or an error.
  pub handshake_initiator-Ends :
      (expected : Option (List ℕ)) (w : World E (EncryptedStream n))
      → Ends (w.now + 30_000) w (handshake_initiator n expected w)
  unfolding handshake_initiator
  handshake_initiator-Ends expected w = initiate_from-Ends w.self.state expected w

  finish_responder-Ends :
      (deadline : ℕ) (h : n.HandshakeState) (w : World E (EncryptedStream n))
      → Ends deadline w (finish_responder n deadline h w)
  unfolding finish_responder
  finish_responder-Ends deadline h w =
      continue-Ends deadline w _ _ (await_peer-Ends deadline w) λ bytes v e.
        lift-Ends-then _ (map_error noise (n.read_handshake h bytes)) _ v
          λ last. establish-Ends deadline last _ v

  -- `handshake_responder` does not wait for ever and does not panic: its two receiving loops have
  -- one deadline, so whatever arrives and whenever, it ends within thirty seconds.
  pub handshake_responder-Ends :
      (w : World E (EncryptedStream n)) → Ends (w.now + 30_000) w (handshake_responder n w)
  unfolding handshake_responder
  handshake_responder-Ends w = lift-Ends-then _ (make_responder_state n w.self) _ w λ h.
      continue-Ends _ w _ _ (await_peer-Ends _ w) λ bytes v e.
        lift-Ends-then _ (map_error noise (n.read_handshake h bytes)) _ v λ greeted.
          lift-Ends-then _ (map_error noise (n.write_handshake greeted)) _ v λ (message, sent).
            continue-Ends _ v _ _ (send_peer-Ends _ message v)
              λ u v' e'. finish_responder-Ends _ sent v'

  -- Neither `handshake_initiator` nor `handshake_responder` waits for ever or panics: whatever
  -- arrives and whenever, also from other addresses, each ends within thirty seconds, with `Ok` or
  -- an error, the responder also though it has two receiving loops.
  pub handshakes_end :
      (expected : Option (List ℕ)) (w : World E (EncryptedStream n))
      → Ends (w.now + 30_000) w (handshake_initiator n expected w)
        × Ends (w.now + 30_000) w (handshake_responder n w)
  handshakes_end expected w = (handshake_initiator-Ends expected w, handshake_responder-Ends w)
