-- ===== src/Transport/Progress.antt =====
-- How the operations of a stream change it.
use hyperswarm.Base.{
  ℕ, zero, suc, ◌≡◌, refl, ◌∙◌, Option, none, some, List, arith, leb, Bool-cases, inl, inr,
}
use hyperswarm.Net.{World, M, Outcome, SocketAddr, same_addr, Result, ok, err, continue, lift}
use hyperswarm.Net.Moves.{
  IsPreorder, Moves, IsMove, unmoved, continue-Moves, convert-Moves, timeout-Moves, if-Moves,
  done-Moves, fail-Moves, lift-Moves, recv_from-Moves, send_to-Moves,
}
use hyperswarm.Protocol.{map_error}
use hyperswarm.Transport.{
  Noise, EncryptedStream, StreamState, handshaking, established, TransportError, io, noise,
  on_packet, await_rounds, await_peer, send_peer, establish, finish_initiator, run_initiator,
  initiate_from, handshake_initiator, finish_responder, handshake_responder, make_initiator_state,
  make_responder_state, validate, extract_remote_static, send, send_from, recv, recv_rounds,
  receive_from, decrypt,
}

module _ (n : Noise) where
  abbrev pub IsEstablished : StreamState n → Type 0
  IsEstablished (handshaking h) = ⊥
  IsEstablished (established t) = Unit

  -- The peer's address and the own keys stay, an established stream stays established, and the
  -- peer's key is recorded only together with that.
  pub record Progress (s t : EncryptedStream n) : Type 0 where
    pub address : t.remote_addr ≡ s.remote_addr
    pub pubkey : t.local_static_pubkey ≡ s.local_static_pubkey
    pub privkey : t.local_static_privkey ≡ s.local_static_privkey
    pub forward : IsEstablished s.state → IsEstablished t.state
    pub recorded : ¬ IsEstablished t.state → t.remote_static_key ≡ s.remote_static_key

  pub Progress-IsPreorder : IsPreorder Progress
  Progress-IsPreorder = record {
    stays = λ s t e. rw e (ground arith);
    trans = λ s t u p q. record {
      address = q.address ∙ p.address;
      pubkey = q.pubkey ∙ p.pubkey;
      privkey = q.privkey ∙ p.privkey;
      forward = λ e. q.forward (p.forward e);
      recorded = λ h. q.recorded h ∙ p.recorded λ e. h (q.forward e);
    };
  }

module _ (n : Noise) {E : Type 0} (p : IsPreorder (Progress n)) where
  on_packet-Moves :
      (next : M E (EncryptedStream n) (TransportError E) (List ℕ))
      → IsMove (Progress n) next
      → (x : Option (Result E (SocketAddr × List ℕ))) → IsMove (Progress n) (on_packet n next x)
  unfolding on_packet
  on_packet-Moves next h none w = fail-Moves p _ w
  on_packet-Moves next h (some (err e)) w = fail-Moves p _ w
  on_packet-Moves next h (some (ok (from, bytes))) w =
      if-Moves (same_addr from w.self.remote_addr) _ _ w (done-Moves p _ w) (h w)

  await_rounds-Moves :
      (rounds deadline : ℕ) → IsMove (Progress n) (await_rounds n {E = E} rounds deadline)
  unfolding await_rounds
  await_rounds-Moves zero deadline w = unmoved p w _ refl
  await_rounds-Moves (suc rounds) deadline w = elim (Bool-cases (leb deadline w.now)) [
    | inl past ↦ rw past (fail-Moves p _ w)
    | inr early ↦ rw early (
        continue-Moves p w _ _ (timeout-Moves _ _ (recv_from-Moves p _) w)
          (on_packet-Moves _ (await_rounds-Moves rounds deadline)))
  ]

  await_peer-Moves : (deadline : ℕ) → IsMove (Progress n) (await_peer n {E = E} deadline)
  unfolding await_peer
  await_peer-Moves deadline w = await_rounds-Moves _ deadline w

  send_peer-Moves : (bytes : List ℕ) → IsMove (Progress n) (send_peer n {E = E} bytes)
  unfolding send_peer
  send_peer-Moves bytes w = convert-Moves w _ io (send_to-Moves p bytes w.self.remote_addr w)

  -- A step without waiting, before the rest.
  lift-Moves-then :
      {X Y : Type 0} (r : Result (TransportError E) X)
      → (f : X → M E (EncryptedStream n) (TransportError E) Y) → (w : World E (EncryptedStream n))
      → ((x : X) → Moves (Progress n) w (f x w))
      → Moves (Progress n) w (continue (lift r w) f)
  lift-Moves-then (ok x) f w k = k x
  lift-Moves-then (err e) f w k = fail-Moves p e w

  -- An assignment to the stream that is a step forward, before the rest.
  put-Moves-then :
      {X : Type 0} (s : EncryptedStream n) (w : World E (EncryptedStream n))
      → (r : Outcome (TransportError E) X × World E (EncryptedStream n)) → Progress n w.self s
      → Moves (Progress n) (record w { self = s }) r
      → Moves (Progress n) w r
  put-Moves-then s w r h c = record { moved = p.trans _ _ _ h c.moved }

  establish-Moves :
      (h : n.HandshakeState) (key : Option (List ℕ))
      → IsMove (Progress n) (establish n {E = E} h key)
  unfolding establish
  establish-Moves h key w =
      lift-Moves-then (map_error noise (n.into_transport_mode h)) _ w
        λ t. record { moved = ground arith }

  finish_initiator-Moves :
      (expected : Option (List ℕ)) (h : n.HandshakeState)
      → IsMove (Progress n) (finish_initiator n {E = E} expected h)
  unfolding finish_initiator
  finish_initiator-Moves expected h w =
      lift-Moves-then (validate n expected (extract_remote_static n h)) _ w λ u.
        lift-Moves-then (map_error noise (n.write_handshake h)) _ w λ (message, after).
          continue-Moves p w _ _ (send_peer-Moves message w) λ u'. establish-Moves after _

  run_initiator-Moves :
      (expected : Option (List ℕ)) (h : n.HandshakeState)
      → IsMove (Progress n) (run_initiator n {E = E} expected h)
  unfolding run_initiator
  run_initiator-Moves expected h w =
      lift-Moves-then (map_error noise (n.write_handshake h)) _ w λ (message, sent).
        continue-Moves p w _ _ (send_peer-Moves message w) λ u v.
          continue-Moves p v _ _ (await_peer-Moves _ v) λ bytes v'.
            lift-Moves-then (map_error noise (n.read_handshake sent bytes)) _ v'
              λ revealed. finish_initiator-Moves expected revealed v'

  initiate_from-Moves :
      (state : StreamState n) (expected : Option (List ℕ)) (w : World E (EncryptedStream n))
      → w.self.state ≡ state
      → Moves (Progress n) w (initiate_from n state expected w)
  initiate_from-Moves (established t) expected w e = done-Moves p tt w
  initiate_from-Moves (handshaking h) expected w e =
      lift-Moves-then (make_initiator_state n w.self) _ w
        λ placeholder. put-Moves-then _ w _ (ground arith) (run_initiator-Moves expected h _)

  pub handshake_initiator-Moves :
      (expected : Option (List ℕ)) → IsMove (Progress n) (handshake_initiator n {E = E} expected)
  unfolding handshake_initiator
  handshake_initiator-Moves expected w = initiate_from-Moves w.self.state expected w refl

  finish_responder-Moves :
      (deadline : ℕ) (h : n.HandshakeState)
      → IsMove (Progress n) (finish_responder n {E = E} deadline h)
  unfolding finish_responder
  finish_responder-Moves deadline h w =
      continue-Moves p w _ _ (await_peer-Moves deadline w) λ bytes v.
        lift-Moves-then (map_error noise (n.read_handshake h bytes)) _ v
          λ last. establish-Moves last _ v

  pub handshake_responder-Moves : IsMove (Progress n) (handshake_responder n {E = E})
  unfolding handshake_responder
  handshake_responder-Moves w = lift-Moves-then (make_responder_state n w.self) _ w λ h.
      continue-Moves p w _ _ (await_peer-Moves _ w) λ bytes v.
        lift-Moves-then (map_error noise (n.read_handshake h bytes)) _ v λ greeted.
          lift-Moves-then (map_error noise (n.write_handshake greeted)) _ v λ (message, sent).
            continue-Moves p v _ _ (send_peer-Moves message v) λ u. finish_responder-Moves _ sent

  send_from-Moves :
      (state : StreamState n) (bytes : List ℕ) (w : World E (EncryptedStream n))
      → w.self.state ≡ state
      → Moves (Progress n) w (send_from n state bytes w)
  send_from-Moves (handshaking h) bytes w e = fail-Moves p _ w
  send_from-Moves (established t) bytes w e = put-Moves-then _ w _ (ground arith) (
      lift-Moves-then (map_error noise (n.write_message t bytes).1) _ _
        λ message. send_peer-Moves message _)

  pub send-Moves : (bytes : List ℕ) → IsMove (Progress n) (send n {E = E} bytes)
  unfolding send
  send-Moves bytes w = send_from-Moves w.self.state bytes w refl

  recv_rounds-Moves : (rounds : ℕ) → IsMove (Progress n) (recv_rounds n {E = E} rounds)
  unfolding recv_rounds
  recv_rounds-Moves zero w = unmoved p w _ refl
  recv_rounds-Moves (suc rounds) w =
      continue-Moves p w _ _ (convert-Moves w _ io (recv_from-Moves p _ w)) λ (from, bytes) v.
        if-Moves (same_addr from v.self.remote_addr) _ _ v (done-Moves p _ v)
          (recv_rounds-Moves rounds v)

  decrypt-Moves :
      (t : n.TransportState) (bytes : List ℕ) → IsMove (Progress n) (decrypt n {E = E} t bytes)
  decrypt-Moves t bytes w =
      put-Moves-then _ w _ (ground arith)
        (lift-Moves p (map_error noise (n.read_message t bytes).1) _)

  receive_from-Moves : (state : StreamState n) → IsMove (Progress n) (receive_from n {E = E} state)
  receive_from-Moves (handshaking h) w = fail-Moves p _ w
  receive_from-Moves (established t) w =
      continue-Moves p w _ _ (recv_rounds-Moves _ w) (decrypt-Moves t)

  pub recv-Moves : IsMove (Progress n) (recv n {E = E})
  unfolding recv
  recv-Moves w = receive_from-Moves w.self.state w
