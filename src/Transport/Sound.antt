-- ===== src/Transport/Sound.antt =====
-- A handshake that succeeded has read the peer's key from a message of the peer's address.
use hyperswarm.Base.{
  ℕ, ◌≡◌, ap, subst, ◌∙◌, Option, none, some, List, arith, same_bytes, same_bytes_iff, Bool-cases,
  inl, inr,
}
use hyperswarm.Net.{World, done, ok}
use hyperswarm.Net.Invert.{continue-eq-done}
use hyperswarm.Protocol.{map_error}
use hyperswarm.Transport.{
  Noise, EncryptedStream, handshaking, noise, finish_initiator, run_initiator, initiate_from,
  handshake_initiator, finish_responder, handshake_responder, make_initiator_state,
  make_responder_state, validate, extract_remote_static,
}
use hyperswarm.Transport.Auth.{
  Came, await_peer-Awaited, send_peer-SendFrame, Settled, lift-passed, noise-passed,
  establish-Settled,
}

module _ (n : Noise) {E : Type 0} where
  -- A stream that has become established: the datagram `bytes` came from its peer's address, it
  -- was read as a handshake message, and the key that this revealed is the one recorded.
  pub record Agreed (w w' : World E (EncryptedStream n)) : Type 0 where
    pub bytes : List ℕ
    pub before : n.HandshakeState
    pub revealed : n.HandshakeState
    pub last : n.HandshakeState
    pub came : Came w.self.remote_addr bytes w.inbox
    pub read : n.read_handshake before bytes ≡ ok revealed
    pub settled : Settled n (extract_remote_static n revealed) last w.self w'.self

  -- What is left to do, after the peer's message was read.
  finish_initiator-Settled :
      (expected : Option (List ℕ)) (h : n.HandshakeState) (w w' : World E (EncryptedStream n))
      → finish_initiator n expected h w ≡ (done tt, w')
      → (validate n {E = E} expected (extract_remote_static n h) ≡ ok tt)
        × (last : n.HandshakeState) × Settled n (extract_remote_static n h) last w.self w'.self
  unfolding finish_initiator
  finish_initiator-Settled expected h w w' e =
      let (_, checked, k) =
        lift-passed n (validate n expected (extract_remote_static n h)) _ w w' tt e in
      let ((message, last), _, k') =
        lift-passed n (map_error noise (n.write_handshake h)) _ w w' tt k in
      let (_, v, sent, end) = continue-eq-done _ _ tt w' k' in
      let f = send_peer-SendFrame n message w tt v sent in
      (checked, last, rw f.self at (establish-Settled n last _ v w' end))

  run_initiator-Agreed :
      (expected : Option (List ℕ)) (h : n.HandshakeState) (w w' : World E (EncryptedStream n))
      → run_initiator n expected h w ≡ (done tt, w')
      → (a : Agreed w w') × (validate n {E = E} expected (extract_remote_static n a.revealed)
          ≡ ok tt)
  unfolding run_initiator
  run_initiator-Agreed expected h w w' e =
      let ((message, sent), _, k) =
        lift-passed n (map_error noise (n.write_handshake h)) _ w w' tt e in
      let (_, v, out, k') = continue-eq-done _ _ tt w' k in
      let f = send_peer-SendFrame n message w tt v out in
      let (bytes, u, heard, k'') = continue-eq-done _ _ tt w' k' in
      let a = await_peer-Awaited n _ bytes v u heard in
      let (revealed, read, end) =
        lift-passed n (map_error noise (n.read_handshake sent bytes)) _ u w' tt k'' in
      let (checked, last, settled) = finish_initiator-Settled expected revealed u w' end in
      (
        record {
          bytes = bytes;
          before = sent;
          revealed = revealed;
          last = last;
          came = rw f.inbox at (rw f.self at a.came);
          read = noise-passed n _ revealed read;
          settled = rw f.self at (rw a.self at settled);
        },
        checked,
      )

  -- A successful handshake as initiator, from a stream that was not established.
  initiate_from-Agreed :
      (expected : Option (List ℕ)) (h : n.HandshakeState) (w w' : World E (EncryptedStream n))
      → initiate_from n (handshaking h) expected w ≡ (done tt, w')
      → (a : Agreed w w') × (validate n {E = E} expected (extract_remote_static n a.revealed)
          ≡ ok tt)
  initiate_from-Agreed expected h w w' e =
      let (placeholder, _, k) = lift-passed n (make_initiator_state n w.self) _ w w' tt e in
      let (a, checked) = run_initiator-Agreed expected h _ w' k in
      (
        record {
          bytes = a.bytes;
          before = a.before;
          revealed = a.revealed;
          last = a.last;
          came = a.came;
          read = a.read;
          settled = record {
            transport = a.settled.transport;
            mode = a.settled.mode;
            stream = a.settled.stream;
          };
        },
        checked,
      )

  validate_sound :
      (key : List ℕ) (actual : Option (List ℕ))
      → validate n {E = E} (some key) actual ≡ ok tt
      → actual ≡ some key
  validate_sound key none e = ground arith
  validate_sound key (some actual) e = elim (Bool-cases (same_bytes actual key)) [
    | inl same ↦ ap some ((same_bytes_iff actual key).0 same)
    | inr differs ↦ ground arith
  ]

  -- When `handshake_initiator` with an expected key, on a stream that is not established, reports
  -- success, the stream is established with just that key: a datagram had come from the peer's
  -- address that was read as a handshake message, and it revealed the expected key.
  pub handshake_initiator_sound :
      (key : List ℕ) (h : n.HandshakeState) (w w' : World E (EncryptedStream n))
      → w.self.state ≡ handshaking h
      → handshake_initiator n (some key) w ≡ (done tt, w')
      → Agreed w w' × (w'.self.remote_static_key ≡ some key)
  unfolding handshake_initiator
  handshake_initiator_sound key h w w' state e =
      let begun = subst (λ s. initiate_from n s (some key) w ≡ (done tt, w')) state e in
      let (a, checked) = initiate_from-Agreed (some key) h w w' begun in
      (a, rw a.settled.stream (validate_sound key _ checked))

  finish_responder-Agreed :
      (deadline : ℕ) (h : n.HandshakeState) (w w' : World E (EncryptedStream n))
      → finish_responder n deadline h w ≡ (done tt, w')
      → Agreed w w'
  unfolding finish_responder
  finish_responder-Agreed deadline h w w' e =
      let (bytes, u, heard, k) = continue-eq-done _ _ tt w' e in
      let a = await_peer-Awaited n deadline bytes w u heard in
      let (revealed, read, end) =
        lift-passed n (map_error noise (n.read_handshake h bytes)) _ u w' tt k in
      record {
        bytes = bytes;
        before = h;
        revealed = revealed;
        last = revealed;
        came = a.came;
        read = noise-passed n _ revealed read;
        settled = rw a.self at (establish-Settled n revealed _ u w' end);
      }

  -- When `handshake_responder` reports success, the stream is established, and a datagram had come
  -- from the peer's address that was read as a handshake message, which revealed the key recorded.
  pub handshake_responder_sound :
      (w w' : World E (EncryptedStream n)) → handshake_responder n w ≡ (done tt, w') → Agreed w w'
  unfolding handshake_responder
  handshake_responder_sound w w' e =
      let (h, _, k) = lift-passed n (make_responder_state n w.self) _ w w' tt e in
      let (bytes, u, heard, k') = continue-eq-done _ _ tt w' k in
      let first = await_peer-Awaited n _ bytes w u heard in
      let (greeted, _, k'') =
        lift-passed n (map_error noise (n.read_handshake h bytes)) _ u w' tt k' in
      let ((message, sent), _, k''') =
        lift-passed n (map_error noise (n.write_handshake greeted)) _ u w' tt k'' in
      let (_, v, out, k4) = continue-eq-done _ _ tt w' k''' in
      let f = send_peer-SendFrame n message u tt v out in
      let a = finish_responder-Agreed _ sent v w' k4 in
      let same : v.self ≡ w.self = f.self ∙ first.self in
      record {
        bytes = a.bytes;
        before = a.before;
        revealed = a.revealed;
        last = a.last;
        came = first.older w.self.remote_addr a.bytes (rw f.inbox at (rw same at a.came));
        read = a.read;
        settled = rw same at a.settled;
      }
