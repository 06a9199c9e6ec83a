-- ===== src/Transport/Channel.antt =====
-- The encrypted channel of an established stream.
use hyperswarm.Base.{
  ℕ, zero, suc, ◌≤◌, ◌<◌, ◌≡◌, refl, ◌∙◌, none, List, [], ◌∷◌, ◌++◌, ◌≢◌, arith, length, max,
  Bool-cases, inl, inr,
}
use hyperswarm.Base.Lists.{length-append, take_of_le}
use hyperswarm.Net.{
  World, done, Event, datagram, recv_error, SocketAddr, same_addr, same_addr_iff, ok,
}
use hyperswarm.Net.Receive.{convert-eq-done, send_to-sent, recv_from_next}
use hyperswarm.Protocol.{map_error}
use hyperswarm.Transport.{
  Noise, EncryptedStream, StreamState, handshaking, established, io, noise, max_message_size,
  send_peer, send, send_from, recv, recv_rounds, receive_from, decrypt,
}
use hyperswarm.Transport.Auth.{lift-passed, noise-passed}

-- Datagrams, none of them from the address.
abbrev pub AllStrangers : {E : Type 0} → SocketAddr → List (ℕ × Event E) → Type 0
AllStrangers addr [] = Unit
AllStrangers addr ((_, datagram from _) ∷ rest) = (from ≢ addr) × AllStrangers addr rest
AllStrangers addr ((_, recv_error _) ∷ rest) = ⊥

module _ (n : Noise) where
  -- Two ends of a channel in step, for the next message: what snow encrypts at one end fits a
  -- datagram, and it decrypts that at the other end.
  pub record InStep (t1 t2 : n.TransportState) (bytes : List ℕ) : Type 0 where
    pub fits : (c : List ℕ) → (n.write_message t1 bytes).1 ≡ ok c → length c ≤ 65_535
    pub reads :
        (c : List ℕ) → (n.write_message t1 bytes).1 ≡ ok c → (n.read_message t2 c).1 ≡ ok bytes

module _ (n : Noise) {E : Type 0} where
  -- A receiving loop of enough rounds passes the strangers over.
  recv_rounds_skips :
      (strangers rest : List (ℕ × Event E)) (rounds time : ℕ) (raw : List ℕ)
      → (w : World E (EncryptedStream n)) → w.limit ≡ none
      → length strangers < rounds
      → length raw ≤ max_message_size
      → AllStrangers w.self.remote_addr strangers
      → w.inbox ≡ strangers ++ (time, datagram w.self.remote_addr raw) ∷ rest
      → (u : World E (EncryptedStream n)) × (recv_rounds n rounds w ≡ (done raw, u))
        × (u.self ≡ w.self)
        × (u.inbox ≡ rest)
        × (u.limit ≡ w.limit)
        × (u.sends ≡ w.sends)
        × (u.sent ≡ w.sent)
  unfolding recv_rounds
  recv_rounds_skips strangers rest zero time raw w l room fits all i = absurd (omega arith)
  recv_rounds_skips [] rest (suc rounds) time raw w l room fits all i =
      let same = (same_addr_iff w.self.remote_addr w.self.remote_addr).1 refl in
      let next = recv_from_next max_message_size time w.self.remote_addr raw rest w l i in
      let u = record w { now = max w.now time; inbox = rest } in
      (u, rw (next, same, take_of_le max_message_size raw fits) refl, refl, refl, refl, refl, refl)
  recv_rounds_skips ((t, datagram from bytes) ∷ strangers) rest (suc rounds) time raw w l room fits
        all i =
      let next = recv_from_next max_message_size t from bytes _ w l i in
      let v = record w {
        now = max w.now t;
        inbox = strangers ++ (time, datagram w.self.remote_addr raw) ∷ rest;
      } in
      let (u, e, self, inbox, kept, fates, out) =
        recv_rounds_skips strangers rest rounds time raw v l (omega arith) fits all.1 refl in
      elim (Bool-cases (same_addr from w.self.remote_addr)) [
        | inl s ↦ absurd (all.0 ((same_addr_iff from w.self.remote_addr).0 s))
        | inr s ↦ (u, rw (next, s) e, self, inbox, kept, fates, out)
      ]
  recv_rounds_skips ((t, recv_error f) ∷ strangers) rest (suc rounds) time raw w l room fits all i =
      absurd all

  decrypt_ok :
      (t : n.TransportState) (bytes plaintext : List ℕ) (w : World E (EncryptedStream n))
      → (n.read_message t bytes).1 ≡ ok plaintext
      → decrypt n t bytes w ≡ (
        done plaintext,
        record w { self = record w.self { state = established (n.read_message t bytes).0 } },
      )
  decrypt_ok t bytes plaintext w e = rw e refl

  receive_established :
      (t : n.TransportState) (raw plaintext : List ℕ) (w u : World E (EncryptedStream n))
      → (state : StreamState n) → state ≡ established t
      → recv_rounds n (suc (length w.inbox)) w ≡ (done raw, u)
      → u.self ≡ w.self
      → (n.read_message t raw).1 ≡ ok plaintext
      → receive_from n state w ≡ (
        done plaintext,
        record u { self = record w.self { state = established (n.read_message t raw).0 } },
      )
  receive_established t raw plaintext w u (handshaking h) state e self read = ground arith
  receive_established t raw plaintext w u (established t') state e self read =
      let same : t' ≡ t = ground arith in
      rw (same, e) (decrypt_ok t raw plaintext u read ∙ rw self refl)

  -- On a stream that is established, with no timer around: `recv` passes over what strangers have
  -- sent and gives the plaintext of the next datagram of the peer, if snow can decrypt that. It
  -- leaves the later datagrams in the inbox, keeps the transport's new state, sets no timer and
  -- sends nothing.
  pub recv_delivers :
      (strangers rest : List (ℕ × Event E)) (time : ℕ) (raw plaintext : List ℕ)
      → (t : n.TransportState) (w : World E (EncryptedStream n)) → w.limit ≡ none
      → w.self.state ≡ established t
      → length raw ≤ 65_535
      → (n.read_message t raw).1 ≡ ok plaintext
      → AllStrangers w.self.remote_addr strangers
      → w.inbox ≡ strangers ++ (time, datagram w.self.remote_addr raw) ∷ rest
      → ((recv n w).0 ≡ done plaintext)
        × ((recv n w).1.inbox ≡ rest)
        × ((recv n w).1.self ≡ record w.self { state = established (n.read_message t raw).0 })
        × ((recv n w).1.limit ≡ w.limit)
        × ((recv n w).1.sends ≡ w.sends)
        × ((recv n w).1.sent ≡ w.sent)
  unfolding recv
  recv_delivers strangers rest time raw plaintext t w l state fits read all i =
      let room : length strangers < suc (length w.inbox) =
        rw (i, length-append strangers ((time, datagram w.self.remote_addr raw) ∷ rest))
          (omega arith) in
      let (u, e, self, inbox, kept, fates, out) =
        recv_rounds_skips strangers rest _ time raw w l room fits all i in
      let run = receive_established t raw plaintext w u w.self.state state e self read in
      rw run (refl, inbox, refl, kept, fates, out)

  send_peer-sent :
      (bytes : List ℕ) (w w' : World E (EncryptedStream n))
      → send_peer n bytes w ≡ (done tt, w')
      → w'.sent ≡ (w.self.remote_addr, bytes) ∷ w.sent
  unfolding send_peer
  send_peer-sent bytes w w' e =
      send_to-sent bytes w.self.remote_addr w w' (convert-eq-done io _ tt w' e)

  -- A successful `send` has encrypted the data and has sent just that to the peer.
  send_from-sent :
      (t : n.TransportState) (state : StreamState n) (bytes : List ℕ)
      → (w w' : World E (EncryptedStream n)) → state ≡ established t
      → send_from n state bytes w ≡ (done tt, w')
      → (c : List ℕ) × ((n.write_message t bytes).1 ≡ ok c)
        × (w'.sent ≡ (w.self.remote_addr, c) ∷ w.sent)
  send_from-sent t (handshaking h) bytes w w' state e = ground arith
  send_from-sent t (established t') bytes w w' state e =
      let same : t' ≡ t = ground arith in
      let (c, written, k) =
        lift-passed n (map_error noise (n.write_message t' bytes).1) _ _ w' tt e in
      (c, rw⁻¹ same (noise-passed n _ c written), send_peer-sent c _ w' k)

  -- When the ends of a channel are in step, a `send` of some bytes that succeeded at one of them
  -- gives a datagram from which `recv` at the other, with no timer around, reads the same bytes,
  -- also when datagrams of strangers came before it.
  pub send-recv :
      (bytes sent : List ℕ) (strangers rest : List (ℕ × Event E)) (time : ℕ)
      → (t1 t2 : n.TransportState) (w1 w1' w2 : World E (EncryptedStream n)) → InStep n t1 t2 bytes
      → w1.self.state ≡ established t1
      → send n bytes w1 ≡ (done tt, w1')
      → w1'.sent ≡ (w1.self.remote_addr, sent) ∷ w1.sent
      → w2.limit ≡ none
      → w2.self.state ≡ established t2
      → AllStrangers w2.self.remote_addr strangers
      → w2.inbox ≡ strangers ++ (time, datagram w2.self.remote_addr sent) ∷ rest
      → (recv n w2).0 ≡ done bytes
  unfolding send
  send-recv bytes sent strangers rest time t1 t2 w1 w1' w2 step s1 e out l s2 all i =
      let (c, written, out') = send_from-sent t1 w1.self.state bytes w1 w1' s1 e in
      let same : sent ≡ c = ground arith in
      let written' : (n.write_message t1 bytes).1 ≡ ok sent = rw same written in
      (recv_delivers strangers rest time sent bytes t2 w2 l s2 (step.fits sent written')
        (step.reads sent written') all i).0
