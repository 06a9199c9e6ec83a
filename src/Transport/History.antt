-- ===== src/Transport/History.antt =====
-- Histories of calls on one stream, from `EncryptedStream::new` on.
use hyperswarm.Base.{ℕ, ◌≡◌, refl, ◌∙◌, Option, none, List, [], ◌∷◌, arith, take}
use hyperswarm.Net.{World, done, ok, SocketAddr}
use hyperswarm.Net.Moves.{IsPreorder, Moves}
use hyperswarm.Transport.{
  Noise, Keypair, EncryptedStream, new_stream, generate_keypair_and_initiator, handshake_initiator,
  handshake_responder, send, recv,
}
use hyperswarm.Transport.Progress.{
  Progress, IsEstablished, Progress-IsPreorder, handshake_initiator-Moves,
  handshake_responder-Moves, send-Moves, recv-Moves,
}

pub data StreamCall : Type 0 where
  initiate : Option (List ℕ) → StreamCall
  respond receive : StreamCall
  transmit : List ℕ → StreamCall

module _ (n : Noise) where
  -- A new stream.
  pub record IsNew (addr : SocketAddr) (keypair : Keypair) (s : EncryptedStream n) : Type 0 where
    pub address : s.remote_addr ≡ addr
    pub pubkey : s.local_static_pubkey ≡ take 32 keypair.public
    pub privkey : s.local_static_privkey ≡ take 32 keypair.private
    pub opening : ¬ IsEstablished n s.state
    pub unknown : s.remote_static_key ≡ none

module _ (n : Noise) {E : Type 0} where
  -- The world after a call, whatever its outcome.
  pub stream_call : StreamCall → World E (EncryptedStream n) → World E (EncryptedStream n)
  stream_call (initiate expected) w = (handshake_initiator n expected w).1
  stream_call respond w = (handshake_responder n w).1
  stream_call (transmit bytes) w = (send n bytes w).1
  stream_call receive w = (recv n w).1

  pub run_stream : List StreamCall → World E (EncryptedStream n) → World E (EncryptedStream n)
  run_stream [] w = w
  run_stream (c ∷ calls) w = run_stream calls (stream_call c w)

  stream_call-Progress :
      (c : StreamCall) (w : World E (EncryptedStream n)) → Progress n w.self (stream_call c w).self
  unfolding stream_call
  stream_call-Progress (initiate expected) w =
      Moves.moved (handshake_initiator-Moves n (Progress-IsPreorder n) expected w)
  stream_call-Progress respond w =
      Moves.moved (handshake_responder-Moves n (Progress-IsPreorder n) w)
  stream_call-Progress (transmit bytes) w =
      Moves.moved (send-Moves n (Progress-IsPreorder n) bytes w)
  stream_call-Progress receive w = Moves.moved (recv-Moves n (Progress-IsPreorder n) w)

  -- Any calls, with any outcomes, keep the peer's address and the own keys, leave an established
  -- stream established, and change the peer's key only if the stream is established afterwards.
  pub run_stream-Progress :
      (calls : List StreamCall) (w : World E (EncryptedStream n))
      → Progress n w.self (run_stream calls w).self
  unfolding run_stream
  run_stream-Progress [] w = IsPreorder.stays (Progress-IsPreorder n) _ _ refl
  run_stream-Progress (c ∷ calls) w =
      IsPreorder.trans (Progress-IsPreorder n) _ _ _ (stream_call-Progress c w)
        (run_stream-Progress calls (stream_call c w))

  new_stream-IsNew :
      (keypair : Keypair) (addr : SocketAddr) (s : EncryptedStream n)
      → new_stream n {E = E} (ok keypair) addr ≡ done s
      → IsNew n addr keypair s
  unfolding new_stream generate_keypair_and_initiator
  new_stream-IsNew keypair addr s e = ground arith

  -- Whatever calls are made on a new stream, and whatever the network does: it keeps the peer's
  -- address and the generated keys, and while it is not established it has no key of the peer.
  pub run_stream-new :
      (keypair : Keypair) (addr : SocketAddr) (calls : List StreamCall)
      → (w : World E (EncryptedStream n)) → new_stream n {E = E} (ok keypair) addr ≡ done w.self
      → (run_stream calls w).self.remote_addr ≡ addr
        × (run_stream calls w).self.local_static_pubkey ≡ take 32 keypair.public
        × (run_stream calls w).self.local_static_privkey ≡ take 32 keypair.private
        × (¬ IsEstablished n (run_stream calls w).self.state
            → (run_stream calls w).self.remote_static_key ≡ none)
  run_stream-new keypair addr calls w e =
      let new = new_stream-IsNew keypair addr w.self e in
      let moved = run_stream-Progress calls w in
      (
        moved.address ∙ new.address,
        moved.pubkey ∙ new.pubkey,
        moved.privkey ∙ new.privkey,
        λ h. moved.recorded h ∙ new.unknown,
      )
