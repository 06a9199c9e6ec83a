-- ===== src/Transport.antt =====
-- crates/hyperswarm-rs/src/transport.rs: `EncryptedStream`, a Noise XX handshake and an encrypted
-- channel over UDP. The crate `snow` is the parameter `Noise`. Times are in milliseconds.
pub mod Bounded
pub mod Auth
pub mod Sound
pub mod Channel
pub mod Awaits
pub mod Pattern
pub mod Pair
pub mod Mismatch
pub mod Strangers
pub mod Progress
pub mod History
pub mod Conversation
use hyperswarm.Base.{
  ℕ, zero, suc, ◌+◌, ◌-◌, Bool, true, false, Option, none, some, List, [], ◌∷◌, String, length,
  take, leb, same_bytes, if◌then◌else◌,
}
use hyperswarm.Net.{
  SocketAddr, same_addr, Result, ok, err, Outcome, done, fail, elapsed, pending, panicked, World, M,
  ◌>>=◌, ◌>>◌, pure, throw, lift, map_err, get_self, put_self, instant_now, recv_from, send_to,
  timeout,
}
use hyperswarm.Protocol.{map_error}

pub record Keypair : Type 0 where
  pub public : List ℕ
  pub private : List ℕ

-- `snow`, with the parameters `Noise_XX_25519_ChaChaPoly_BLAKE2s`. An error is given by its text,
-- and an operation gives the new state with its result.
pub record Noise : Type 1 where
  pub HandshakeState : Type 0
  pub TransportState : Type 0
  pub build_initiator : List ℕ → Result String HandshakeState
  pub build_responder : List ℕ → Result String HandshakeState
  -- `HandshakeState::write_message` with no payload, `read_message`, `get_remote_static` and
  -- `into_transport_mode`.
  pub write_handshake : HandshakeState → Result String (List ℕ × HandshakeState)
  pub read_handshake : HandshakeState → List ℕ → Result String HandshakeState
  pub get_remote_static : HandshakeState → Option (List ℕ)
  pub into_transport_mode : HandshakeState → Result String TransportState
  -- `TransportState::write_message` and `read_message`.
  pub write_message : TransportState → List ℕ → TransportState × Result String (List ℕ)
  pub read_message : TransportState → List ℕ → TransportState × Result String (List ℕ)

pub data TransportError (E : Type 0) : Type 0 where
  io : E → TransportError E
  noise : String → TransportError E
  handshake_incomplete invalid_message peer_authentication_failed : TransportError E

abbrev pub max_message_size : ℕ
max_message_size = 65_535

abbrev pub handshake_timeout : ℕ
handshake_timeout = 30_000

module _ (n : Noise) where
  pub data StreamState : Type 0 where
    handshaking : n.HandshakeState → StreamState
    established : n.TransportState → StreamState

  -- The socket is the world's.
  pub record EncryptedStream : Type 0 where
    pub remote_addr : SocketAddr
    pub state : StreamState
    pub remote_static_key : Option (List ℕ)
    pub local_static_pubkey : List ℕ
    pub local_static_privkey : List ℕ

  -- `array.copy_from_slice(&key[..32])`; `none` is a panic.
  abbrev pub first32 : List ℕ → Option (List ℕ)
  first32 key = if leb 32 (length key) then some (take 32 key) else none

  module _ {E : Type 0} where
    -- The handshake state, the public and the private key.
    abbrev copy_keys :
        Option (List ℕ)
        → Option (List ℕ)
        → Outcome (TransportError E) (n.HandshakeState × List ℕ × List ℕ)
    copy_keys none privkey = panicked
    copy_keys (some pubkey) none = panicked
    copy_keys (some pubkey) (some privkey) = elim (n.build_initiator privkey) [
      | err text ↦ fail (noise text)
      | ok handshake ↦ done (handshake, pubkey, privkey)
    ]

    -- With the result of `generate_keypair` given.
    unfoldable pub generate_keypair_and_initiator :
        Result String Keypair → Outcome (TransportError E) (n.HandshakeState × List ℕ × List ℕ)
    generate_keypair_and_initiator (err text) = fail (noise text)
    generate_keypair_and_initiator (ok keypair) =
        copy_keys (first32 keypair.public) (first32 keypair.private)

    abbrev stream_of :
        SocketAddr
        → Outcome (TransportError E) (n.HandshakeState × List ℕ × List ℕ)
        → Outcome (TransportError E) EncryptedStream
    stream_of remote_addr (done (handshake, pubkey, privkey)) = done (record {
      remote_addr = remote_addr;
      state = handshaking handshake;
      remote_static_key = none;
      local_static_pubkey = pubkey;
      local_static_privkey = privkey;
    })
    stream_of remote_addr (fail e) = fail e
    stream_of remote_addr elapsed = elapsed
    stream_of remote_addr pending = pending
    stream_of remote_addr panicked = panicked

    -- `EncryptedStream::new`.
    unfoldable pub new_stream :
        Result String Keypair → SocketAddr → Outcome (TransportError E) EncryptedStream
    new_stream keypair remote_addr = stream_of remote_addr (generate_keypair_and_initiator keypair)

  abbrev pub make_initiator_state :
      {E : Type 0} → EncryptedStream → Result (TransportError E) n.HandshakeState
  make_initiator_state s = map_error noise (n.build_initiator s.local_static_privkey)

  abbrev pub make_responder_state :
      {E : Type 0} → EncryptedStream → Result (TransportError E) n.HandshakeState
  make_responder_state s = map_error noise (n.build_responder s.local_static_privkey)

  abbrev pub long_enough : Option (List ℕ) → Option (List ℕ)
  long_enough none = none
  long_enough (some key) = first32 key

  abbrev pub extract_remote_static : n.HandshakeState → Option (List ℕ)
  extract_remote_static handshake = long_enough (n.get_remote_static handshake)

  -- "Validate the remote key if the caller supplied an expected value."
  abbrev pub validate :
      {E : Type 0} → Option (List ℕ) → Option (List ℕ) → Result (TransportError E) (Unit {0})
  validate none actual = ok tt
  validate (some expected) (some actual) =
      if same_bytes actual expected then ok tt else err peer_authentication_failed
  validate (some expected) none = err peer_authentication_failed

  module _ {E : Type 0} where
    -- The branches of the receiving loops of the handshakes; `next` is the rest of the loop.
    unfoldable pub on_packet :
        M E EncryptedStream (TransportError E) (List ℕ)
        → Option (Result E (SocketAddr × List ℕ))
        → M E EncryptedStream (TransportError E) (List ℕ)
    on_packet next (some (ok (from, bytes))) w =
        (if same_addr from w.self.remote_addr then pure bytes else next) w
    on_packet next (some (err _)) w = throw handshake_incomplete w
    on_packet next none w = throw handshake_incomplete w

    -- The receiving loop, by the rounds left: each takes a datagram or ends.
    unfoldable pub await_rounds : ℕ → ℕ → M E EncryptedStream (TransportError E) (List ℕ)
    await_rounds zero deadline w = (pending, w)
    await_rounds (suc rounds) deadline w =
        if leb deadline w.now
        then (fail handshake_incomplete, w)
        else (timeout (deadline - w.now) (recv_from max_message_size)
              >>= on_packet (await_rounds rounds deadline))
            w

    unfoldable pub await_peer : ℕ → M E EncryptedStream (TransportError E) (List ℕ)
    await_peer deadline w = await_rounds (suc (length w.inbox)) deadline w

    -- `socket.send_to(&buf[..len], self.remote_addr)`
    unfoldable pub send_peer : List ℕ → M E EncryptedStream (TransportError E) (Unit {0})
    send_peer bytes = do s ← get_self; map_err io (send_to bytes s.remote_addr)

    -- The end of both handshakes.
    unfoldable pub establish :
        n.HandshakeState → Option (List ℕ) → M E EncryptedStream (TransportError E) (Unit {0})
    establish handshake remote_static = do
      transport ← lift (map_error noise (n.into_transport_mode handshake))
      s ← get_self
      put_self (record s { state = established transport; remote_static_key = remote_static })

    -- "-> s, se" and the transition, once the peer's key is known.
    unfoldable pub finish_initiator :
        Option (List ℕ) → n.HandshakeState → M E EncryptedStream (TransportError E) (Unit {0})
    finish_initiator expected handshake = do
      lift (validate expected (extract_remote_static handshake))
      (message, last) ← lift (map_error noise (n.write_handshake handshake))
      send_peer message
      establish last (extract_remote_static handshake)

    unfoldable pub run_initiator :
        Option (List ℕ) → n.HandshakeState → M E EncryptedStream (TransportError E) (Unit {0})
    run_initiator expected handshake = do
      (message, sent) ← lift (map_error noise (n.write_handshake handshake))
      send_peer message
      start ← instant_now
      bytes ← await_peer (start + handshake_timeout)
      revealed ← lift (map_error noise (n.read_handshake sent bytes))
      finish_initiator expected revealed

    -- The state is replaced by a placeholder before the handshake begins.
    abbrev pub initiate_from :
        StreamState → Option (List ℕ) → M E EncryptedStream (TransportError E) (Unit {0})
    initiate_from (established _) expected = pure tt
    initiate_from (handshaking handshake) expected = do
      s ← get_self
      placeholder ← lift (make_initiator_state s)
      put_self (record s { state = handshaking placeholder })
      run_initiator expected handshake

    unfoldable pub handshake_initiator :
        Option (List ℕ) → M E EncryptedStream (TransportError E) (Unit {0})
    handshake_initiator expected w = initiate_from w.self.state expected w

    -- "<- s, se" and the transition.
    unfoldable pub finish_responder :
        ℕ → n.HandshakeState → M E EncryptedStream (TransportError E) (Unit {0})
    finish_responder deadline handshake = do
      bytes ← await_peer deadline
      last ← lift (map_error noise (n.read_handshake handshake bytes))
      establish last (extract_remote_static last)

    unfoldable pub handshake_responder : M E EncryptedStream (TransportError E) (Unit {0})
    handshake_responder = do
      s ← get_self
      handshake ← lift (make_responder_state s)
      start ← instant_now
      bytes ← await_peer (start + handshake_timeout)
      greeted ← lift (map_error noise (n.read_handshake handshake bytes))
      (message, sent) ← lift (map_error noise (n.write_handshake greeted))
      send_peer message
      finish_responder (start + handshake_timeout) sent

    abbrev send_from : StreamState → List ℕ → M E EncryptedStream (TransportError E) (Unit {0})
    send_from (handshaking _) bytes = throw handshake_incomplete
    send_from (established transport) bytes = do
      let (after, written) = n.write_message transport bytes
      s ← get_self
      put_self (record s { state = established after })
      message ← lift (map_error noise written)
      send_peer message

    unfoldable pub send : List ℕ → M E EncryptedStream (TransportError E) (Unit {0})
    send bytes w = send_from w.self.state bytes w

    -- The receiving loop of `recv`, by the rounds left: each takes a datagram, or waits.
    unfoldable pub recv_rounds : ℕ → M E EncryptedStream (TransportError E) (List ℕ)
    recv_rounds zero w = (pending, w)
    recv_rounds (suc rounds) w =
        (map_err io (recv_from max_message_size) >>= λ (from, bytes) w'.
        (if same_addr from w'.self.remote_addr then pure bytes else recv_rounds rounds) w')
          w

    -- Decrypt with the transport state that the stream has.
    abbrev decrypt : n.TransportState → List ℕ → M E EncryptedStream (TransportError E) (List ℕ)
    decrypt transport bytes = do
      let (after, plaintext) = n.read_message transport bytes
      s ← get_self
      put_self (record s { state = established after })
      lift (map_error noise plaintext)

    abbrev receive_from : StreamState → M E EncryptedStream (TransportError E) (List ℕ)
    receive_from (handshaking _) w = throw handshake_incomplete w
    receive_from (established transport) w =
        (recv_rounds (suc (length w.inbox)) >>= decrypt transport) w

    unfoldable pub recv : M E EncryptedStream (TransportError E) (List ℕ)
    recv w = receive_from w.self.state w
