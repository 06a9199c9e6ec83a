-- ===== src/Suite/Transport.antt =====
-- The tests in crates/hyperswarm-rs/src/transport.rs of one stream.
use hyperswarm.Base.{
  ℕ, ◌≡◌, refl, Bool, true, none, some, List, [], ◌∷◌, String, arith, length, take_of_le,
}
use hyperswarm.Net.{Result, ok, World, SocketAddr, v4, Outcome, done}
use hyperswarm.Net.Zoom.{with_self}
use hyperswarm.Transport.{
  Noise, Keypair, EncryptedStream, handshaking, TransportError, first32, new_stream,
  generate_keypair_and_initiator, send,
}
use hyperswarm.Suite.{unwrap, is_ok, is_err, is_none, awaited, created}

abbrev remote_addr : SocketAddr
remote_addr = record { ip = v4 127 0 0 1; port = 8080 }

module _ (n : Noise) (E : Type 0) (keypair : Result String Keypair) where
  abbrev test_stream : Outcome (TransportError E) (EncryptedStream n)
  test_stream = new_stream n keypair remote_addr

  unfoldable test_encrypted_stream_creation : Bool
  test_encrypted_stream_creation = created test_stream λ stream. is_ok stream

  unfoldable test_noise_handshake_state_creation : Bool
  test_noise_handshake_state_creation =
      created (generate_keypair_and_initiator n {E = E} keypair) λ result. is_ok result

  unfoldable test_send_recv_without_handshake : World E (Unit {0}) → Bool
  test_send_recv_without_handshake w = created test_stream λ result. unwrap result λ stream.
      awaited (send n (b't' ∷ b'e' ∷ b's' ∷ b't' ∷ []) (with_self stream w))
        λ sent after. is_err sent

  unfoldable test_address_validation_in_recv : Bool
  test_address_validation_in_recv = created test_stream λ stream. is_ok stream

  unfoldable test_remote_static_key_not_set_before_handshake : Bool
  test_remote_static_key_not_set_before_handshake =
      created test_stream λ result. unwrap result λ stream. is_none stream.remote_static_key

-- A stream that was just created.
abbrev pub fresh : (n : Noise) → SocketAddr → List ℕ → List ℕ → n.HandshakeState → EncryptedStream n
fresh n addr public private h = record {
  remote_addr = addr;
  state = handshaking h;
  remote_static_key = none;
  local_static_pubkey = public;
  local_static_privkey = private;
}

whole : (n : Noise) (key : List ℕ) → length key ≡ 32 → first32 n key ≡ some key
whole n key size = let all = take_of_le 32 key (omega (arith, size)) in ground arith

abbrev pub pair_of : List ℕ → List ℕ → Result String Keypair
pair_of public private = ok (record { public = public; private = private })

-- When a key pair is generated, with keys of 32 bytes, and snow builds a state from it.
module _ (n : Noise) (E : Type 0) (public private : List ℕ) (h : n.HandshakeState)
    (size_public : length public ≡ 32) (size_private : length private ≡ 32)
    (built : n.build_initiator private ≡ ok h) where
  pub new_stream-fresh :
      (addr : SocketAddr)
      → new_stream n {E = E} (pair_of public private) addr ≡ done (fresh n addr public private h)
  unfolding new_stream generate_keypair_and_initiator
  new_stream-fresh addr =
      rw (whole n public size_public, whole n private size_private) (ground arith)

  test_encrypted_stream_creation_passes :
      test_encrypted_stream_creation n E (pair_of public private) ≡ true
  unfolding test_encrypted_stream_creation
  test_encrypted_stream_creation_passes = rw (new_stream-fresh remote_addr) refl

  test_noise_handshake_state_creation_passes :
      test_noise_handshake_state_creation n E (pair_of public private) ≡ true
  unfolding test_noise_handshake_state_creation generate_keypair_and_initiator
  test_noise_handshake_state_creation_passes =
      rw (whole n public size_public, whole n private size_private) (ground arith)

  test_send_recv_without_handshake_passes :
      (w : World E (Unit {0}))
      → test_send_recv_without_handshake n E (pair_of public private) w ≡ true
  unfolding test_send_recv_without_handshake send
  test_send_recv_without_handshake_passes w = rw (new_stream-fresh remote_addr) refl

  test_address_validation_in_recv_passes :
      test_address_validation_in_recv n E (pair_of public private) ≡ true
  unfolding test_address_validation_in_recv
  test_address_validation_in_recv_passes = rw (new_stream-fresh remote_addr) refl

  test_remote_static_key_not_set_before_handshake_passes :
      test_remote_static_key_not_set_before_handshake n E (pair_of public private) ≡ true
  unfolding test_remote_static_key_not_set_before_handshake
  test_remote_static_key_not_set_before_handshake_passes = rw (new_stream-fresh remote_addr) refl
