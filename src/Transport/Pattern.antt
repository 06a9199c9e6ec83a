-- ===== src/Transport/Pattern.antt =====
-- The pattern that a handshake runs, and the steps that both parties share.
use hyperswarm.Base.{
  ℕ, ◌≤◌, ◌≡◌, refl, Option, none, some, List, [], ◌∷◌, arith, length, take_of_le, same_bytes_refl,
  ◌⊎◌, inl, inr,
}
use hyperswarm.Net.{World, done, ok, send_to}
use hyperswarm.Transport.{
  Noise, EncryptedStream, established, send_peer, establish, validate, extract_remote_static,
}

-- A run of the pattern XX with no payloads between two parties, as snow documents it: with both
-- private keys the states are built, each message that one writes the other reads, a party's key
-- is revealed by its message with `s`, and both states become transports. A message fits a
-- datagram and a key has 32 bytes.
pub record Xx (n : Noise) (priv_i pub_i priv_r pub_r : List ℕ) : Type 0 where
  pub initiator : n.HandshakeState
  pub placeholder : n.HandshakeState
  pub responder : n.HandshakeState
  pub m1 : List ℕ
  pub m2 : List ℕ
  pub m3 : List ℕ
  -- The states after one step, two and three.
  pub i1 : n.HandshakeState
  pub i2 : n.HandshakeState
  pub i3 : n.HandshakeState
  pub r1 : n.HandshakeState
  pub r2 : n.HandshakeState
  pub r3 : n.HandshakeState
  pub transport_i : n.TransportState
  pub transport_r : n.TransportState
  pub built : n.build_initiator priv_i ≡ ok placeholder
  pub answers : n.build_responder priv_r ≡ ok responder
  pub write1 : n.write_handshake initiator ≡ ok (m1, i1)
  pub read1 : n.read_handshake responder m1 ≡ ok r1
  pub write2 : n.write_handshake r1 ≡ ok (m2, r2)
  pub read2 : n.read_handshake i1 m2 ≡ ok i2
  pub write3 : n.write_handshake i2 ≡ ok (m3, i3)
  pub read3 : n.read_handshake r2 m3 ≡ ok r3
  pub mode_i : n.into_transport_mode i3 ≡ ok transport_i
  pub mode_r : n.into_transport_mode r3 ≡ ok transport_r
  pub key_r : n.get_remote_static i2 ≡ some pub_r
  pub key_i : n.get_remote_static r3 ≡ some pub_i
  pub size_i : length pub_i ≡ 32
  pub size_r : length pub_r ≡ 32
  pub fits1 : length m1 ≤ 65_535
  pub fits2 : length m2 ≤ 65_535
  pub fits3 : length m3 ≤ 65_535

module _ (n : Noise) where
  -- A key of 32 bytes is taken as it is.
  pub extract_key :
      (h : n.HandshakeState) (key : List ℕ)
      → n.get_remote_static h ≡ some key
      → length key ≡ 32
      → extract_remote_static n h ≡ some key
  extract_key h key known size =
      let whole = take_of_le 32 key (omega (arith, size)) in rw (known, whole) (ground arith)

module _ (n : Noise) {E : Type 0} where
  pub send_peer-sent :
      (bytes : List ℕ) (w : World E (EncryptedStream n))
      → w.sends ≡ []
      → send_peer n bytes w
        ≡ (done tt, record w { sends = []; sent = (w.self.remote_addr, bytes) ∷ w.sent })
  unfolding send_peer send_to
  send_peer-sent bytes w s = rw s refl

  pub establish-ok :
      (h : n.HandshakeState) (t : n.TransportState) (key : Option (List ℕ))
      → (w : World E (EncryptedStream n)) → n.into_transport_mode h ≡ ok t
      → establish n h key w ≡ (
        done tt,
        record w { self = record w.self { state = established t; remote_static_key = key } },
      )
  unfolding establish
  establish-ok h t key w e = rw e refl

  pub validate-none_or_same :
      (expected : Option (List ℕ)) (key : List ℕ)
      → (expected ≡ none) ⊎ (expected ≡ some key)
      → validate n {E = E} expected (some key) ≡ ok tt
  validate-none_or_same expected key (inl e) = rw e refl
  validate-none_or_same expected key (inr e) = rw (e, same_bytes_refl key) refl

-- A stream as `x` has it: established, with the peer's key.
abbrev pub agreed : (n : Noise) → EncryptedStream n → n.TransportState → List ℕ → EncryptedStream n
agreed n s t key = record s { state = established t; remote_static_key = some key }
