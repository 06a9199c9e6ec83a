-- ===== src/Tests/Parties.antt =====
-- Two parties over a handshake in which a party's messages are its key.
use hyperswarm.Base.{
  true, ℕ, ◌≡◌, refl, ◌≢◌, ap, inr, Option, none, some, List, [], ◌∷◌, arith, get_or,
}
use hyperswarm.Net.{v4, SocketAddr, ok, fail, World, Event, datagram, silent}
use hyperswarm.Transport.{
  Noise, EncryptedStream, handshaking, peer_authentication_failed, handshake_initiator,
  handshake_responder,
}
use hyperswarm.Transport.Pattern.{Xx}
use hyperswarm.Transport.Pair.{InitiatorReady, ResponderReady, Agrees, handshake_pair}
use hyperswarm.Transport.Mismatch.{reset, handshake_mismatch}

abbrev pub open_noise : Noise
open_noise = record {
  HandshakeState = List ℕ × Option (List ℕ);
  TransportState = ℕ;
  build_initiator = λ key. ok (key, none);
  build_responder = λ key. ok (key, none);
  write_handshake = λ h. ok (h.0, h);
  read_handshake = λ h m. ok (h.0, some m);
  get_remote_static = λ h. h.1;
  into_transport_mode = λ h. ok 0;
  write_message = λ t bytes. (t, ok bytes);
  read_message = λ t bytes. (t, ok bytes);
}

abbrev pub key_of : ℕ → List ℕ
key_of b =
    b ∷ b ∷ b ∷ b ∷ b ∷ b ∷ b ∷ b ∷ b ∷ b ∷ b ∷ b ∷ b ∷ b ∷ b ∷ b ∷ b ∷ b ∷ b ∷ b ∷ b ∷ b ∷ b ∷ b
    ∷ b ∷ b ∷ b ∷ b ∷ b ∷ b ∷ b ∷ b ∷ []

abbrev pub run : Xx open_noise (key_of 3) (key_of 3) (key_of 5) (key_of 5)
run = record {
  initiator = (key_of 3, none);
  placeholder = (key_of 3, none);
  responder = (key_of 5, none);
  m1 = key_of 3;
  m2 = key_of 5;
  m3 = key_of 3;
  i1 = (key_of 3, none);
  i2 = (key_of 3, some (key_of 5));
  i3 = (key_of 3, some (key_of 5));
  r1 = (key_of 5, some (key_of 3));
  r2 = (key_of 5, some (key_of 3));
  r3 = (key_of 5, some (key_of 3));
  transport_i = 0;
  transport_r = 0;
  built = refl;
  answers = refl;
  write1 = refl;
  read1 = refl;
  write2 = refl;
  read2 = refl;
  write3 = refl;
  read3 = refl;
  mode_i = refl;
  mode_r = refl;
  key_r = refl;
  key_i = refl;
  size_i = refl;
  size_r = refl;
  fits1 = omega arith;
  fits2 = omega arith;
  fits3 = omega arith;
}

abbrev pub host : ℕ → SocketAddr
host port = record { ip = v4 127 0 0 1; port = port }

abbrev pub party : ℕ → ℕ → List (ℕ × Event ℕ) → World ℕ (EncryptedStream open_noise)
party key remote inbox = record {
  now = 7;
  limit = none;
  inbox = inbox;
  sends = [];
  sent = [];
  dns = λ _ _. silent;
  ties = λ _. true;
  self = record {
    remote_addr = host remote;
    state = handshaking (key_of key, none);
    remote_static_key = none;
    local_static_pubkey = key_of key;
    local_static_privkey = key_of key;
  };
}

-- A stranger's message comes before the responder's.
abbrev pub alice : World ℕ (EncryptedStream open_noise)
alice = party 3 2 ((20, datagram (host 9) (key_of 9)) ∷ (50, datagram (host 2) (key_of 5)) ∷ [])

abbrev pub bob : World ℕ (EncryptedStream open_noise)
bob = party 5 1 ((30, datagram (host 1) (key_of 3)) ∷ (70, datagram (host 1) (key_of 3)) ∷ [])

pub stranger-ne-bob : host 9 ≢ host 2
stranger-ne-bob e = omega (arith, ap (λ (a : SocketAddr). a.port) e)

abbrev pub alice_ready :
    InitiatorReady open_noise (key_of 3) (key_of 3) (key_of 5) (key_of 5) run alice
alice_ready = record {
  state = refl;
  privkey = refl;
  pubkey = refl;
  last = 100;
  ends = omega arith;
  free = tt;
  sends = refl;
  noise = (20, datagram (host 9) (key_of 9)) ∷ [];
  time = 50;
  rest = [];
  queue = refl;
  early = (omega arith, stranger-ne-bob, tt);
  soon = omega arith;
}

abbrev pub bob_ready : ResponderReady open_noise (key_of 3) (key_of 3) (key_of 5) (key_of 5) run bob
bob_ready = record {
  privkey = refl;
  pubkey = refl;
  last = 100;
  ends = omega arith;
  free = tt;
  sends = refl;
  noise1 = [];
  time1 = 30;
  noise3 = [];
  time3 = 70;
  rest = [];
  queue = refl;
  early1 = tt;
  early3 = tt;
  soon1 = omega arith;
  soon3 = omega arith;
}

handshake_pair_example :
    Agrees open_noise
      (key_of 3)
      (key_of 3)
      (key_of 5)
      (key_of 5)
      run
      alice
      0
      (key_of 5)
      ((host 2, key_of 3) ∷ (host 2, key_of 3) ∷ [])
      []
      (handshake_initiator open_noise (some (key_of 5)) alice)
    × Agrees open_noise
        (key_of 3)
        (key_of 3)
        (key_of 5)
        (key_of 5)
        run
        bob
        0
        (key_of 3)
        ((host 1, key_of 5) ∷ [])
        []
        (handshake_responder open_noise bob)
handshake_pair_example =
    handshake_pair open_noise (key_of 3) (key_of 3) (key_of 5) (key_of 5) run (some (key_of 5))
      alice bob (inr refl) alice_ready bob_ready

keys_differ : key_of 5 ≢ key_of 6
keys_differ e = omega (arith, ap (λ l. get_or l 0 0) e)

handshake_mismatch_example :
    ((handshake_initiator open_noise (some (key_of 6)) alice).0 ≡ fail peer_authentication_failed)
    × ((handshake_initiator open_noise (some (key_of 6)) alice).1.self
        ≡ reset open_noise (key_of 3, none) alice.self)
    × ((handshake_initiator open_noise (some (key_of 6)) alice).1.sent ≡ (host 2, key_of 3) ∷ [])
handshake_mismatch_example =
    handshake_mismatch open_noise (key_of 3) (key_of 3) (key_of 5) (key_of 5) run (key_of 6)
      keys_differ alice alice_ready
