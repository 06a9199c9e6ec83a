-- ===== src/Tests/Transport.antt =====
-- A stream over a handshake whose messages from the peer are the peer's key.
use hyperswarm.Base.{
  true, ℕ, suc, ◌+◌, ◌≡◌, refl, ap, ◌≢◌, Option, none, some, List, [], ◌∷◌, arith, take, drop,
  ℕ_discrete, same_bytes,
}
use hyperswarm.Net.{
  v4, SocketAddr, ok, done, World, Event, datagram, silent, timeout, recv_from, take_event, send_to,
  same_addr,
}
use hyperswarm.Net.Ends.{Ends}
use hyperswarm.Transport.{
  generate_keypair_and_initiator, Noise, Keypair, EncryptedStream, StreamState, handshaking,
  established, new_stream, handshake_initiator, run_initiator, finish_initiator, establish,
  send_peer, await_peer, await_rounds, on_packet, handshake_responder, finish_responder, send, recv,
}
use hyperswarm.Transport.Strangers.{without_strangers, recv-without_strangers}
use hyperswarm.Transport.Bounded.{handshakes_end}
use hyperswarm.Transport.Sound.{Agreed, handshake_initiator_sound, handshake_responder_sound}
use hyperswarm.Transport.Progress.{IsEstablished, Progress}
use hyperswarm.Transport.History.{
  StreamCall, initiate, respond, transmit, receive, run_stream, run_stream-new, run_stream-Progress,
}
use hyperswarm.Transport.Channel.{InStep, send-recv}

abbrev toy_read : ℕ → List ℕ → List ℕ
toy_read t [] = []
toy_read t (_ ∷ bytes) = bytes

abbrev toy_noise : Noise
toy_noise = record {
  HandshakeState = ℕ × Option (List ℕ);
  TransportState = ℕ;
  build_initiator = λ _. ok (0, none);
  build_responder = λ _. ok (10, none);
  write_handshake = λ h. ok (h.0 ∷ [], (suc h.0, h.1));
  read_handshake = λ h m. ok (suc h.0, some m);
  get_remote_static = λ h. h.1;
  into_transport_mode = λ h. ok h.0;
  write_message = λ t bytes. (suc t, ok (t ∷ bytes));
  read_message = λ t bytes. (suc t, ok (toy_read t bytes));
}

abbrev key_of : ℕ → List ℕ
key_of b =
    b ∷ b ∷ b ∷ b ∷ b ∷ b ∷ b ∷ b ∷ b ∷ b ∷ b ∷ b ∷ b ∷ b ∷ b ∷ b ∷ b ∷ b ∷ b ∷ b ∷ b ∷ b ∷ b ∷ b
    ∷ b ∷ b ∷ b ∷ b ∷ b ∷ b ∷ b ∷ b ∷ []

abbrev peer : SocketAddr
peer = record { ip = v4 127 0 0 1; port = 8001 }

abbrev stranger : SocketAddr
stranger = record { ip = v4 127 0 0 1; port = 9 }

stranger-ne-peer : stranger ≢ peer
stranger-ne-peer e = omega (arith, ap (λ (a : SocketAddr). a.port) e)

abbrev stream_in : StreamState toy_noise → EncryptedStream toy_noise
stream_in state = record {
  remote_addr = peer;
  state = state;
  remote_static_key = none;
  local_static_pubkey = key_of 3;
  local_static_privkey = key_of 4;
}

abbrev world_in : StreamState toy_noise → List (ℕ × Event ℕ) → World ℕ (EncryptedStream toy_noise)
world_in state inbox = record {
  now = 7;
  limit = none;
  inbox = inbox;
  sends = [];
  sent = [];
  dns = λ _ _. silent;
  ties = λ _. true;
  self = stream_in state;
}

-- A stranger's message, then the peer's.
abbrev opening : World ℕ (EncryptedStream toy_noise)
opening =
    world_in (handshaking (0, none))
      ((100, datagram stranger (key_of 9)) ∷ (200, datagram peer (key_of 5)) ∷ [])

-- The stream that agreed with the peer.
abbrev agreed : ℕ → EncryptedStream toy_noise
agreed t = record (stream_in (established t)) { remote_static_key = some (key_of 5) }

abbrev opened : World ℕ (EncryptedStream toy_noise)
opened = record opening {
  now = 200;
  inbox = [];
  sent = (peer, 2 ∷ []) ∷ (peer, 0 ∷ []) ∷ [];
  self = agreed 3;
}

run_opening : handshake_initiator toy_noise (some (key_of 5)) opening ≡ (done tt, opened)
unfolding handshake_initiator run_initiator finish_initiator establish send_peer await_peer
    await_rounds on_packet timeout recv_from take_event send_to same_addr same_bytes take drop
    ℕ_discrete
run_opening = refl

handshake_initiator_sound_example :
    Agreed toy_noise opening opened × (some (key_of 5) ≡ some (key_of 5))
handshake_initiator_sound_example =
    handshake_initiator_sound toy_noise (key_of 5) (0, none) opening opened refl run_opening

-- The two messages of an initiator.
abbrev greeted : World ℕ (EncryptedStream toy_noise)
greeted =
    world_in (handshaking (0, none))
      ((100, datagram peer (1 ∷ [])) ∷ (200, datagram peer (key_of 5)) ∷ [])

abbrev answered : World ℕ (EncryptedStream toy_noise)
answered = record greeted { now = 200; inbox = []; sent = (peer, 11 ∷ []) ∷ []; self = agreed 13 }

run_greeted : handshake_responder toy_noise greeted ≡ (done tt, answered)
unfolding handshake_responder finish_responder establish send_peer await_peer await_rounds on_packet
    timeout recv_from take_event send_to same_addr same_bytes take drop ℕ_discrete
run_greeted = refl

handshake_responder_sound_example : Agreed toy_noise greeted answered
handshake_responder_sound_example = handshake_responder_sound toy_noise greeted answered run_greeted

handshakes_end_example :
    Ends (7 + 30_000) greeted (handshake_initiator toy_noise (some (key_of 6)) greeted)
    × Ends (7 + 30_000) greeted (handshake_responder toy_noise greeted)
handshakes_end_example = handshakes_end toy_noise (some (key_of 6)) greeted

abbrev toy_keypair : Keypair
toy_keypair = record { public = key_of 3; private = key_of 4 }

created :
    new_stream toy_noise {E = ℕ} (ok toy_keypair) peer ≡ done (stream_in (handshaking (0, none)))
unfolding new_stream generate_keypair_and_initiator take
created = refl

abbrev some_calls : List StreamCall
some_calls = initiate (some (key_of 6)) ∷ transmit (1 ∷ []) ∷ respond ∷ receive ∷ []

run_stream-new_example :
    (run_stream toy_noise some_calls opening).self.remote_addr ≡ peer
    × (run_stream toy_noise some_calls opening).self.local_static_pubkey ≡ take 32 (key_of 3)
    × (run_stream toy_noise some_calls opening).self.local_static_privkey ≡ take 32 (key_of 4)
    × (¬ IsEstablished toy_noise (run_stream toy_noise some_calls opening).self.state
        → (run_stream toy_noise some_calls opening).self.remote_static_key ≡ none)
run_stream-new_example = run_stream-new toy_noise toy_keypair peer some_calls opening created

run_stream-Progress_example :
    Progress toy_noise opening.self (run_stream toy_noise some_calls opening).self
run_stream-Progress_example = run_stream-Progress toy_noise some_calls opening

-- The two ends of a channel.
abbrev sending : World ℕ (EncryptedStream toy_noise)
sending = world_in (established 3) []

abbrev sent_off : World ℕ (EncryptedStream toy_noise)
sent_off = record sending { sent = (peer, 3 ∷ 8 ∷ 9 ∷ []) ∷ []; self = stream_in (established 4) }

run_sending : send toy_noise (8 ∷ 9 ∷ []) sending ≡ (done tt, sent_off)
unfolding send send_peer send_to
run_sending = refl

abbrev receiving : World ℕ (EncryptedStream toy_noise)
receiving =
    world_in (established 3)
      ((100, datagram stranger (0 ∷ [])) ∷ (200, datagram peer (3 ∷ 8 ∷ 9 ∷ [])) ∷ [])

in_step : InStep toy_noise 3 3 (8 ∷ 9 ∷ [])
in_step = record { fits = λ c e. ground arith; reads = λ c e. ground arith }

send-recv_example : (recv toy_noise receiving).0 ≡ done (8 ∷ 9 ∷ [])
send-recv_example =
    send-recv toy_noise (8 ∷ 9 ∷ []) (3 ∷ 8 ∷ 9 ∷ []) ((100, datagram stranger (0 ∷ [])) ∷ []) []
      200 3 3 sending sent_off receiving in_step refl run_sending refl refl refl
      (stranger-ne-peer, tt) refl

recv-without_strangers_example :
    ((recv toy_noise receiving).0
      ≡ (recv toy_noise (record receiving { inbox = without_strangers peer receiving.inbox })).0)
    × ((recv toy_noise receiving).1.self
        ≡ (recv toy_noise
            (record receiving { inbox = without_strangers peer receiving.inbox })).1.self)
recv-without_strangers_example = recv-without_strangers toy_noise receiving refl
