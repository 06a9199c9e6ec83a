-- ===== src/Suite/Streams.antt =====
-- crates/hyperswarm-rs/tests/encrypted_transport.rs: two streams, each with a socket of its own,
-- that shake hands and then send to one another.
pub mod Passes
pub mod Connected
use hyperswarm.Base.{
  ℕ, Bool, true, false, ◌&&◌, Option, none, some, List, [], ◌∷◌, String, same_bytes,
}
use hyperswarm.Net.{Result, World, SocketAddr, Outcome, done, timeout}
use hyperswarm.Net.Zoom.{with_self}
use hyperswarm.Transport.{
  Noise, Keypair, EncryptedStream, TransportError, handshake_initiator, handshake_responder, send,
  recv,
}
use hyperswarm.Suite.{unwrap, awaited}
use hyperswarm.Suite.Handshakes.{both_created}

-- b"Hello from Peer 1!" and b"Hello back from Peer 2!"
abbrev pub hello : List ℕ
hello =
    b'H' ∷ b'e' ∷ b'l' ∷ b'l' ∷ b'o' ∷ b' ' ∷ b'f' ∷ b'r' ∷ b'o' ∷ b'm' ∷ b' ' ∷ b'P' ∷ b'e' ∷ b'e'
    ∷ b'r' ∷ b' ' ∷ b'1' ∷ b'!' ∷ []

abbrev pub hello_back : List ℕ
hello_back =
    b'H' ∷ b'e' ∷ b'l' ∷ b'l' ∷ b'o' ∷ b' ' ∷ b'b' ∷ b'a' ∷ b'c' ∷ b'k' ∷ b' ' ∷ b'f' ∷ b'r' ∷ b'o'
    ∷ b'm' ∷ b' ' ∷ b'P' ∷ b'e' ∷ b'e' ∷ b'r' ∷ b' ' ∷ b'2' ∷ b'!' ∷ []

-- `format!("Message {}", i)` for the digits 0 to 4.
abbrev numbered : ℕ → List ℕ
numbered digit = b'M' ∷ b'e' ∷ b's' ∷ b's' ∷ b'a' ∷ b'g' ∷ b'e' ∷ b' ' ∷ digit ∷ []

abbrev pub five_messages : List (List ℕ)
five_messages = numbered b'0' ∷ numbered b'1' ∷ numbered b'2' ∷ numbered b'3' ∷ numbered b'4' ∷ []

abbrev pub three_seconds : ℕ
three_seconds = 3000

-- `tokio::join!` of two calls under a timer, with the rest of the test on both sockets.
abbrev pub joined_worlds :
    {E S Err X Y : Type 0}
    → Outcome Err (Option (Result Err X)) × World E S
    → Outcome Err (Option (Result Err Y)) × World E S
    → (Result Err X → World E S → Result Err Y → World E S → Bool)
    → Bool
joined_worlds (done (some r1), w1) (done (some r2), w2) rest = rest r1 w1 r2 w2
joined_worlds _ _ rest = false

module _ (n : Noise) {E : Type 0} where
  -- One end sends a message, and the other has to receive it.
  abbrev pub passed :
      List ℕ
      → World E (EncryptedStream n)
      → World E (EncryptedStream n)
      → (World E (EncryptedStream n) → World E (EncryptedStream n) → Bool)
      → Bool
  passed message v1 v2 rest = awaited (send n message v1) λ sent after1. unwrap sent λ _.
      awaited (recv n v2)
        λ got after2. unwrap got λ received. same_bytes received message && rest after1 after2

  abbrev pub each_passed :
      List (List ℕ) → World E (EncryptedStream n) → World E (EncryptedStream n) → Bool
  each_passed [] v1 v2 = true
  each_passed (m ∷ ms) v1 v2 = passed m v1 v2 λ after1 after2. each_passed ms after1 after2

  module _ (keypair1 keypair2 : Result String Keypair) (a1 a2 : SocketAddr)
      (w1 w2 : World E (Unit {0})) where
    -- Both streams are created and have shaken hands.
    abbrev pub connected : (World E (EncryptedStream n) → World E (EncryptedStream n) → Bool) → Bool
    connected rest = both_created n keypair1 keypair2 a1 a2 w1 w2 λ stream1 stream2.
        joined_worlds (timeout three_seconds (handshake_initiator n none) (with_self stream1 w1))
          (timeout three_seconds (handshake_responder n) (with_self stream2 w2))
          λ result1 v1 result2 v2. unwrap result1 λ _. unwrap result2 λ _. rest v1 v2

    unfoldable pub test_encrypted_stream_round_trip : Bool
    test_encrypted_stream_round_trip =
        connected
          λ v1 v2. passed hello v1 v2 λ after1 after2. passed hello_back after2 after1 λ _ _. true

    unfoldable pub test_encrypted_stream_multiple_messages : Bool
    test_encrypted_stream_multiple_messages = connected λ v1 v2. each_passed five_messages v1 v2
