-- ===== src/Suite/Handshakes.antt =====
-- The tests in crates/hyperswarm-rs/src/transport.rs of two streams that shake hands, each with a
-- socket of its own. A test waits five seconds for both.
pub mod Waits
pub mod Passes
use hyperswarm.Base.{
  ℕ, ◌+◌, ◌-◌, ◌≤◌, ◌≡◌, refl, ◌≢◌, sym, ◌∙◌, ap, Bool, true, false, ◌&&◌, Option, none, some, List,
  [], ◌∷◌, String, arith, length, same_bytes, same_bytes_refl, inl, inr, ◌⊎◌,
}
use hyperswarm.Net.{
  Result, ok, err, World, SocketAddr, Outcome, done, fail, elapsed, pending, panicked, timeout,
  close, earliest,
}
use hyperswarm.Net.Receive.{Reaches}
use hyperswarm.Net.Zoom.{with_self}
use hyperswarm.Transport.{
  Noise, Keypair, EncryptedStream, TransportError, peer_authentication_failed, new_stream,
  handshake_initiator, handshake_responder,
}
use hyperswarm.Transport.Pattern.{Xx, agreed}
use hyperswarm.Transport.Pair.{InitiatorReady, ResponderReady, Agrees, handshake_pair}
use hyperswarm.Transport.Bounded.{handshake_initiator-Ends}
use hyperswarm.Net.Ends.{Ends}
use hyperswarm.Net.Calm.{Calm}
use hyperswarm.Transport.Mismatch.{handshake_mismatch}
use hyperswarm.Suite.{unwrap, unwrap_some, is_ok, is_some, created, in_time}
use hyperswarm.Suite.Protocol.{repeated}
use hyperswarm.Suite.Transport.{fresh, pair_of, new_stream-fresh}

abbrev pub five_seconds : ℕ
five_seconds = 5000

abbrev three_seconds : ℕ
three_seconds = 3000

abbrev pub wrong_key : List ℕ
wrong_key = repeated 0xde 32

-- `tokio::join!` of two calls under a timer, with the rest of the test.
abbrev pub joined :
    {E S Err X Y : Type 0}
    → Outcome Err (Option (Result Err X)) × World E S
    → Outcome Err (Option (Result Err Y)) × World E S
    → (Result Err X → S → Result Err Y → S → Bool)
    → Bool
joined (done (some r1), w1) (done (some r2), w2) rest = rest r1 w1.self r2 w2.self
joined _ _ rest = false

abbrev pub is_unauthenticated : {E X : Type 0} → Result (TransportError E) X → Bool
is_unauthenticated (err peer_authentication_failed) = true
is_unauthenticated _ = false

-- `let _ = ...`, with the rest of the test.
abbrev ignored : {A : Type 0} → A → Bool → Bool
ignored x rest = rest

-- The wait for a spawned task under a timer is over, be it that the task has panicked.
abbrev pub is_over : {E S Err X : Type 0} → Outcome Err (Option (Result Err X)) × World E S → Bool
is_over (done (some r), w) = true
is_over (panicked, w) = true
is_over _ = false

-- The key pairs that the two streams generate, the addresses of their sockets, and the sockets.
module _ (n : Noise) {E : Type 0} (keypair1 keypair2 : Result String Keypair) (a1 a2 : SocketAddr)
    (w1 w2 : World E (Unit {0})) where
  abbrev pub both_created : (EncryptedStream n → EncryptedStream n → Bool) → Bool
  both_created rest = created (new_stream n {E = E} keypair1 a2) λ result1.
      unwrap result1 λ initiator.
        created (new_stream n {E = E} keypair2 a1)
          λ result2. unwrap result2 λ responder. rest initiator responder

  -- Both handshakes under the timer.
  abbrev pub shaken :
      EncryptedStream n
      → EncryptedStream n
      → Option (List ℕ)
      → (Result (TransportError E) (Unit {0})
          → EncryptedStream n
          → Result (TransportError E) (Unit {0})
          → EncryptedStream n
          → Bool)
      → Bool
  shaken initiator responder expected rest =
      joined (timeout five_seconds (handshake_initiator n expected) (with_self initiator w1))
        (timeout five_seconds (handshake_responder n) (with_self responder w2)) rest

  -- The second wait begins when the first is over.
  unfoldable pub test_noise_handshake_and_encryption : Bool
  test_noise_handshake_and_encryption = both_created λ initiator responder.
      let init =
        timeout {Err' = TransportError E} five_seconds (handshake_initiator n none)
          (with_self initiator w1) in
      let resp =
        timeout {Err' = TransportError E} (init.1.now + five_seconds - w2.now)
          (handshake_responder n) (with_self responder w2) in
      is_over init && is_over resp

  unfoldable pub test_peer_auth_none_succeeds : Bool
  test_peer_auth_none_succeeds = both_created λ initiator responder.
      shaken initiator responder none λ init_result after1 resp_result after2.
        is_ok init_result
        && is_ok resp_result
        && is_some after1.remote_static_key
        && is_some after2.remote_static_key

  unfoldable pub test_peer_auth_correct_key_succeeds : Bool
  test_peer_auth_correct_key_succeeds = both_created λ initiator responder.
      shaken initiator responder (some responder.local_static_pubkey)
        λ init_result after1 resp_result after2. is_ok init_result && is_ok resp_result

  unfoldable pub test_local_static_pubkey_consistent_across_roles : Bool
  test_local_static_pubkey_consistent_across_roles = both_created λ initiator responder.
      shaken initiator responder none λ init_result after1 resp_result after2.
        unwrap_some after1.remote_static_key λ key1.
          same_bytes key1 responder.local_static_pubkey
          && unwrap_some after2.remote_static_key
              λ key2. same_bytes key2 initiator.local_static_pubkey

  unfoldable pub test_peer_auth_wrong_key_rejected : Bool
  test_peer_auth_wrong_key_rejected = both_created λ initiator responder.
      in_time
        (timeout five_seconds (handshake_initiator n (some wrong_key)) (with_self initiator w1))
        λ init_result.
          ignored
            (timeout {Err' = TransportError E} three_seconds (handshake_responder n)
              (with_self responder w2))
            (is_unauthenticated init_result)
