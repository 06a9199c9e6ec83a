-- ===== src/Tests/Shaken.antt =====
-- Two parties after their handshake, and the tests of handshakes on two sockets.
use hyperswarm.Base.{ℕ, ◌≡◌, refl, ap, none, [], ◌∷◌, arith, get_or, ◌≢◌, some, inr, List, true}
use hyperswarm.Net.{World, datagram, SocketAddr, done}
use hyperswarm.Transport.{EncryptedStream}
use hyperswarm.Transport.Conversation.{over, foreign, own, speak, reply}
use hyperswarm.Transport.Conversation.Exchange.{conversation}
use hyperswarm.Tests.Parties.{open_noise, key_of, run, host, alice, bob, stranger-ne-bob}
use hyperswarm.Net.Zoom.{with_self}
use hyperswarm.Suite.Transport.{pair_of}
use hyperswarm.Suite.Handshakes.{
  test_noise_handshake_and_encryption, test_peer_auth_none_succeeds,
  test_peer_auth_correct_key_succeeds, test_peer_auth_wrong_key_rejected,
  test_local_static_pubkey_consistent_across_roles,
}
use hyperswarm.Suite.Handshakes.Passes.{handshake_tests_pass}

-- The sockets of two parties whose messages come within five seconds.
abbrev socket_of : {S : Type 0} → World ℕ S → World ℕ (Unit {0})
socket_of w = with_self tt w

handshake_tests_pass_example :
    (test_noise_handshake_and_encryption open_noise
        (pair_of (key_of 3) (key_of 3))
        (pair_of (key_of 5) (key_of 5))
        (host 1)
        (host 2)
        (socket_of alice)
        (socket_of bob)
      ≡ true)
    × (test_peer_auth_none_succeeds open_noise
          (pair_of (key_of 3) (key_of 3))
          (pair_of (key_of 5) (key_of 5))
          (host 1)
          (host 2)
          (socket_of alice)
          (socket_of bob)
        ≡ true)
    × (test_peer_auth_correct_key_succeeds open_noise
          (pair_of (key_of 3) (key_of 3))
          (pair_of (key_of 5) (key_of 5))
          (host 1)
          (host 2)
          (socket_of alice)
          (socket_of bob)
        ≡ true)
    × (test_peer_auth_wrong_key_rejected open_noise
          (pair_of (key_of 3) (key_of 3))
          (pair_of (key_of 5) (key_of 5))
          (host 1)
          (host 2)
          (socket_of alice)
          (socket_of bob)
        ≡ true)
    × (test_local_static_pubkey_consistent_across_roles open_noise
          (pair_of (key_of 3) (key_of 3))
          (pair_of (key_of 5) (key_of 5))
          (host 1)
          (host 2)
          (socket_of alice)
          (socket_of bob)
        ≡ true)
handshake_tests_pass_example =
    handshake_tests_pass open_noise (key_of 3) (key_of 3) (key_of 5) (key_of 5) run (key_of 5, none)
      refl refl refl refl (host 1) (host 2) (socket_of alice) (socket_of bob)
      (record {
        state = refl;
        privkey = refl;
        pubkey = refl;
        last = 100;
        ends = omega arith;
        free = omega arith;
        sends = refl;
        noise = (20, datagram (host 9) (key_of 9)) ∷ [];
        time = 50;
        rest = [];
        queue = refl;
        early = (omega arith, stranger-ne-bob, tt);
        soon = omega arith;
      })
      (record {
        privkey = refl;
        pubkey = refl;
        last = 100;
        ends = omega arith;
        free = omega arith;
        sends = refl;
        noise1 = [];
        time1 = 30;
        noise3 = [];
        time3 = 70;
        rest = [];
        queue = refl;
        early1 = tt;
        early3 = tt;
        soon1 = omega arith;
        soon3 = omega arith;
      })
      refl (λ e. omega (arith, ap (λ l. get_or l 0 0) e))

abbrev messages : List (List ℕ)
messages = (8 ∷ 9 ∷ []) ∷ [] ∷ []

abbrev answers : List (List ℕ)
answers = (7 ∷ []) ∷ []

-- Behind the responder's message come a stranger's and the answer.
abbrev alice_hearing : World ℕ (EncryptedStream open_noise)
alice_hearing = record alice {
  inbox =
      (20, datagram (host 9) (key_of 9))
      ∷ (50, datagram (host 2) (key_of 5))
      ∷ (96, datagram (host 9) (1 ∷ []))
      ∷ (97, datagram (host 2) (7 ∷ []))
      ∷ [];
}

-- Behind the initiator's messages of the handshake come a stranger's and the two messages.
abbrev bob_hearing : World ℕ (EncryptedStream open_noise)
bob_hearing = record bob {
  inbox =
      (30, datagram (host 1) (key_of 3))
      ∷ (70, datagram (host 1) (key_of 3))
      ∷ (80, datagram (host 9) (1 ∷ []))
      ∷ (90, datagram (host 1) (8 ∷ 9 ∷ []))
      ∷ (95, datagram (host 1) [])
      ∷ [];
}

stranger-ne-alice : host 9 ≢ host 1
stranger-ne-alice e = omega (arith, ap (λ (a : SocketAddr). a.port) e)

conversation_example :
    (((speak open_noise (some (key_of 5)) messages 1 alice_hearing).0 ≡ done answers)
      × ((speak open_noise (some (key_of 5)) messages 1 alice_hearing).1.sent
          ≡ (host 2, []) ∷ (host 2, 8 ∷ 9 ∷ []) ∷ (host 2, key_of 3) ∷ (host 2, key_of 3) ∷ []))
    × (((reply open_noise 2 answers bob_hearing).0 ≡ done messages)
        × ((reply open_noise 2 answers bob_hearing).1.sent
            ≡ (host 1, 7 ∷ []) ∷ (host 1, key_of 5) ∷ []))
conversation_example =
    conversation open_noise (key_of 3) (key_of 3) (key_of 5) (key_of 5) run (some (key_of 5))
      alice_hearing bob_hearing messages messages answers answers (inr refl)
      (record {
        state = refl;
        privkey = refl;
        pubkey = refl;
        last = 100;
        ends = omega arith;
        free = tt;
        sends = refl;
        noise = (20, datagram (host 9) (key_of 9)) ∷ [];
        time = 50;
        rest = (96, datagram (host 9) (1 ∷ [])) ∷ (97, datagram (host 2) (7 ∷ [])) ∷ [];
        queue = refl;
        early = (omega arith, stranger-ne-bob, tt);
        soon = omega arith;
      })
      (record {
        privkey = refl;
        pubkey = refl;
        last = 100;
        ends = omega arith;
        free = tt;
        sends = refl;
        noise1 = [];
        time1 = 30;
        noise3 = [];
        time3 = 70;
        rest =
            (80, datagram (host 9) (1 ∷ []))
            ∷ (90, datagram (host 1) (8 ∷ 9 ∷ []))
            ∷ (95, datagram (host 1) [])
            ∷ [];
        queue = refl;
        early1 = tt;
        early3 = tt;
        soon1 = omega arith;
        soon3 = omega arith;
      })
      refl refl (refl, omega arith, refl, (refl, omega arith, refl, tt))
      (refl, omega arith, refl, tt)
      (foreign 96 (host 9) (1 ∷ []) stranger-ne-bob (own 97 (7 ∷ []) (over [])))
      (foreign 80 (host 9) (1 ∷ []) stranger-ne-alice (own 90 (8 ∷ 9 ∷ []) (own 95 [] (over []))))
