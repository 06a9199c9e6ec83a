-- ===== src/Suite/Handshakes/Passes.antt =====
-- The tests of handshakes pass when the messages arrive.
use hyperswarm.Base.{
  ℕ, ◌+◌, ◌≤◌, ◌≡◌, refl, ◌≢◌, ◌∙◌, Bool, true, Option, none, some, List, arith, length,
  same_bytes_refl, inl, inr, ◌⊎◌,
}
use hyperswarm.Net.{Result, ok, World, SocketAddr, done, timeout, earliest}
use hyperswarm.Net.Zoom.{with_self}
use hyperswarm.Transport.{
  Noise, EncryptedStream, TransportError, peer_authentication_failed, new_stream,
  handshake_initiator, handshake_responder,
}
use hyperswarm.Transport.Pattern.{Xx, agreed}
use hyperswarm.Transport.Pair.{InitiatorReady, ResponderReady, Agrees, handshake_pair}
use hyperswarm.Transport.Bounded.{handshake_initiator-Ends}
use hyperswarm.Net.Ends.{Ends}
use hyperswarm.Net.Calm.{Calm}
use hyperswarm.Transport.Mismatch.{handshake_mismatch}
use hyperswarm.Suite.Transport.{fresh, pair_of, new_stream-fresh}
use hyperswarm.Suite.Handshakes.{
  five_seconds, wrong_key, is_over, shaken, test_noise_handshake_and_encryption,
  test_peer_auth_none_succeeds, test_peer_auth_correct_key_succeeds,
  test_peer_auth_wrong_key_rejected, test_local_static_pubkey_consistent_across_roles,
}
use hyperswarm.Suite.Handshakes.Waits.{
  joined-done, in_time-fail, is_over-done, Reaches-longer, close-now, under,
}

-- With keys of a run of the pattern, from which snow builds the states of that run, and messages
-- that come before five seconds are over, behind whatever datagrams of strangers.
module _ (n : Noise) {E : Type 0} (priv_i pub_i priv_r pub_r : List ℕ)
    (x : Xx n priv_i pub_i priv_r pub_r) (h : n.HandshakeState) (size_i : length priv_i ≡ 32)
    (size_r : length priv_r ≡ 32) (first : x.initiator ≡ x.placeholder)
    (built : n.build_initiator priv_r ≡ ok h) (a1 a2 : SocketAddr)
    (w1 w2 : World E (Unit {0})) where
  abbrev initiator_world : World E (EncryptedStream n)
  initiator_world = with_self (fresh n a2 pub_i priv_i x.initiator) w1

  abbrev responder_world : World E (EncryptedStream n)
  responder_world = with_self (fresh n a1 pub_r priv_r h) w2

  pub created_i :
      new_stream n {E = E} (pair_of pub_i priv_i) a2 ≡ done (fresh n a2 pub_i priv_i x.initiator)
  created_i = new_stream-fresh n E pub_i priv_i x.initiator x.size_i size_i (rw first x.built) a2

  pub created_r : new_stream n {E = E} (pair_of pub_r priv_r) a1 ≡ done (fresh n a1 pub_r priv_r h)
  created_r = new_stream-fresh n E pub_r priv_r h x.size_r size_r built a1

  module _ (r1 : InitiatorReady n priv_i pub_i priv_r pub_r x (under initiator_world))
      (r2 : ResponderReady n priv_i pub_i priv_r pub_r x (under responder_world)) where
    -- What the rest of a test gets.
    shaken-agreed :
        (expected : Option (List ℕ))
        → (rest : Result (TransportError E) (Unit {0})
            → EncryptedStream n
            → Result (TransportError E) (Unit {0})
            → EncryptedStream n
            → Bool)
        → (expected ≡ none) ⊎ (expected ≡ some pub_r)
        → shaken n
            (pair_of pub_i priv_i)
            (pair_of pub_r priv_r)
            a1
            a2
            w1
            w2
            initiator_world.self
            responder_world.self
            expected
            rest
          ≡ rest
              (ok tt)
              (agreed n initiator_world.self x.transport_i pub_r)
              (ok tt)
              (agreed n responder_world.self x.transport_r pub_i)
    unfolding timeout
    shaken-agreed expected rest fits =
        let (i, r) =
          handshake_pair n priv_i pub_i priv_r pub_r x expected (under initiator_world)
            (under responder_world) fits r1 r2 in
        joined-done _ _ _ _ _ _ tt tt rest (Agrees.success i) (Agrees.success r)
        ∙ rw (Agrees.stream i, Agrees.stream r) refl

    -- The responder's handshake is over in five seconds, however much longer a timer waits.
    is_over-responder :
        (duration : ℕ)
        → five_seconds ≤ duration
        → is_over {Err = TransportError E}
            (timeout {Err' = TransportError E} duration (handshake_responder n) responder_world)
          ≡ true
    unfolding timeout
    is_over-responder duration long =
        let v = record responder_world { limit = some (earliest w2.limit (w2.now + duration)) } in
        let ready : ResponderReady n priv_i pub_i priv_r pub_r x v = record {
          privkey = r2.privkey;
          pubkey = r2.pubkey;
          last = r2.last;
          ends = r2.ends;
          free =
              Reaches-longer w2.limit (w2.now + five_seconds) (w2.now + duration) r2.last
                (omega (arith, long)) r2.free;
          sends = r2.sends;
          noise1 = r2.noise1;
          time1 = r2.time1;
          noise3 = r2.noise3;
          time3 = r2.time3;
          rest = r2.rest;
          queue = r2.queue;
          early1 = r2.early1;
          early3 = r2.early3;
          soon1 = r2.soon1;
          soon3 = r2.soon3;
        } in
        let (_, r) =
          handshake_pair n priv_i pub_i priv_r pub_r x none (under initiator_world) v (inl refl) r1
            ready in
        is_over-done w2.limit (w2.now + duration) (handshake_responder n v) tt (Agrees.success r)

    -- Of two sockets with one clock.
    test_noise_handshake_and_encryption_passes :
        w1.now ≡ w2.now
        → test_noise_handshake_and_encryption n
            (pair_of pub_i priv_i)
            (pair_of pub_r priv_r)
            a1
            a2
            w1
            w2
          ≡ true
    unfolding test_noise_handshake_and_encryption timeout
    test_noise_handshake_and_encryption_passes clock =
        let u = under initiator_world in
        let (i, _) =
          handshake_pair n priv_i pub_i priv_r pub_r x none u (under responder_world) (inl refl) r1
            r2 in
        let run = handshake_initiator n none u in
        let end = close-now w1.limit (w1.now + five_seconds) run in
        let first_over = is_over-done w1.limit (w1.now + five_seconds) run tt (Agrees.success i) in
        let later : w1.now ≤ run.1.now =
          Calm.later (Ends.calm (handshake_initiator-Ends n none u)) in
        rw (created_i, created_r, first_over)
          (is_over-responder _ (omega (arith, end, later, clock)))

    test_peer_auth_none_succeeds_passes :
        test_peer_auth_none_succeeds n (pair_of pub_i priv_i) (pair_of pub_r priv_r) a1 a2 w1 w2
        ≡ true
    unfolding test_peer_auth_none_succeeds
    test_peer_auth_none_succeeds_passes =
        rw (created_i, created_r) (shaken-agreed none _ (inl refl))

    test_peer_auth_correct_key_succeeds_passes :
        test_peer_auth_correct_key_succeeds n
          (pair_of pub_i priv_i)
          (pair_of pub_r priv_r)
          a1
          a2
          w1
          w2
        ≡ true
    unfolding test_peer_auth_correct_key_succeeds
    test_peer_auth_correct_key_succeeds_passes =
        rw (created_i, created_r) (shaken-agreed (some pub_r) _ (inr refl))

    test_local_static_pubkey_consistent_across_roles_passes :
        test_local_static_pubkey_consistent_across_roles n
          (pair_of pub_i priv_i)
          (pair_of pub_r priv_r)
          a1
          a2
          w1
          w2
        ≡ true
    unfolding test_local_static_pubkey_consistent_across_roles
    test_local_static_pubkey_consistent_across_roles_passes =
        rw (created_i, created_r)
          (shaken-agreed none _ (inl refl) ∙ rw (same_bytes_refl pub_r, same_bytes_refl pub_i) refl)

    -- And when the responder's key is not that one.
    test_peer_auth_wrong_key_rejected_passes :
        pub_r ≢ wrong_key
        → test_peer_auth_wrong_key_rejected n
            (pair_of pub_i priv_i)
            (pair_of pub_r priv_r)
            a1
            a2
            w1
            w2
          ≡ true
    unfolding test_peer_auth_wrong_key_rejected timeout
    test_peer_auth_wrong_key_rejected_passes other =
        let (failed, _, _) =
          handshake_mismatch n priv_i pub_i priv_r pub_r x wrong_key other (under initiator_world)
            r1 in
        rw (created_i, created_r) (in_time-fail _ _ _ peer_authentication_failed _ failed)

    -- The tests of handshakes pass on two sockets with one clock: when the key pairs are those of a
    -- run of the pattern, with keys of 32 bytes; snow builds the states of that run from them; the
    -- messages that the parties send come to one another before five seconds are over and before
    -- any other timer fires, behind whatever datagrams of strangers, and no send fails; and the
    -- responder's key is not the wrong one that a test expects.
    pub handshake_tests_pass :
        w1.now ≡ w2.now
        → pub_r ≢ wrong_key
        → (test_noise_handshake_and_encryption n
              (pair_of pub_i priv_i)
              (pair_of pub_r priv_r)
              a1
              a2
              w1
              w2
            ≡ true)
          × (test_peer_auth_none_succeeds n
                (pair_of pub_i priv_i)
                (pair_of pub_r priv_r)
                a1
                a2
                w1
                w2
              ≡ true)
          × (test_peer_auth_correct_key_succeeds n
                (pair_of pub_i priv_i)
                (pair_of pub_r priv_r)
                a1
                a2
                w1
                w2
              ≡ true)
          × (test_peer_auth_wrong_key_rejected n
                (pair_of pub_i priv_i)
                (pair_of pub_r priv_r)
                a1
                a2
                w1
                w2
              ≡ true)
          × (test_local_static_pubkey_consistent_across_roles n
                (pair_of pub_i priv_i)
                (pair_of pub_r priv_r)
                a1
                a2
                w1
                w2
              ≡ true)
    handshake_tests_pass clock other = (
      test_noise_handshake_and_encryption_passes clock,
      test_peer_auth_none_succeeds_passes,
      test_peer_auth_correct_key_succeeds_passes,
      test_peer_auth_wrong_key_rejected_passes other,
      test_local_static_pubkey_consistent_across_roles_passes,
    )
