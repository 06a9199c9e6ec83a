-- ===== src/Suite/Streams/Connected.antt =====
-- The tests of encrypted streams pass when the messages arrive.
use hyperswarm.Base.{
  ℕ, ◌+◌, ◌≡◌, refl, ◌∙◌, ap, Bool, true, Option, none, some, List, [], ◌∷◌, length, inl,
}
use hyperswarm.Net.{Result, ok, World, SocketAddr, Outcome, done, earliest, close, timeout}
use hyperswarm.Net.Zoom.{with_self}
use hyperswarm.Transport.{
  Noise, EncryptedStream, established, handshake_initiator, handshake_responder, recv,
}
use hyperswarm.Transport.Pattern.{Xx}
use hyperswarm.Transport.Pair.{InitiatorReady, ResponderReady, Agrees, handshake_pair}
use hyperswarm.Transport.Conversation.{Flow, Carries}
use hyperswarm.Suite.Transport.{fresh, pair_of}
use hyperswarm.Suite.Handshakes.Passes.{created_i, created_r}
use hyperswarm.Suite.Streams.{
  hello, hello_back, five_messages, three_seconds, joined_worlds, connected,
  test_encrypted_stream_round_trip, test_encrypted_stream_multiple_messages,
}
use hyperswarm.Suite.Streams.Passes.{After, after, wrote_one, passed-ok, each_passed-ok}

-- A world inside the tests' timer.
abbrev pub within_three : {E S : Type 0} → World E S → World E S
within_three w = record w { limit = some (earliest w.limit (w.now + three_seconds)) }

joined_worlds-done :
    {E S Err X Y : Type 0} (l1 l2 : Option ℕ) (d1 d2 : ℕ) (r1 : Outcome Err X × World E S)
    → (r2 : Outcome Err Y × World E S) (x : X) (y : Y)
    → (rest : Result Err X → World E S → Result Err Y → World E S → Bool) → r1.0 ≡ done x
    → r2.0 ≡ done y
    → joined_worlds {Err = Err} (close l1 d1 r1) (close l2 d2 r2) rest
      ≡ rest (ok x) (record r1.1 { limit = l1 }) (ok y) (record r2.1 { limit = l2 })
joined_worlds-done l1 l2 d1 d2 (o1, v1) (o2, v2) x y rest e1 e2 = rw (e1, e2) refl

-- As for the tests of handshakes, with three seconds, and no timer around either test.
module _ (n : Noise) {E : Type 0} (priv_i pub_i priv_r pub_r : List ℕ)
    (x : Xx n priv_i pub_i priv_r pub_r) (h : n.HandshakeState) (size_i : length priv_i ≡ 32)
    (size_r : length priv_r ≡ 32) (first : x.initiator ≡ x.placeholder)
    (built : n.build_initiator priv_r ≡ ok h) (a1 a2 : SocketAddr) (w1 w2 : World E (Unit {0}))
    (free1 : w1.limit ≡ none) (free2 : w2.limit ≡ none)
    (r1 : InitiatorReady n priv_i pub_i priv_r pub_r x
      (within_three (with_self (fresh n a2 pub_i priv_i x.initiator) w1)))
    (r2 : ResponderReady n priv_i pub_i priv_r pub_r x
      (within_three (with_self (fresh n a1 pub_r priv_r h) w2))) where
  abbrev start1 : World E (EncryptedStream n)
  start1 = within_three (with_self (fresh n a2 pub_i priv_i x.initiator) w1)

  abbrev start2 : World E (EncryptedStream n)
  start2 = within_three (with_self (fresh n a1 pub_r priv_r h) w2)

  -- The two ends after the handshake.
  abbrev end1 : World E (EncryptedStream n)
  end1 = record (handshake_initiator n none start1).1 { limit = w1.limit }

  abbrev end2 : World E (EncryptedStream n)
  end2 = record (handshake_responder n start2).1 { limit = w2.limit }

  agreed_i :
      Agrees n priv_i pub_i priv_r pub_r x start1 x.transport_i pub_r
        ((a2, x.m3) ∷ (a2, x.m1) ∷ w1.sent)
        r1.rest
        (handshake_initiator n none start1)
  agreed_i = (handshake_pair n priv_i pub_i priv_r pub_r x none start1 start2 (inl refl) r1 r2).0

  agreed_r :
      Agrees n priv_i pub_i priv_r pub_r x start2 x.transport_r pub_i
        ((a1, x.m2) ∷ w2.sent)
        r2.rest
        (handshake_responder n start2)
  agreed_r = (handshake_pair n priv_i pub_i priv_r pub_r x none start1 start2 (inl refl) r1 r2).1

  connected-ok :
      (rest : World E (EncryptedStream n) → World E (EncryptedStream n) → Bool)
      → connected n (pair_of pub_i priv_i) (pair_of pub_r priv_r) a1 a2 w1 w2 rest ≡ rest end1 end2
  unfolding timeout
  connected-ok rest =
      rw
        (
          created_i n priv_i pub_i priv_r pub_r x h size_i size_r first built a1 a2 w1 w2,
          created_r n priv_i pub_i priv_r pub_r x h size_i size_r first built a1 a2 w1 w2,
        )
        (joined_worlds-done _ _ _ _ _ _ tt tt _ (Agrees.success agreed_i) (Agrees.success agreed_r))

  state1 : end1.self.state ≡ established x.transport_i
  state1 = ap (λ (s : EncryptedStream n). s.state) (Agrees.stream agreed_i)

  state2 : end2.self.state ≡ established x.transport_r
  state2 = ap (λ (s : EncryptedStream n). s.state) (Agrees.stream agreed_r)

  arrived1 :
      (ds : List (List ℕ)) → Carries a2 ds r1.rest → Carries end1.self.remote_addr ds end1.inbox
  arrived1 ds carried = rw (Agrees.stream agreed_i, Agrees.inbox agreed_i) carried

  arrived2 :
      (cs : List (List ℕ)) → Carries a1 cs r2.rest → Carries end2.self.remote_addr cs end2.inbox
  arrived2 cs carried = rw (Agrees.stream agreed_r, Agrees.inbox agreed_r) carried

  -- The messages come to the responder after the handshake, among whatever datagrams of strangers.
  pub test_encrypted_stream_multiple_messages_passes :
      (cs : List (List ℕ))
      → Flow n x.transport_i x.transport_r five_messages cs
      → Carries a1 cs r2.rest
      → test_encrypted_stream_multiple_messages n
          (pair_of pub_i priv_i)
          (pair_of pub_r priv_r)
          a1
          a2
          w1
          w2
        ≡ true
  unfolding test_encrypted_stream_multiple_messages
  test_encrypted_stream_multiple_messages_passes cs flow carried =
      connected-ok _
      ∙ each_passed-ok n x.transport_i x.transport_r five_messages cs end1 end2 flow state1
          (Agrees.sends agreed_i) state2 free2 (arrived2 cs carried)

  pub test_encrypted_stream_round_trip_passes :
      (c d : List ℕ)
      → Flow n x.transport_i x.transport_r (hello ∷ []) (c ∷ [])
      → Flow n
          (n.read_message x.transport_r c).0
          (n.write_message x.transport_i hello).0
          (hello_back ∷ [])
          (d ∷ [])
      → Carries a1 (c ∷ []) r2.rest
      → Carries a2 (d ∷ []) r1.rest
      → test_encrypted_stream_round_trip n (pair_of pub_i priv_i) (pair_of pub_r priv_r) a1 a2 w1 w2
        ≡ true
  unfolding test_encrypted_stream_round_trip
  test_encrypted_stream_round_trip_passes c d (written, fits, read, _) (written', fits', read', _)
        carried back =
      let q1 = Agrees.sends agreed_i in
      let there = arrived2 (c ∷ []) carried in
      let a =
        after n x.transport_i x.transport_r hello c [] end1 end2 written fits read state1 q1 state2
          free2 there in
      connected-ok _
      ∙ passed-ok n x.transport_i x.transport_r hello c [] end1 end2 written fits read state1 q1
          state2 free2 there _
      ∙ passed-ok n (n.read_message x.transport_r c).0 (n.write_message x.transport_i hello).0
          hello_back d [] (recv n end2).1 (wrote_one n x.transport_i hello c end1) written' fits'
          read' (ap (λ (s : EncryptedStream n). s.state) (After.stream a))
          (After.sends a ∙ Agrees.sends agreed_r) refl free1 (arrived1 (d ∷ []) back) _
