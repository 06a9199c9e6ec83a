-- ===== src/Transport/Conversation/Exchange.antt =====
-- A conversation after a handshake goes through.
use hyperswarm.Base.{
  ℕ, ◌≡◌, refl, ◌∙◌, ap, Option, none, some, List, [], ◌∷◌, ◌++◌, arith, length, ◌⊎◌,
}
use hyperswarm.Net.{
  World, M, Outcome, done, Event, datagram, SocketAddr, ok, continue, ◌>>=◌, ◌>>◌, pure,
}
use hyperswarm.Transport.{
  Noise, EncryptedStream, StreamState, handshaking, established, TransportError,
  handshake_initiator, handshake_responder, send, send_from, recv,
}
use hyperswarm.Transport.Channel.{AllStrangers, recv_delivers}
use hyperswarm.Transport.Pattern.{Xx, send_peer-sent}
use hyperswarm.Transport.Pair.{InitiatorReady, ResponderReady, Agrees, handshake_pair}
use hyperswarm.Transport.Conversation.{
  send_all, recv_all, speak, reply, Flow, wrote, was_read, Carries, foreign, own, sent_after,
}

module _ {E : Type 0} where
  -- The first of them, behind strangers.
  pub next_own :
      (addr : SocketAddr) (c : List ℕ) (cs : List (List ℕ)) (inbox : List (ℕ × Event E))
      → Carries addr (c ∷ cs) inbox
      → (strangers : List (ℕ × Event E)) × (time : ℕ) × (rest : List (ℕ × Event E)) × (inbox
          ≡ strangers ++ (time, datagram addr c) ∷ rest)
        × AllStrangers addr strangers
        × Carries addr cs rest
  next_own addr c cs inbox (foreign time from bytes other more) =
      let (strangers, time', rest, e, all, later) = next_own addr c cs _ more in
      (
        (time, datagram from bytes) ∷ strangers,
        time',
        rest,
        ap ((time, datagram from bytes) ∷◌) e,
        (other, all),
        later,
      )
  next_own addr c cs inbox (own {rest = rest} time same more) = ([], time, rest, refl, tt, more)

module _ {E S Err X Y : Type 0} where
  continue-done :
      (r : Outcome Err X × World E S) (f : X → M E S Err Y) (x : X)
      → r.0 ≡ done x
      → continue r f ≡ f x r.1
  continue-done (o, w) f x e = rw e refl

module _ (n : Noise) {E : Type 0} where
  pub send-ok :
      (state : StreamState n) (t : n.TransportState) (m c : List ℕ)
      (w : World E (EncryptedStream n))
      → state ≡ established t
      → (n.write_message t m).1 ≡ ok c
      → w.sends ≡ []
      → send_from n state m w ≡ (
        done tt,
        record w {
          sends = [];
          sent = (w.self.remote_addr, c) ∷ w.sent;
          self = record w.self { state = established (n.write_message t m).0 };
        },
      )
  send-ok (handshaking h) t m c w s e q = ground arith
  send-ok (established t') t m c w s e q =
      let same : t' ≡ t = ground arith in rw (same, e) (send_peer-sent n c _ q)

  -- A run of sends that ended well.
  record Sent (w : World E (EncryptedStream n)) (t : n.TransportState) (cs : List (List ℕ))
      (r : Outcome (TransportError E) (Unit {0}) × World E (EncryptedStream n)) : Type 0 where
    success : r.0 ≡ done tt
    out : r.1.sent ≡ sent_after w.self.remote_addr cs w.sent
    stream : r.1.self ≡ record w.self { state = established t }
    inbox : r.1.inbox ≡ w.inbox
    kept : r.1.limit ≡ w.limit

  send_all-ok :
      (t1 t2 : n.TransportState) (ms cs : List (List ℕ)) (w : World E (EncryptedStream n))
      → Flow n t1 t2 ms cs
      → w.self.state ≡ established t1
      → w.sends ≡ []
      → Sent w (wrote n t1 ms) cs (send_all n ms w)
  unfolding send
  send_all-ok t1 t2 [] [] w flow s q = record {
    success = refl;
    out = refl;
    stream = rw⁻¹ s refl;
    inbox = refl;
    kept = refl;
  }
  send_all-ok t1 t2 [] (c ∷ cs) w flow s q = absurd flow
  send_all-ok t1 t2 (m ∷ ms) [] w flow s q = absurd flow
  send_all-ok t1 t2 (m ∷ ms) (c ∷ cs) w (written, fits, read, flow) s q =
      let v = record w {
        sends = [];
        sent = (w.self.remote_addr, c) ∷ w.sent;
        self = record w.self { state = established (n.write_message t1 m).0 };
      } in
      let r = send_all-ok (n.write_message t1 m).0 (n.read_message t2 c).0 ms cs v flow refl refl in
      rw (send-ok w.self.state t1 m c w s written q) (record {
        success = r.success;
        out = r.out;
        stream = r.stream;
        inbox = r.inbox;
        kept = r.kept;
      })

  -- And one of receives.
  record Heard (w : World E (EncryptedStream n)) (t : n.TransportState) (ms : List (List ℕ))
      (r : Outcome (TransportError E) (List (List ℕ)) × World E (EncryptedStream n)) : Type 0 where
    success : r.0 ≡ done ms
    stream : r.1.self ≡ record w.self { state = established t }
    fates : r.1.sends ≡ w.sends
    out : r.1.sent ≡ w.sent

  recv_all-ok :
      (t1 t2 : n.TransportState) (ms cs : List (List ℕ)) (w : World E (EncryptedStream n))
      → Flow n t1 t2 ms cs
      → w.self.state ≡ established t2
      → w.limit ≡ none
      → Carries w.self.remote_addr cs w.inbox
      → Heard w (was_read n t2 cs) ms (recv_all n (length ms) w)
  recv_all-ok t1 t2 [] [] w flow s l carried = record {
    success = refl;
    stream = rw⁻¹ s refl;
    fates = refl;
    out = refl;
  }
  recv_all-ok t1 t2 [] (c ∷ cs) w flow s l carried = absurd flow
  recv_all-ok t1 t2 (m ∷ ms) [] w flow s l carried = absurd flow
  recv_all-ok t1 t2 (m ∷ ms) (c ∷ cs) w (written, fits, read, flow) s l carried =
      let (strangers, time, rest, i, all, later) =
        next_own w.self.remote_addr c cs w.inbox carried in
      let (got, left, self, kept, fates, out) =
        recv_delivers n strangers rest time c m t2 w l s fits read all i in
      let v = (recv n w).1 in
      let carried' : Carries v.self.remote_addr cs v.inbox = rw (self, left) later in
      let r =
        recv_all-ok (n.write_message t1 m).0 (n.read_message t2 c).0 ms cs v flow (rw self refl)
          (kept ∙ l) carried' in
      rw (continue-done (recv n w) _ m got, continue-done (recv_all n (length ms) v) _ ms r.success)
        (record {
          success = refl;
          stream = r.stream ∙ rw self refl;
          fates = r.fates ∙ fates;
          out = r.out ∙ out;
        })

  -- The two ends after the handshake.
  module _ (t1 t2 : n.TransportState) (ms cs answers ds : List (List ℕ)) (flow : Flow n t1 t2 ms cs)
      (back : Flow n (was_read n t2 cs) (wrote n t1 ms) answers ds)
      (w : World E (EncryptedStream n)) (fates : w.sends ≡ []) (free : w.limit ≡ none) where
    send_all-recv_all :
        w.self.state ≡ established t1
        → Carries w.self.remote_addr ds w.inbox
        → (((send_all n ms >> recv_all n (length answers)) w).0 ≡ done answers)
          × (((send_all n ms >> recv_all n (length answers)) w).1.sent
              ≡ sent_after w.self.remote_addr cs w.sent)
    send_all-recv_all s carried =
        let a = send_all-ok t1 t2 ms cs w flow s fates in
        let v = (send_all n ms w).1 in
        let carried' : Carries v.self.remote_addr ds v.inbox =
          rw (Sent.stream a, Sent.inbox a) carried in
        let b =
          recv_all-ok (was_read n t2 cs) (wrote n t1 ms) answers ds v back
            (ap (λ (self : EncryptedStream n). self.state) (Sent.stream a)) (Sent.kept a ∙ free)
            carried' in
        rw (continue-done (send_all n ms w) (λ _. recv_all n (length answers)) tt (Sent.success a))
          (Heard.success b, Heard.out b ∙ Sent.out a)

    recv_all-send_all :
        w.self.state ≡ established t2
        → Carries w.self.remote_addr cs w.inbox
        → (((recv_all n (length ms) >>= λ heard. send_all n answers >> pure heard) w).0 ≡ done ms)
          × (((recv_all n (length ms) >>= λ heard. send_all n answers >> pure heard) w).1.sent
              ≡ sent_after w.self.remote_addr ds w.sent)
    recv_all-send_all s carried =
        let a = recv_all-ok t1 t2 ms cs w flow s free carried in
        let v = (recv_all n (length ms) w).1 in
        let b =
          send_all-ok (was_read n t2 cs) (wrote n t1 ms) answers ds v back
            (ap (λ (self : EncryptedStream n). self.state) (Heard.stream a))
            (Heard.fates a ∙ fates) in
        let same : sent_after v.self.remote_addr ds v.sent
            ≡ sent_after w.self.remote_addr ds w.sent =
          rw (Heard.stream a, Heard.out a) refl in
        rw
          (
            continue-done (recv_all n (length ms) w) (λ heard. send_all n answers >> pure heard) ms
                (Heard.success a),
            continue-done (send_all n answers v) (λ _. pure ms) tt (Sent.success b),
          )
          (refl, Sent.out b ∙ same)

-- A handshake as in `handshake_pair`, with no timer around either end, between two streams that are
-- in step after it for some messages and then for answers. The initiator then sends the messages
-- and receives as many answers; the responder receives as many messages and then sends the answers.
-- No send fails, and the datagrams that come to each end from the other's address, behind the
-- handshake's and among whatever datagrams of strangers, begin with those that snow makes of the
-- messages, or of the answers. Then all calls succeed, each end has received what the other end
-- was given to send, in its order, and has sent just those datagrams.
pub conversation :
    (n : Noise) {E : Type 0} (priv_i pub_i priv_r pub_r : List ℕ)
    (x : Xx n priv_i pub_i priv_r pub_r)
    → (expected : Option (List ℕ)) (w1 w2 : World E (EncryptedStream n))
    → (ms cs answers ds : List (List ℕ)) → (expected ≡ none) ⊎ (expected ≡ some pub_r)
    → (r1 : InitiatorReady n priv_i pub_i priv_r pub_r x w1)
    → (r2 : ResponderReady n priv_i pub_i priv_r pub_r x w2) → w1.limit ≡ none
    → w2.limit ≡ none
    → Flow n x.transport_i x.transport_r ms cs
    → Flow n (was_read n x.transport_r cs) (wrote n x.transport_i ms) answers ds
    → Carries w1.self.remote_addr ds r1.rest
    → Carries w2.self.remote_addr cs r2.rest
    → (((speak n expected ms (length answers) w1).0 ≡ done answers)
        × ((speak n expected ms (length answers) w1).1.sent
            ≡ sent_after w1.self.remote_addr cs
                ((w1.self.remote_addr, x.m3) ∷ (w1.self.remote_addr, x.m1) ∷ w1.sent)))
      × (((reply n (length ms) answers w2).0 ≡ done ms)
          × ((reply n (length ms) answers w2).1.sent
              ≡ sent_after w2.self.remote_addr ds ((w2.self.remote_addr, x.m2) ∷ w2.sent)))
conversation n priv_i pub_i priv_r pub_r x expected w1 w2 ms cs answers ds fits r1 r2 free1 free2
      flow back carried1 carried2 =
    let (i, r) = handshake_pair n priv_i pub_i priv_r pub_r x expected w1 w2 fits r1 r2 in
    let v1 = (handshake_initiator n expected w1).1 in
    let v2 = (handshake_responder n w2).1 in
    let arrived1 : Carries v1.self.remote_addr ds v1.inbox =
      rw (Agrees.stream i, Agrees.inbox i) carried1 in
    let arrived2 : Carries v2.self.remote_addr cs v2.inbox =
      rw (Agrees.stream r, Agrees.inbox r) carried2 in
    let (got1, out1) =
      send_all-recv_all n x.transport_i x.transport_r ms cs answers ds flow back v1 (Agrees.sends i)
        (Agrees.kept i ∙ free1) (ap (λ (s : EncryptedStream n). s.state) (Agrees.stream i))
        arrived1 in
    let (got2, out2) =
      recv_all-send_all n x.transport_i x.transport_r ms cs answers ds flow back v2 (Agrees.sends r)
        (Agrees.kept r ∙ free2) (ap (λ (s : EncryptedStream n). s.state) (Agrees.stream r))
        arrived2 in
    let same1 : sent_after v1.self.remote_addr cs v1.sent
        ≡ sent_after w1.self.remote_addr cs
            ((w1.self.remote_addr, x.m3) ∷ (w1.self.remote_addr, x.m1) ∷ w1.sent) =
      rw (Agrees.stream i, Agrees.out i) refl in
    let same2 : sent_after v2.self.remote_addr ds v2.sent
        ≡ sent_after w2.self.remote_addr ds ((w2.self.remote_addr, x.m2) ∷ w2.sent) =
      rw (Agrees.stream r, Agrees.out r) refl in
    (
      rw
          (continue-done (handshake_initiator n expected w1)
            (λ _. send_all n ms >> recv_all n (length answers)) tt (Agrees.success i))
          (got1, out1 ∙ same1),
      rw
          (continue-done (handshake_responder n w2)
            (λ _. recv_all n (length ms) >>= λ heard. send_all n answers >> pure heard) tt
            (Agrees.success r))
          (got2, out2 ∙ same2),
    )
