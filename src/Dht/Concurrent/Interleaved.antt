-- ===== src/Dht/Concurrent/Interleaved.antt =====
-- A query among others: it behaves as `recv_response` alone on the datagrams that it was given.
use hyperswarm.Base.{
  ℕ, zero, suc, ◌≡◌, refl, ap, ◌∙◌, false, none, List, [], ◌∷◌, arith, ◌==◌, ==_iff, if◌then◌else◌,
  Bool-cases, inl, inr, same_bytes, take, max,
}
use hyperswarm.Net.{
  World, Event, datagram, recv_error, Outcome, done, fail, pending, SocketAddr, Result, ok, err,
  recv_from, take_event, continue, lift, pure,
}
use hyperswarm.Net.Receive.{recv_from_next, recv_from_error}
use hyperswarm.Protocol.{KrpcMessage, ProtocolError, Bencode, decode_krpc, map_error}
use hyperswarm.Dht.Client.{
  DhtError, protocol, DhtClient, await_response, recv_response, recv_krpc, max_response_attempts,
  max_krpc_message_size,
}
use hyperswarm.Dht.Concurrent.{
  Phase, waiting, returned, failed, Shared, next_attempt, begin, on_event, on_decoded, turn,
  receive, run, receive_own,
}

module _ {E : Type 0} where
  -- The end of a call that waits for ever where it has not ended.
  abbrev pub outcome : Phase E → Outcome (DhtError E) KrpcMessage
  outcome (waiting attempts) = pending
  outcome (returned msg) = done msg
  outcome (failed e) = fail e

  abbrev pub events : List (ℕ × Event E) → List (Event E)
  events [] = []
  events ((_, event) ∷ rest) = event ∷ events rest

  -- What a receive takes from the queue, before what is taken later.
  abbrev pub taken : Phase E → List (Event E) → List (Event E) → List (Event E)
  taken (waiting attempts) (event ∷ _) later = event ∷ later
  taken (waiting attempts) [] later = later
  taken (returned msg) queue later = later
  taken (failed e) queue later = later

module _ {E : Type 0} (codec : Bencode) where
  -- What the task `i` receives in a run.
  abbrev pub share : ℕ → List ℕ → Shared E → List (Event E)
  share i [] s = []
  share i (k ∷ schedule) s =
      let rest = share i schedule (receive codec k s) in
      if k == i then taken (s.waiters k).phase s.queue rest else rest

  -- The call from a phase on, alone on a socket.
  abbrev resume :
      List ℕ → Phase E → World E DhtClient → Outcome (DhtError E) KrpcMessage × World E DhtClient
  resume tx_id (waiting attempts) w = await_response codec (suc attempts) tx_id w
  resume tx_id (returned msg) w = (done msg, w)
  resume tx_id (failed e) w = (fail e, w)

  resume-next_attempt :
      (n : ℕ) (tx_id : List ℕ) (w : World E DhtClient)
      → resume tx_id (next_attempt n) w ≡ await_response codec n tx_id w
  unfolding await_response
  resume-next_attempt zero tx_id w = refl
  resume-next_attempt (suc n) tx_id w = refl

  -- The rest of a round, from the decoded message.
  finish_round :
      (d : Result ProtocolError KrpcMessage) (from : SocketAddr) (n : ℕ) (tx_id : List ℕ)
      → (w : World E DhtClient)
      → continue
          (continue
            (lift {E = E} {S = DhtClient} (map_error protocol d) w)
            (λ msg. pure {E = E} {S = DhtClient} {X = SocketAddr × KrpcMessage} (from, msg)))
          (λ x. if same_bytes x.1.t tx_id then pure x.1 else await_response codec n tx_id)
        ≡ resume tx_id (on_decoded d tx_id n) w
  finish_round (err e) from n tx_id w = refl
  finish_round (ok msg) from n tx_id w = elim (Bool-cases (same_bytes msg.t tx_id)) [
    | inl own ↦ rw own refl
    | inr other ↦ rw (other, resume-next_attempt n tx_id w) refl
  ]

  await_response_event :
      (n : ℕ) (tx_id : List ℕ) (w : World E DhtClient) (time : ℕ) (event : Event E)
      → (rest : List (ℕ × Event E)) → w.limit ≡ none
      → w.inbox ≡ (time, event) ∷ rest
      → await_response codec (suc n) tx_id w
        ≡ resume tx_id
            (on_event codec event tx_id n)
            (record w { now = max w.now time; inbox = rest })
  unfolding await_response recv_krpc
  await_response_event n tx_id w time (recv_error e) rest l h =
      rw (recv_from_error max_krpc_message_size time e rest w l h) refl
  await_response_event n tx_id w time (datagram from bytes) rest l h =
      rw (recv_from_next max_krpc_message_size time from bytes rest w l h) (
        finish_round (decode_krpc codec (take max_krpc_message_size bytes)) from n tx_id
          (record w { now = max w.now time; inbox = rest }))

  turn_other :
      (i k : ℕ) (phase : Phase E) (queue : List (Event E)) (s : Shared E)
      → (k == i) ≡ false
      → (turn codec k phase queue s).waiters i ≡ s.waiters i
  unfolding turn
  turn_other i k (waiting n) (event ∷ rest) s d = ground arith
  turn_other i k (waiting n) [] s d = refl
  turn_other i k (returned msg) queue s d = refl
  turn_other i k (failed e) queue s d = refl

  receive_other :
      (i k : ℕ) (s : Shared E) → (k == i) ≡ false → (receive codec k s).waiters i ≡ s.waiters i
  unfolding receive
  receive_other i k s d = turn_other i k (s.waiters k).phase s.queue s d

  nothing_left :
      (inbox : List (ℕ × Event E)) (phase : Phase E) (tx_id : List ℕ) (w : World E DhtClient)
      → w.limit ≡ none
      → w.inbox ≡ inbox
      → events inbox ≡ []
      → ((resume tx_id phase w).0 ≡ outcome phase) × ((resume tx_id phase w).1.inbox ≡ [])
  unfolding await_response recv_krpc recv_from take_event
  nothing_left [] (waiting n) tx_id w l i h = ground arith
  nothing_left [] (returned msg) tx_id w l i h = (refl, i)
  nothing_left [] (failed e) tx_id w l i h = (refl, i)
  nothing_left (entry ∷ rest) phase tx_id w l i h = ground arith

module _ (E : Type 0) (codec : Bencode) where
  -- A call in some phase, on what it receives in the run, ends like its part of the run.
  abbrev Interleaves : List ℕ → ℕ → Type 0
  Interleaves schedule i =
      (phase : Phase E) (tx_id : List ℕ) (s : Shared E) (w : World E DhtClient)
      → w.limit ≡ none
      → s.waiters i ≡ record { tx_id = tx_id; phase = phase }
      → events w.inbox ≡ share codec i schedule s
      → ((resume codec tx_id phase w).0 ≡ outcome ((run codec schedule s).waiters i).phase)
        × ((resume codec tx_id phase w).1.inbox ≡ [])

  own_turn :
      (schedule : List ℕ) (i : ℕ) (phase : Phase E) (queue : List (Event E))
      → (inbox : List (ℕ × Event E)) (tx_id : List ℕ) (s : Shared E) (w : World E DhtClient)
      → Interleaves schedule i
      → w.limit ≡ none
      → w.inbox ≡ inbox
      → s.waiters i ≡ record { tx_id = tx_id; phase = phase }
      → events inbox ≡ taken phase queue (share codec i schedule (turn codec i phase queue s))
      → ((resume codec tx_id phase w).0
          ≡ outcome ((run codec schedule (turn codec i phase queue s)).waiters i).phase)
        × ((resume codec tx_id phase w).1.inbox ≡ [])
  unfolding turn
  own_turn schedule i (waiting n) (event ∷ queue) [] tx_id s w go l e p h = ground arith
  own_turn schedule i (waiting n) (event ∷ queue) ((time, first) ∷ rest) tx_id s w go l e p h =
      rw (await_response_event codec n tx_id w time first rest l e) (
        go (on_event codec first tx_id n) tx_id _ (record w { now = max w.now time; inbox = rest })
          l (ground arith) (ground arith))
  own_turn schedule i (waiting n) [] inbox tx_id s w go l e p h =
      go (waiting n) tx_id s w l p (ap events e ∙ h)
  own_turn schedule i (returned msg) queue inbox tx_id s w go l e p h =
      go (returned msg) tx_id s w l p (ap events e ∙ h)
  own_turn schedule i (failed f) queue inbox tx_id s w go l e p h =
      go (failed f) tx_id s w l p (ap events e ∙ h)

  own_receive :
      (schedule : List ℕ) (i : ℕ) (phase : Phase E) (tx_id : List ℕ) (s : Shared E)
      → (w : World E DhtClient) → Interleaves schedule i
      → w.limit ≡ none
      → s.waiters i ≡ record { tx_id = tx_id; phase = phase }
      → events w.inbox ≡ taken phase s.queue (share codec i schedule (receive codec i s))
      → ((resume codec tx_id phase w).0
          ≡ outcome ((run codec schedule (receive codec i s)).waiters i).phase)
        × ((resume codec tx_id phase w).1.inbox ≡ [])
  own_receive schedule i phase tx_id s w go l p h =
      let e = receive_own codec i phase tx_id s p in
      rw e (own_turn schedule i phase s.queue w.inbox tx_id s w go l refl p (h ∙ rw e refl))

  interleaved_from : (schedule : List ℕ) (i : ℕ) → Interleaves schedule i
  unfolding run
  interleaved_from [] i phase tx_id s w l p h =
      rw p (nothing_left codec w.inbox phase tx_id w l refl h)
  interleaved_from (k ∷ schedule) i phase tx_id s w l p h = elim (Bool-cases (k == i)) [
    | inl same ↦
        let e = (==_iff k i).0 same in
        rw e (
          own_receive schedule i phase tx_id s w (interleaved_from schedule i) l p
            (h ∙ rw (same, e, p) refl))
    | inr other ↦
        interleaved_from schedule i phase tx_id (receive codec k s) w l
          (receive_other codec i k s other ∙ p) (h ∙ rw other refl)
  ]

module _ {E : Type 0} (codec : Bencode) where
  -- A query that is begun among any others, run by any schedule, ends as `recv_response` would on
  -- a socket with just the datagrams that the query received, all of which that call takes.
  pub interleaved :
      (schedule : List ℕ) (i : ℕ) (tx_id : List ℕ) (s : Shared E) (w : World E DhtClient)
      → s.waiters i ≡ begin tx_id
      → w.limit ≡ none
      → events w.inbox ≡ share codec i schedule s
      → ((recv_response codec tx_id w).0 ≡ outcome ((run codec schedule s).waiters i).phase)
        × ((recv_response codec tx_id w).1.inbox ≡ [])
  unfolding recv_response
  interleaved schedule i tx_id s w b l h =
      interleaved_from E codec schedule i (next_attempt max_response_attempts) tx_id s w l b h
