-- ===== src/Dht/Concurrent/Stolen.antt =====
-- A response that another query receives.
use hyperswarm.Base.{
  ℕ, zero, suc, ◌≡◌, refl, ap, ◌∙◌, sym, subst, ◌≢◌, List, [], ◌∷◌, arith, ◌==◌, ==_iff, Bool-cases,
  inl, inr, same_bytes, same_bytes_iff, take,
}
use hyperswarm.Net.{Event, datagram, recv_error, SocketAddr, Result, ok, err}
use hyperswarm.Protocol.{KrpcMessage, ProtocolError, Bencode, decode_krpc}
use hyperswarm.Dht.Client.{max_krpc_message_size}
use hyperswarm.Dht.Concurrent.{
  Phase, waiting, returned, failed, Waiter, Shared, next_attempt, set_waiter, on_decoded, turn,
  receive, run, receive_own,
}

module _ {E : Type 0} (codec : Bencode) where
  -- No datagram of the queue holds a message of the transaction.
  abbrev pub Unanswered : List ℕ → List (Event E) → Type 0
  Unanswered tx_id [] = Unit
  Unanswered tx_id (datagram from bytes ∷ rest) =
      ((msg : KrpcMessage)
        → decode_krpc codec (take max_krpc_message_size bytes) ≡ ok msg
        → msg.t ≢ tx_id)
      × Unanswered tx_id rest
  Unanswered tx_id (recv_error e ∷ rest) = Unanswered tx_id rest

module _ {E : Type 0} where
  abbrev NotReturned : Phase E → Type 0
  NotReturned phase = (msg : KrpcMessage) → phase ≢ returned msg

  next_attempt-NotReturned : (n : ℕ) → NotReturned (next_attempt n)
  next_attempt-NotReturned zero msg e = ground arith
  next_attempt-NotReturned (suc n) msg e = ground arith

  on_decoded-NotReturned :
      (d : Result ProtocolError KrpcMessage) (tx_id : List ℕ) (n : ℕ)
      → ((msg : KrpcMessage) → d ≡ ok msg → msg.t ≢ tx_id)
      → NotReturned (on_decoded d tx_id n)
  on_decoded-NotReturned (err e) tx_id n h msg r = ground arith
  on_decoded-NotReturned (ok other) tx_id n h msg r = elim (Bool-cases (same_bytes other.t tx_id)) [
    | inl own ↦ absurd (h other refl ((same_bytes_iff other.t tx_id).0 own))
    | inr not_own ↦ next_attempt-NotReturned n msg (rw not_own at r)
  ]

module _ {E : Type 0} (codec : Bencode) where
  -- The query `j` has no response, and the queue has none for it.
  record Starved (tx_id : List ℕ) (j : ℕ) (s : Shared E) : Type 0 where
    own : (s.waiters j).tx_id ≡ tx_id
    open_yet : NotReturned (s.waiters j).phase
    queue : Unanswered codec tx_id s.queue

  set-Starved :
      (k j : ℕ) (tx_id : List ℕ) (phase : Phase E) (rest : List (Event E)) (s : Shared E)
      → (s.waiters j).tx_id ≡ tx_id
      → NotReturned (s.waiters j).phase
      → Unanswered codec tx_id rest
      → (k ≡ j → NotReturned phase)
      → Starved tx_id j (record {
        queue = rest;
        waiters = set_waiter k (record { tx_id = (s.waiters k).tx_id; phase = phase }) s.waiters;
      })
  set-Starved k j tx_id phase rest s h open_yet u own = elim (Bool-cases (k == j)) [
    | inl same ↦
        let e = (==_iff k j).0 same in
        record {
          own = rw same (ap (λ i. (s.waiters i).tx_id) e ∙ h);
          open_yet = λ msg. rw same (own e msg);
          queue = u;
        }
    | inr other ↦ record { own = rw other h; open_yet = λ msg. rw other (open_yet msg); queue = u }
  ]

  turn-Starved :
      (k j : ℕ) (tx_id : List ℕ) (phase : Phase E) (queue : List (Event E)) (s : Shared E)
      → s.queue ≡ queue
      → Starved tx_id j s
      → Starved tx_id j (turn codec k phase queue s)
  unfolding turn
  turn-Starved k j tx_id (waiting n) (recv_error e ∷ rest) s q h =
      set-Starved k j tx_id _ rest s h.own h.open_yet (rw q at h.queue) (λ _ msg e. ground arith)
  turn-Starved k j tx_id (waiting n) (datagram from bytes ∷ rest) s q h =
      let u = subst (Unanswered codec tx_id) q h.queue in
      set-Starved k j tx_id _ rest s h.own h.open_yet u.1 (λ e.
        on_decoded-NotReturned (decode_krpc codec (take max_krpc_message_size bytes)) _ n
          (λ msg d. rw (ap (λ i. (s.waiters i).tx_id) e ∙ h.own) (u.0 msg d)))
  turn-Starved k j tx_id (waiting n) [] s q h = h
  turn-Starved k j tx_id (returned msg) queue s q h = h
  turn-Starved k j tx_id (failed e) queue s q h = h

  run-Starved :
      (schedule : List ℕ) (j : ℕ) (tx_id : List ℕ) (s : Shared E)
      → Starved tx_id j s
      → Starved tx_id j (run codec schedule s)
  unfolding run receive
  run-Starved [] j tx_id s h = h
  run-Starved (k ∷ schedule) j tx_id s h =
      run-Starved schedule j tx_id (receive codec k s)
        (turn-Starved k j tx_id (s.waiters k).phase s.queue s refl h)

  turn_other-Starved :
      (i j m n : ℕ) (other tx_id : List ℕ) (event : Event E) (rest : List (Event E)) (s : Shared E)
      → i ≢ j
      → s.waiters j ≡ record { tx_id = tx_id; phase = waiting n }
      → Unanswered codec tx_id rest
      → Starved tx_id j (turn codec i (waiting m) (event ∷ rest) s)
  unfolding turn
  turn_other-Starved i j m n other tx_id event rest s d b u =
      set-Starved i j tx_id _ rest s (ap (λ (x : Waiter E). x.tx_id) b) (λ msg e. ground arith) u
        (λ e. absurd (d e))

  turn_hit :
      (j n : ℕ) (from : SocketAddr) (bytes : List ℕ) (rest : List (Event E)) (msg : KrpcMessage)
      → (s : Shared E) → codec.from_bytes (take max_krpc_message_size bytes) ≡ ok msg
      → (s.waiters j).tx_id ≡ msg.t
      → ((turn codec j (waiting n) (datagram from bytes ∷ rest) s).waiters j).phase ≡ returned msg
  unfolding turn decode_krpc
  turn_hit j n from bytes rest msg s decoded own =
      rw ((==_iff j j).1 refl, decoded, (same_bytes_iff msg.t (s.waiters j).tx_id).1 (sym own)) refl

  -- Two queries wait, and the next datagram answers the second. If the second query receives it,
  -- it returns the message. If the first does, the second returns no message under any schedule
  -- from there on, unless the queue has another datagram with its transaction id.
  pub receive_stolen :
      (schedule : List ℕ) (i j m n : ℕ) (other : List ℕ) (from : SocketAddr) (bytes : List ℕ)
      → (rest : List (Event E)) (msg answer : KrpcMessage) (s : Shared E) → i ≢ j
      → s.queue ≡ datagram from bytes ∷ rest
      → codec.from_bytes (take max_krpc_message_size bytes) ≡ ok msg
      → s.waiters i ≡ record { tx_id = other; phase = waiting m }
      → s.waiters j ≡ record { tx_id = msg.t; phase = waiting n }
      → Unanswered codec msg.t rest
      → (((receive codec j s).waiters j).phase ≡ returned msg)
        × (((run codec schedule (receive codec i s)).waiters j).phase ≢ returned answer)
  receive_stolen schedule i j m n other from bytes rest msg answer s d q decoded a b u =
      let v = record s { queue = datagram from bytes ∷ rest } in
      (
        rw (receive_own codec j (waiting n) msg.t s b, q)
            (turn_hit j n from bytes rest msg v decoded (ap (λ (x : Waiter E). x.tx_id) b)),
        (run-Starved schedule j msg.t (receive codec i s) (
              rw (receive_own codec i (waiting m) other s a, q)
                (turn_other-Starved i j m n other msg.t _ rest v d b u))).open_yet
            answer,
      )
