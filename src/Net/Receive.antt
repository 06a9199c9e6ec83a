-- ===== src/Net/Receive.antt =====
-- What a receive under a timer, and a send, can have done.
use hyperswarm.Base.{
  sym, ℕ, ◌+◌, ◌≤◌, ◌<◌, ◌≡◌, refl, subst, Option, none, some, List, [], ◌∷◌, arith, take, max, leb,
  Bool, ◌||◌, Bool-cases, inl, inr,
}
use hyperswarm.Net.{
  Outcome, done, fail, elapsed, pending, panicked, Result, ok, err, World, Event, datagram,
  recv_error, SocketAddr, recv_from, take_event, timeout, send_to, send_as, close, earliest,
  convert, within,
}

-- No outer timer fires before that time.
abbrev pub Reaches : Option ℕ → ℕ → Type 0
Reaches none last = Unit
Reaches (some limit) last = last ≤ limit

pub Reaches-earlier :
    (limit : Option ℕ) (last time : ℕ) → Reaches limit last → time ≤ last → Reaches limit time
Reaches-earlier none last time r h = tt
Reaches-earlier (some limit) last time r h = omega (arith, r, h)

module _ {E S : Type 0} where
  -- The parts of the world that a receive leaves alone.
  pub record Frame (w w' : World E S) : Type 0 where
    pub limit : w'.limit ≡ w.limit
    pub sends : w'.sends ≡ w.sends
    pub sent : w'.sent ≡ w.sent
    pub self : w'.self ≡ w.self
    pub later : w.now ≤ w'.now

  -- The timer fired, or a datagram or an error was taken from the inbox.
  pub data Received (k size : ℕ) (w : World E S) (x : Option (Result E (SocketAddr × List ℕ)))
      (w' : World E S) : Type 0 where
    late : x ≡ none → w'.now ≡ w.now + k → w'.inbox ≡ w.inbox → Received k size w x w'
    heard :
        (time : ℕ) (from : SocketAddr) (bytes : List ℕ)
        → x ≡ some (ok (from, take size bytes))
        → w.inbox ≡ (time, datagram from bytes) ∷ w'.inbox
        → w'.now ≡ max w.now time
        → Received k size w x w'
    broken :
        (time : ℕ) (e : E)
        → x ≡ some (err e)
        → w.inbox ≡ (time, recv_error e) ∷ w'.inbox
        → w'.now ≡ max w.now time
        → Received k size w x w'

module _ {E S : Type 0} (Err' : Type 0) (k size : ℕ) (w : World E S) where
  -- An event of that time comes before the timer.
  abbrev arrives : ℕ → Bool
  arrives time = leb time w.now || leb time (earliest w.limit (w.now + k))

  Received-queue :
      (inbox : List (ℕ × Event E)) (x : Option (Result E (SocketAddr × List ℕ))) (w' : World E S)
      → inbox ≡ w.inbox
      → close {Err' = Err'} w.limit
          (w.now + k)
          (take_event size inbox (record w { limit = some (earliest w.limit (w.now + k)) }))
        ≡ (done x, w')
      → Received k size w x w' × Frame w w'
  unfolding take_event
  Received-queue [] x w' i e = (late (ground arith) (ground arith) (ground arith), ground arith)
  Received-queue ((t, datagram a b) ∷ rest) x w' i e = elim (Bool-cases (arrives t)) [
    | inl now ↦ (heard t a b (ground arith) (ground arith) (ground arith), ground arith)
    | inr not_yet ↦ (late (ground arith) (ground arith) (ground arith), ground arith)
  ]
  Received-queue ((t, recv_error f) ∷ rest) x w' i e = elim (Bool-cases (arrives t)) [
    | inl now ↦ (broken t f (ground arith) (ground arith) (ground arith), ground arith)
    | inr not_yet ↦ (late (ground arith) (ground arith) (ground arith), ground arith)
  ]

  -- So for a receive under a timer that ended before any outer timer did.
  pub timeout_recv :
      (x : Option (Result E (SocketAddr × List ℕ))) (w' : World E S)
      → timeout {Err' = Err'} k (recv_from size) w ≡ (done x, w')
      → Received k size w x w' × Frame w w'
  unfolding timeout recv_from
  timeout_recv x w' e = Received-queue w.inbox x w' refl e

module _ {E S : Type 0} where
  -- A send takes no time and leaves the inbox.
  pub record SendFrame (w w' : World E S) : Type 0 where
    pub now : w'.now ≡ w.now
    pub limit : w'.limit ≡ w.limit
    pub inbox : w'.inbox ≡ w.inbox
    pub self : w'.self ≡ w.self

  send_as-SendFrame :
      (fates : List (Option E)) (bytes : List ℕ) (to : SocketAddr) (w : World E S)
      → SendFrame w (send_as fates bytes to w).1
  send_as-SendFrame [] bytes to w = ground arith
  send_as-SendFrame (none ∷ fates) bytes to w = ground arith
  send_as-SendFrame (some e ∷ fates) bytes to w = ground arith

  pub send_to-SendFrame :
      (bytes : List ℕ) (to : SocketAddr) (w : World E S) → SendFrame w (send_to bytes to w).1
  unfolding send_to
  send_to-SendFrame bytes to w = send_as-SendFrame w.sends bytes to w

  pub convert-eq-done :
      {Err Err' X : Type 0} (f : Err → Err') (r : Outcome Err X × World E S) (x : X) (w : World E S)
      → convert f r ≡ (done x, w)
      → r ≡ (done x, w)
  convert-eq-done f (done y, v) x w e = ground arith
  convert-eq-done f (fail y, v) x w e = ground arith
  convert-eq-done f (elapsed, v) x w e = ground arith
  convert-eq-done f (pending, v) x w e = ground arith
  convert-eq-done f (panicked, v) x w e = ground arith

  pub sent-SendFrame :
      {Err : Type 0} (f : E → Err) (bytes : List ℕ) (to : SocketAddr) (w : World E S)
      → (x : Unit {0}) (w' : World E S) → convert f (send_to bytes to w) ≡ (done x, w')
      → SendFrame w w'
  sent-SendFrame f bytes to w x w' e =
      subst (λ (r : Outcome E (Unit {0}) × World E S). SendFrame w r.1)
        (convert-eq-done f (send_to bytes to w) x w' e) (send_to-SendFrame bytes to w)

  recv_reached :
      (Err' : Type 0) (k size : ℕ) (limit : Option ℕ) (w : World E S) (time : ℕ)
      → (from : SocketAddr) (bytes : List ℕ) (rest : List (ℕ × Event E)) → limit ≡ w.limit
      → Reaches limit time
      → w.inbox ≡ (time, datagram from bytes) ∷ rest
      → time ≤ w.now + k
      → timeout {Err' = Err'} k (recv_from size) w ≡ (
        done (some (ok (from, take size bytes))),
        record w { now = max w.now time; inbox = rest },
      )
  unfolding timeout recv_from take_event
  recv_reached Err' k size none w time from bytes rest l r i h = ground arith
  recv_reached Err' k size (some limit) w time from bytes rest l r i h = ground arith

  -- What arrives before the timer, and before any other, is received.
  pub timeout_recv_reached :
      (Err' : Type 0) (k size : ℕ) (w : World E S) (time : ℕ) (from : SocketAddr) (bytes : List ℕ)
      → (rest : List (ℕ × Event E)) → Reaches w.limit time
      → w.inbox ≡ (time, datagram from bytes) ∷ rest
      → time ≤ w.now + k
      → timeout {Err' = Err'} k (recv_from size) w ≡ (
        done (some (ok (from, take size bytes))),
        record w { now = max w.now time; inbox = rest },
      )
  timeout_recv_reached Err' k size w time from bytes rest r i h =
      recv_reached Err' k size w.limit w time from bytes rest refl r i h

  -- With no other timer, what arrives before the timer is received.
  pub timeout_recv_arrived :
      (Err' : Type 0) (k size : ℕ) (w : World E S) (time : ℕ) (from : SocketAddr) (bytes : List ℕ)
      → (rest : List (ℕ × Event E)) → w.limit ≡ none
      → w.inbox ≡ (time, datagram from bytes) ∷ rest
      → time ≤ w.now + k
      → timeout {Err' = Err'} k (recv_from size) w ≡ (
        done (some (ok (from, take size bytes))),
        record w { now = max w.now time; inbox = rest },
      )
  timeout_recv_arrived Err' k size w time from bytes rest l i h =
      recv_reached Err' k size none w time from bytes rest (sym l) tt i h

module _ {E S : Type 0} where
  -- What a receive that was done has taken from the inbox.
  pub record Took (size : ℕ) (from : SocketAddr) (bytes : List ℕ) (w v : World E S) : Type 0 where
    pub time : ℕ
    pub raw : List ℕ
    pub inbox : w.inbox ≡ (time, datagram from raw) ∷ v.inbox
    pub part : bytes ≡ take size raw
    pub self : v.self ≡ w.self
    pub sent : v.sent ≡ w.sent

  take_event-Took :
      (size : ℕ) (queue : List (ℕ × Event E)) (w v : World E S) (from : SocketAddr)
      → (bytes : List ℕ) → queue ≡ w.inbox
      → take_event size queue w ≡ (done (from, bytes), v)
      → Took size from bytes w v
  unfolding take_event
  take_event-Took size [] w v from bytes q e = ground arith
  take_event-Took size ((t, datagram a raw) ∷ rest) w v from bytes q e =
      elim (Bool-cases (leb t w.now || within w.limit t)) [
        | inl now ↦ record {
          time = t;
          raw = raw;
          inbox = ground arith;
          part = ground arith;
          self = ground arith;
          sent = ground arith;
        }
        | inr not_yet ↦ ground arith
      ]
  take_event-Took size ((t, recv_error f) ∷ rest) w v from bytes q e = ground arith

  pub recv_from-Took :
      (size : ℕ) (w v : World E S) (from : SocketAddr) (bytes : List ℕ)
      → recv_from size w ≡ (done (from, bytes), v)
      → Took size from bytes w v
  unfolding recv_from
  recv_from-Took size w v from bytes e = take_event-Took size w.inbox w v from bytes refl e

  send_as-sent :
      (fates : List (Option E)) (bytes : List ℕ) (to : SocketAddr) (w v : World E S)
      → send_as fates bytes to w ≡ (done tt, v)
      → v.sent ≡ (to, bytes) ∷ w.sent
  send_as-sent [] bytes to w v e = ground arith
  send_as-sent (none ∷ fates) bytes to w v e = ground arith
  send_as-sent (some f ∷ fates) bytes to w v e = ground arith

  pub send_to-sent :
      (bytes : List ℕ) (to : SocketAddr) (w v : World E S)
      → send_to bytes to w ≡ (done tt, v)
      → v.sent ≡ (to, bytes) ∷ w.sent
  unfolding send_to
  send_to-sent bytes to w v e = send_as-sent w.sends bytes to w v e

  -- With no other timer, what comes after the timer is not received.
  pub timeout_recv_late :
      (Err' : Type 0) (k size : ℕ) (w : World E S) (time : ℕ) (event : Event E)
      → (rest : List (ℕ × Event E)) → w.limit ≡ none
      → w.inbox ≡ (time, event) ∷ rest
      → w.now + k < time
      → timeout {Err' = Err'} k (recv_from size) w ≡ (done none, record w { now = w.now + k })
  unfolding timeout recv_from take_event
  timeout_recv_late Err' k size w time event rest l i h = ground arith

  -- With no timer, the next datagram is received, whenever it comes.
  pub recv_from_next :
      (size time : ℕ) (from : SocketAddr) (raw : List ℕ) (rest : List (ℕ × Event E))
      → (w : World E S) → w.limit ≡ none
      → w.inbox ≡ (time, datagram from raw) ∷ rest
      → recv_from size w
        ≡ (done (from, take size raw), record w { now = max w.now time; inbox = rest })
  unfolding recv_from take_event
  recv_from_next size time from raw rest w l i = ground arith

  pub recv_from_error :
      (size time : ℕ) (e : E) (rest : List (ℕ × Event E)) (w : World E S)
      → w.limit ≡ none
      → w.inbox ≡ (time, recv_error e) ∷ rest
      → recv_from size w ≡ (fail e, record w { now = max w.now time; inbox = rest })
  unfolding recv_from take_event
  recv_from_error size time e rest w l i = ground arith
