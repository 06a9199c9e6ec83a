-- ===== src/Net/Select.antt =====
-- `tokio::select!` of a receive and a fresh `sleep`.
use hyperswarm.Base.{
  ℕ, ◌+◌, max, ◌≡◌, refl, ◌∙◌, ap, Bool, true, false, not, ◌&&◌, ◌||◌, ltb, ◌==◌, Option, none,
  some, List, [], ◌∷◌, arith, take, if◌then◌else◌, Bool-cases, inl, inr,
}
use hyperswarm.Net.{
  World, M, Outcome, Result, ok, done, fail, elapsed, pending, panicked, close, earliest,
  take_event, Event, datagram, recv_error, SocketAddr, pure, wait_until, recv_from, timeout,
}
use hyperswarm.Net.Calm.{Calm, Swift}
use hyperswarm.Net.Io.{recv_from-Calm, timeout-Calm, timeout-Swift}
use hyperswarm.Net.Receive.{
  Received, late, Frame, timeout_recv, timeout_recv_arrived, timeout_recv_late,
}
use hyperswarm.Net.Drains.{Drains, stays-Drains, timeout-Drains, recv_from-Drains}

-- The next event comes at just that time.
abbrev pub comes_at : {E : Type 0} → ℕ → List (ℕ × Event E) → Bool
comes_at moment [] = false
comes_at moment ((time, _) ∷ _) = time == moment

module _ {E S : Type 0} where
  -- `some` for the receive and `none` for the sleep, of some milliseconds. When an event comes
  -- just as the sleep ends, either is taken, and the event of a receive that was not taken stays.
  unfoldable pub select_recv :
      {Err' : Type 0} → ℕ → ℕ → M E S Err' (Option (Result E (SocketAddr × List ℕ)))
  select_recv k size w =
      if comes_at (w.now + k) w.inbox && not (w.ties (w.now + k))
      then wait_until (w.now + k) (pure none) w
      else timeout k (recv_from size) w

  -- The sleep is taken.
  abbrev pub sleeps : World E S → ℕ → ℕ → Bool
  sleeps w k time = ltb (w.now + k) time || (time == w.now + k && not (w.ties (w.now + k)))

module _ {E S : Type 0} (Err' : Type 0) (k size : ℕ) (w : World E S) where
  -- It is the one or the other.
  either :
      (P : Outcome Err' (Option (Result E (SocketAddr × List ℕ))) × World E S → Type 0)
      → P (wait_until (w.now + k) (pure none) w)
      → P (timeout k (recv_from size) w)
      → P (select_recv k size w)
  unfolding select_recv
  either P slept received =
      elim (Bool-cases (comes_at (w.now + k) w.inbox && not (w.ties (w.now + k)))) [
        | inl e ↦ rw e slept
        | inr e ↦ rw e received
      ]

  slept-Calm :
      Calm {Err = Err'} {X = Option (Result E (SocketAddr × List ℕ))} w
        (wait_until (w.now + k) (pure none) w)
  slept-Calm = ground arith

  slept-Swift :
      Swift {Err = Err'} {X = Option (Result E (SocketAddr × List ℕ))} k w
        (wait_until (w.now + k) (pure none) w)
  slept-Swift = ground arith

  pub select_recv-Calm : Calm {Err = Err'} w (select_recv k size w)
  select_recv-Calm = either (λ r. Calm w r) slept-Calm (timeout-Calm k _ (recv_from-Calm size) w)

  pub select_recv-Swift : Swift {Err = Err'} k w (select_recv k size w)
  select_recv-Swift =
      either (λ r. Swift k w r) slept-Swift (timeout-Swift k _ (recv_from-Calm size) w)

  pub select_recv-Drains : Drains {Err = Err'} w (select_recv k size w)
  select_recv-Drains =
      either (λ r. Drains w r) (stays-Drains w _ (ground arith) (ground arith))
        (timeout-Drains k _ (recv_from-Drains size) w)

  -- What a `select!` that ended before any outer timer has done.
  pub select_recv-Received :
      (x : Option (Result E (SocketAddr × List ℕ))) (v : World E S)
      → select_recv {Err' = Err'} k size w ≡ (done x, v)
      → Received k size w x v × Frame w v
  select_recv-Received x v =
      either (λ r. r ≡ (done x, v) → Received k size w x v × Frame w v)
        (λ e. (late (ground arith) (ground arith) (ground arith), ground arith))
        (timeout_recv Err' k size w x v)

  -- By the time of the next event.
  by_time :
      (time : ℕ) (event : Event E) (rest : List (ℕ × Event E)) (b : Bool)
      → w.inbox ≡ (time, event) ∷ rest
      → (time == w.now + k && not (w.ties (w.now + k))) ≡ b
      → select_recv {Err' = Err'} k size w
        ≡ (if b then wait_until (w.now + k) (pure none) w else timeout k (recv_from size) w)
  unfolding select_recv
  by_time time event rest b i e =
      let next : comes_at (w.now + k) w.inbox ≡ (time == w.now + k) = ap (comes_at (w.now + k)) i in
      rw (next, e) refl

  module _ (time : ℕ) (rest : List (ℕ × Event E)) (free : w.limit ≡ none) where
    pub select_recv-takes :
        (from : SocketAddr) (bytes : List ℕ)
        → w.inbox ≡ (time, datagram from bytes) ∷ rest
        → sleeps w k time ≡ false
        → select_recv {Err' = Err'} k size w ≡ (
          done (some (ok (from, take size bytes))),
          record w { now = max w.now time; inbox = rest },
        )
    select_recv-takes from bytes i awake =
        by_time time (datagram from bytes) rest false i (ground arith)
        ∙ timeout_recv_arrived Err' k size w time from bytes rest free i (ground arith)

    pub select_recv-sleeps :
        (event : Event E)
        → w.inbox ≡ (time, event) ∷ rest
        → sleeps w k time ≡ true
        → select_recv {Err' = Err'} k size w ≡ (done none, record w { now = w.now + k })
    select_recv-sleeps event i asleep =
        elim (Bool-cases (time == w.now + k && not (w.ties (w.now + k)))) [
          | inl e ↦ by_time time event rest true i e ∙ ground arith
          | inr e ↦
              by_time time event rest false i e
              ∙ timeout_recv_late Err' k size w time event rest free i (ground arith)
        ]

module _ {E S Err X : Type 0} (Err' : Type 0) where
  close-sent :
      (outer : Option ℕ) (deadline : ℕ) (r : Outcome Err X × World E S)
      → (close {Err' = Err'} outer deadline r).1.sent ≡ r.1.sent
  close-sent outer deadline (done x, v) = refl
  close-sent outer deadline (fail e, v) = refl
  close-sent outer deadline (elapsed, v) = refl
  close-sent outer deadline (pending, v) = refl
  close-sent outer deadline (panicked, v) = refl

module _ {E S : Type 0} where
  take_event-sent :
      (size : ℕ) (queue : List (ℕ × Event E)) (w : World E S)
      → (take_event size queue w).1.sent ≡ w.sent
  unfolding take_event
  take_event-sent size [] w = ground arith
  take_event-sent size ((t, datagram a bytes) ∷ rest) w = ground arith
  take_event-sent size ((t, recv_error e) ∷ rest) w = ground arith

  -- However it ends, nothing is sent.
  pub select_recv-sent :
      (Err' : Type 0) (k size : ℕ) (w : World E S)
      → (select_recv {Err' = Err'} k size w).1.sent ≡ w.sent
  unfolding timeout recv_from
  select_recv-sent Err' k size w =
      either Err' k size w (λ r. r.1.sent ≡ w.sent) (ground arith)
        (close-sent Err' w.limit (w.now + k) _
          ∙ take_event-sent size w.inbox (record w { limit = some (earliest w.limit (w.now + k)) }))
