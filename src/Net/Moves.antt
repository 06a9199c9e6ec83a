-- ===== src/Net/Moves.antt =====
-- How a run changes `self`: the socket, the resolver and the timers leave it alone, and a relation
-- that composes holds of a function if it holds of its parts.
use hyperswarm.Base.{
  ℕ, ◌+◌, ◌≡◌, refl, Bool, true, false, Option, none, some, List, [], ◌∷◌, String, arith,
  if◌then◌else◌,
}
use hyperswarm.Net.{
  Outcome, done, fail, elapsed, pending, panicked, Result, ok, err, World, M, Event, datagram,
  recv_error, Lookup, answered, refused, silent, SocketAddr, continue, convert, reflect, close,
  lift, take_event, recv_from, send_as, send_to, resolve, lookup_host, timeout, settle, timeout_or,
}

module _ {E S : Type 0} where
  take_event-self :
      (size : ℕ) (inbox : List (ℕ × Event E)) (w : World E S)
      → (take_event size inbox w).1.self ≡ w.self
  unfolding take_event
  take_event-self size [] w = ground arith
  take_event-self size ((t, datagram a bytes) ∷ rest) w = ground arith
  take_event-self size ((t, recv_error e) ∷ rest) w = ground arith

  recv_from-self : (size : ℕ) (w : World E S) → (recv_from size w).1.self ≡ w.self
  unfolding recv_from
  recv_from-self size w = take_event-self size w.inbox w

  send_as-self :
      (fates : List (Option E)) (bytes : List ℕ) (to : SocketAddr) (w : World E S)
      → (send_as fates bytes to w).1.self ≡ w.self
  send_as-self [] bytes to w = refl
  send_as-self (none ∷ fates) bytes to w = refl
  send_as-self (some e ∷ fates) bytes to w = refl

  send_to-self :
      (bytes : List ℕ) (to : SocketAddr) (w : World E S) → (send_to bytes to w).1.self ≡ w.self
  unfolding send_to
  send_to-self bytes to w = send_as-self w.sends bytes to w

  resolve-self : (a : Lookup E) (w : World E S) → (resolve a w).1.self ≡ w.self
  resolve-self (answered delay addrs) w = ground arith
  resolve-self (refused delay e) w = ground arith
  resolve-self silent w = ground arith

  lookup_host-self : (name : String) (w : World E S) → (lookup_host name w).1.self ≡ w.self
  unfolding lookup_host
  lookup_host-self name w = resolve-self (w.dns w.now name) w

module _ {E S Err X : Type 0} where
  lift-self : (r : Result Err X) (w : World E S) → (lift r w).1.self ≡ w.self
  lift-self (ok x) w = refl
  lift-self (err e) w = refl

  settle-self :
      (late : Err) (o : Option (Result Err X)) (w : World E S) → (settle late o w).1.self ≡ w.self
  settle-self late none w = refl
  settle-self late (some r) w = lift-self r w

-- A relation between the states before and after, reflexive and transitive.
pub record IsPreorder {S : Type 0} (R : S → S → Type 0) : Type 0 where
  pub stays : (s t : S) → t ≡ s → R s t
  pub trans : (s t u : S) → R s t → R t u → R s u

module _ {E S Err X : Type 0} where
  -- A run from `w` that ended in `r` moved `self` along `R`.
  pub record Moves (R : S → S → Type 0) (w : World E S) (r : Outcome Err X × World E S)
      : Type 0 where
    pub moved : R w.self r.1.self

  -- Every run of `m` does.
  abbrev pub IsMove : (S → S → Type 0) → M E S Err X → Type 0
  IsMove R m = (w : World E S) → Moves R w (m w)

  pub unmoved :
      {R : S → S → Type 0} (p : IsPreorder R) (w : World E S) (r : Outcome Err X × World E S)
      → r.1.self ≡ w.self
      → Moves R w r
  unmoved p w r e = record { moved = p.stays _ _ e }

module _ {E S Err X Y : Type 0} {R : S → S → Type 0} (p : IsPreorder R) where
  pub continue-Moves :
      (w : World E S) (r : Outcome Err X × World E S) (f : X → M E S Err Y)
      → Moves R w r
      → ((x : X) (w' : World E S) → Moves R w' (f x w'))
      → Moves R w (continue r f)
  continue-Moves w (done x, w') f h k = record {
    moved = p.trans _ _ _ h.moved (Moves.moved (k x w'));
  }
  continue-Moves w (fail e, w') f h k = record { moved = h.moved }
  continue-Moves w (elapsed, w') f h k = record { moved = h.moved }
  continue-Moves w (pending, w') f h k = record { moved = h.moved }
  continue-Moves w (panicked, w') f h k = record { moved = h.moved }

module _ {E S Err X Y : Type 0} {R : S → S → Type 0} where
  pub convert-Moves :
      (w : World E S) (r : Outcome Err X × World E S) (f : Err → Y)
      → Moves R w r
      → Moves R w (convert f r)
  convert-Moves w (done x, w') f h = record { moved = h.moved }
  convert-Moves w (fail e, w') f h = record { moved = h.moved }
  convert-Moves w (elapsed, w') f h = record { moved = h.moved }
  convert-Moves w (pending, w') f h = record { moved = h.moved }
  convert-Moves w (panicked, w') f h = record { moved = h.moved }

  pub reflect-Moves :
      (w : World E S) (r : Outcome Err X × World E S)
      → Moves R w r
      → Moves {Err = Y} R w (reflect r)
  reflect-Moves w (done x, w') h = record { moved = h.moved }
  reflect-Moves w (fail e, w') h = record { moved = h.moved }
  reflect-Moves w (elapsed, w') h = record { moved = h.moved }
  reflect-Moves w (pending, w') h = record { moved = h.moved }
  reflect-Moves w (panicked, w') h = record { moved = h.moved }

  close-Moves :
      (w : World E S) (limit : Option ℕ) (deadline : ℕ) (r : Outcome Err X × World E S)
      → Moves R (record w { limit = limit }) r
      → Moves {Err = Y} R w (close w.limit deadline r)
  close-Moves w limit deadline (done x, w') h = record { moved = h.moved }
  close-Moves w limit deadline (fail e, w') h = record { moved = h.moved }
  close-Moves w limit deadline (elapsed, w') h = record { moved = h.moved }
  close-Moves w limit deadline (pending, w') h = record { moved = h.moved }
  close-Moves w limit deadline (panicked, w') h = record { moved = h.moved }

module _ {E S Err X : Type 0} {R : S → S → Type 0} where
  pub timeout-Moves :
      {Err' : Type 0} (k : ℕ) (m : M E S Err X)
      → IsMove R m
      → (w : World E S) → Moves {Err = Err'} R w (timeout k m w)
  unfolding timeout
  timeout-Moves k m h w = close-Moves w _ (w.now + k) _ (h _)

  pub timeout_or-Moves :
      (p : IsPreorder R) (k : ℕ) (late : Err) (m : M E S Err X)
      → IsMove R m
      → (w : World E S) → Moves R w (timeout_or k late m w)
  unfolding timeout_or
  timeout_or-Moves p k late m h w =
      continue-Moves p w _ _ (timeout-Moves k m h w) λ o w'. unmoved p w' _ (settle-self late o w')

  pub if-Moves :
      (b : Bool) (m n : M E S Err X) (w : World E S)
      → Moves R w (m w)
      → Moves R w (n w)
      → Moves R w ((if b then m else n) w)
  if-Moves true m n w h k = h
  if-Moves false m n w h k = k

module _ {E S Err X : Type 0} {R : S → S → Type 0} (p : IsPreorder R) where
  pub done-Moves : (x : X) (w : World E S) → Moves {Err = Err} R w (done x, w)
  done-Moves x w = unmoved p w _ refl

  pub fail-Moves : (e : Err) (w : World E S) → Moves {X = X} R w (fail e, w)
  fail-Moves e w = unmoved p w _ refl

  pub lift-Moves : (r : Result Err X) (w : World E S) → Moves R w (lift r w)
  lift-Moves r w = unmoved p w _ (lift-self r w)

module _ {E S : Type 0} {R : S → S → Type 0} (p : IsPreorder R) where
  pub recv_from-Moves : (size : ℕ) (w : World E S) → Moves R w (recv_from size w)
  recv_from-Moves size w = unmoved p w _ (recv_from-self size w)

  pub send_to-Moves :
      (bytes : List ℕ) (to : SocketAddr) (w : World E S) → Moves R w (send_to bytes to w)
  send_to-Moves bytes to w = unmoved p w _ (send_to-self bytes to w)

  pub lookup_host-Moves : (name : String) (w : World E S) → Moves R w (lookup_host name w)
  lookup_host-Moves name w = unmoved p w _ (lookup_host-self name w)
