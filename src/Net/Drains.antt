-- ===== src/Net/Drains.antt =====
-- Runs that take events from the head of the inbox, and leave `self` alone.
use hyperswarm.Base.{
  ℕ, ◌+◌, max, ◌≡◌, refl, ap, sym, ◌∙◌, Bool, true, false, Option, none, some, List, [], ◌∷◌, ◌++◌,
  arith, ◌||◌, leb, Bool-cases, inl, inr, if◌then◌else◌,
}
use mathlib.Core.List.{append_assoc}
use hyperswarm.Net.{
  Outcome, done, fail, elapsed, pending, panicked, World, M, Event, datagram, recv_error,
  SocketAddr, continue, convert, reflect, close, take_event, recv_from, send_to, timeout, within,
  Result, ok, err, lift, deliver, expire,
}
use hyperswarm.Net.Receive.{send_to-SendFrame}

module _ {E S Err X : Type 0} where
  pub record Drains (w : World E S) (r : Outcome Err X × World E S) : Type 0 where
    pub taken : List (ℕ × Event E)
    pub inbox : w.inbox ≡ taken ++ r.1.inbox
    pub self : r.1.self ≡ w.self

  pub stays-Drains :
      (w : World E S) (r : Outcome Err X × World E S)
      → r.1.inbox ≡ w.inbox
      → r.1.self ≡ w.self
      → Drains w r
  stays-Drains w r i s = record { taken = []; inbox = sym i; self = s }

module _ {E S Err X Y : Type 0} where
  pub continue-Drains :
      (w : World E S) (r : Outcome Err X × World E S) (f : X → M E S Err Y)
      → Drains w r
      → ((x : X) (v : World E S) → r ≡ (done x, v) → Drains v (f x v))
      → Drains w (continue r f)
  continue-Drains w (done x, v) f d k =
      let rest = k x v refl in
      record {
        taken = d.taken ++ rest.taken;
        inbox = d.inbox ∙ ap (d.taken ++◌) rest.inbox ∙ sym (append_assoc d.taken rest.taken _);
        self = rest.self ∙ d.self;
      }
  continue-Drains w (fail e, v) f d k = record { taken = d.taken; inbox = d.inbox; self = d.self }
  continue-Drains w (elapsed, v) f d k = record { taken = d.taken; inbox = d.inbox; self = d.self }
  continue-Drains w (pending, v) f d k = record { taken = d.taken; inbox = d.inbox; self = d.self }
  continue-Drains w (panicked, v) f d k = record { taken = d.taken; inbox = d.inbox; self = d.self }

  pub convert-Drains :
      (w : World E S) (r : Outcome Err X × World E S) (f : Err → Y)
      → Drains w r
      → Drains w (convert f r)
  convert-Drains w (done x, v) f d = record { taken = d.taken; inbox = d.inbox; self = d.self }
  convert-Drains w (fail e, v) f d = record { taken = d.taken; inbox = d.inbox; self = d.self }
  convert-Drains w (elapsed, v) f d = record { taken = d.taken; inbox = d.inbox; self = d.self }
  convert-Drains w (pending, v) f d = record { taken = d.taken; inbox = d.inbox; self = d.self }
  convert-Drains w (panicked, v) f d = record { taken = d.taken; inbox = d.inbox; self = d.self }

  pub reflect-Drains :
      (w : World E S) (r : Outcome Err X × World E S) → Drains w r → Drains {Err = Y} w (reflect r)
  reflect-Drains w (done x, v) d = record { taken = d.taken; inbox = d.inbox; self = d.self }
  reflect-Drains w (fail e, v) d = record { taken = d.taken; inbox = d.inbox; self = d.self }
  reflect-Drains w (elapsed, v) d = record { taken = d.taken; inbox = d.inbox; self = d.self }
  reflect-Drains w (pending, v) d = record { taken = d.taken; inbox = d.inbox; self = d.self }
  reflect-Drains w (panicked, v) d = record { taken = d.taken; inbox = d.inbox; self = d.self }

  close-Drains :
      (w : World E S) (limit : Option ℕ) (deadline : ℕ) (r : Outcome Err X × World E S)
      → Drains (record w { limit = limit }) r
      → Drains {Err = Y} w (close w.limit deadline r)
  close-Drains w limit k (done x, v) d = record { taken = d.taken; inbox = d.inbox; self = d.self }
  close-Drains w limit k (fail e, v) d = record { taken = d.taken; inbox = d.inbox; self = d.self }
  close-Drains w limit k (elapsed, v) d = record { taken = d.taken; inbox = d.inbox; self = d.self }
  close-Drains w limit k (pending, v) d = record { taken = d.taken; inbox = d.inbox; self = d.self }
  close-Drains w limit k (panicked, v) d = record {
    taken = d.taken;
    inbox = d.inbox;
    self = d.self;
  }

module _ {E S Err Err' X : Type 0} where
  pub timeout-Drains :
      (k : ℕ) (m : M E S Err X)
      → ((v : World E S) → Drains v (m v))
      → (w : World E S) → Drains {Err = Err'} w (timeout k m w)
  unfolding timeout
  timeout-Drains k m h w = close-Drains w _ (w.now + k) _ (h _)

module _ {E S Err X : Type 0} where
  pub lift-Drains : (r : Result Err X) (w : World E S) → Drains w (lift r w)
  lift-Drains (ok x) w = stays-Drains w _ refl refl
  lift-Drains (err e) w = stays-Drains w _ refl refl

  pub if-Drains :
      (b : Bool) (m n : M E S Err X) (w : World E S)
      → Drains w (m w)
      → Drains w (n w)
      → Drains w ((if b then m else n) w)
  if-Drains true m n w p q = p
  if-Drains false m n w p q = q

module _ {E S : Type 0} where
  deliver-world :
      (size : ℕ) (event : Event E) (v : World E S)
      → ((deliver size event v).1.inbox ≡ v.inbox) × ((deliver size event v).1.self ≡ v.self)
  deliver-world size (datagram from bytes) v = (refl, refl)
  deliver-world size (recv_error e) v = (refl, refl)

  expire-world :
      (limit : Option ℕ) (w : World E S)
      → ((expire {Err = E} {X = SocketAddr × List ℕ} limit w).1.inbox ≡ w.inbox)
        × ((expire {Err = E} {X = SocketAddr × List ℕ} limit w).1.self ≡ w.self)
  expire-world none w = (refl, refl)
  expire-world (some l) w = (refl, refl)

  take_event-Drains :
      (size : ℕ) (queue : List (ℕ × Event E)) (w : World E S)
      → queue ≡ w.inbox
      → Drains w (take_event size queue w)
  unfolding take_event
  take_event-Drains size [] w q = stays-Drains w _ (ground arith) (ground arith)
  take_event-Drains size ((t, event) ∷ rest) w q =
      let v = record w { now = max w.now t; inbox = rest } in
      elim (Bool-cases (leb t w.now || within w.limit t)) [
        | inl now ↦ rw now (record {
          taken = (t, event) ∷ [];
          inbox = sym q ∙ sym (ap (λ l. (t, event) ∷ l) (deliver-world size event v).0);
          self = (deliver-world size event v).1;
        })
        | inr later ↦
            rw later (stays-Drains w _ (expire-world w.limit w).0 (expire-world w.limit w).1)
      ]

  pub recv_from-Drains : (size : ℕ) (w : World E S) → Drains w (recv_from size w)
  unfolding recv_from
  recv_from-Drains size w = take_event-Drains size w.inbox w refl

  pub send_to-Drains :
      (bytes : List ℕ) (to : SocketAddr) (w : World E S) → Drains w (send_to bytes to w)
  send_to-Drains bytes to w =
      let f = send_to-SendFrame bytes to w in stays-Drains w _ f.inbox f.self
