-- ===== src/Net/Ends.antt =====
-- Calm runs that end by a given time.
use hyperswarm.Base.{
  ℕ, ◌+◌, ◌≤◌, max, ◌≡◌, refl, ◌≢◌, Bool, true, false, List, arith, if◌then◌else◌,
}
use hyperswarm.Net.{
  Outcome, done, fail, elapsed, pending, panicked, Result, ok, err, World, M, SocketAddr, continue,
  convert, lift, timeout, recv_from, send_to,
}
use hyperswarm.Net.Calm.{Calm}
use hyperswarm.Net.Io.{recv_from-Calm, timeout-Calm, timeout-Swift, send_to-Calm, send_to-Swift}
use hyperswarm.Net.Receive.{send_to-SendFrame}

module _ {E S Err X : Type 0} where
  -- A calm run that ends by itself, at the time `last` if that is still to come.
  pub record Ends (last : ℕ) (w : World E S) (r : Outcome Err X × World E S) : Type 0 where
    pub calm : Calm w r
    pub ended : r.0 ≢ pending
    pub by : r.1.now ≤ max w.now last

module _ {E S Err X Y : Type 0} where
  -- The rest of the code may use what the first part gave.
  pub continue-Ends :
      (last : ℕ) (w : World E S) (r : Outcome Err X × World E S) (f : X → M E S Err Y)
      → Ends last w r
      → ((x : X) (w' : World E S) → r ≡ (done x, w') → Ends last w' (f x w'))
      → Ends last w (continue r f)
  continue-Ends last w (done x, w') f c k =
      let rest = k x w' refl in
      record {
        calm = ground (arith, c.calm, Ends.calm rest);
        ended = Ends.ended rest;
        by = ground (arith, rest);
      }
  continue-Ends last w (fail e, w') f c k = ground arith
  continue-Ends last w (elapsed, w') f c k = ground arith
  continue-Ends last w (pending, w') f c k = ground arith
  continue-Ends last w (panicked, w') f c k = ground arith

  pub convert-Ends :
      (last : ℕ) (w : World E S) (r : Outcome Err X × World E S) (f : Err → Y)
      → Ends last w r
      → Ends last w (convert f r)
  convert-Ends last w (done x, w') f c = ground arith
  convert-Ends last w (fail e, w') f c = ground arith
  convert-Ends last w (elapsed, w') f c = ground arith
  convert-Ends last w (pending, w') f c = ground arith
  convert-Ends last w (panicked, w') f c = ground arith

module _ {E S Err X : Type 0} where
  pub lift-Ends : (last : ℕ) (r : Result Err X) (w : World E S) → Ends last w (lift r w)
  lift-Ends last (ok x) w = ground arith
  lift-Ends last (err e) w = ground arith

  pub if-Ends :
      (last : ℕ) (b : Bool) (m n : M E S Err X) (w : World E S)
      → Ends last w (m w)
      → Ends last w (n w)
      → Ends last w ((if b then m else n) w)
  if-Ends last true m n w p q = p
  if-Ends last false m n w p q = q

  pub lift-eq-done :
      (r : Result Err X) (w : World E S) (x : X) (w' : World E S)
      → lift r w ≡ (done x, w')
      → (r ≡ ok x) × (w' ≡ w)
  lift-eq-done (ok y) w x w' e = ground arith
  lift-eq-done (err f) w x w' e = ground arith

  -- `self` has no part in it.
  pub self-Ends :
      (last : ℕ) (s : S) (w : World E S) (r : Outcome Err X × World E S)
      → Ends last (record w { self = s }) r
      → Ends last w r
  self-Ends last s w r c = ground arith

module _ {E S : Type 0} where
  pub send_to-Ends :
      (last : ℕ) (bytes : List ℕ) (to : SocketAddr) (w : World E S)
      → Ends last w (send_to bytes to w)
  send_to-Ends last bytes to w =
      let f = send_to-SendFrame bytes to w in
      let s = send_to-Swift bytes to w in
      record { calm = send_to-Calm bytes to w; ended = s.ended; by = omega arith }

  -- A receive under a timer that ends by `last`.
  pub timeout_recv-Ends :
      (Err' : Type 0) (last k size : ℕ) (w : World E S)
      → w.now + k ≤ last
      → Ends {Err = Err'} last w (timeout k (recv_from size) w)
  timeout_recv-Ends Err' last k size w h =
      let c = timeout-Calm {Err' = Err'} k _ (recv_from-Calm size) w in
      let s = timeout-Swift {Err' = Err'} k _ (recv_from-Calm size) w in
      record { calm = c; ended = s.ended; by = ground (arith, s.soon) }
