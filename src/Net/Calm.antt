-- ===== src/Net/Calm.antt =====
-- Calm runs: no panic, the timers around the code are kept and end every wait in time.
use hyperswarm.Base.{
  ℕ, ◌+◌, ◌≤◌, max, ◌≡◌, ◌≢◌, Bool, true, false, Option, none, some, arith, length, if◌then◌else◌,
}
use hyperswarm.Net.{
  Outcome, done, fail, elapsed, pending, panicked, World, M, continue, convert, reflect, close,
  earliest,
}

module _ {E S : Type 0} {Err X : Type 0} where
  abbrev pub InTime : Option ℕ → ℕ → Outcome Err X × World E S → Type 0
  InTime none now r = r.0 ≢ elapsed
  InTime (some limit) now r = (r.0 ≢ pending) × (r.1.now ≤ max now limit)

  -- A run from `w` that ended in `r`.
  pub record Calm (w : World E S) (r : Outcome Err X × World E S) : Type 0 where
    pub kept : r.1.limit ≡ w.limit
    pub later : w.now ≤ r.1.now
    pub fewer : length r.1.inbox ≤ length w.inbox
    pub unharmed : r.0 ≢ panicked
    pub in_time : InTime w.limit w.now r

  -- A run that ends by itself, within `k` milliseconds.
  pub record Swift (k : ℕ) (w : World E S) (r : Outcome Err X × World E S) : Type 0 where
    pub ended : r.0 ≢ pending
    pub soon : r.1.now ≤ w.now + k

module _ {E S : Type 0} {Err X Y : Type 0} where
  pub continue-Calm :
      (w : World E S) (r : Outcome Err X × World E S) (f : X → M E S Err Y)
      → Calm w r
      → ((x : X) (w' : World E S) → Calm w' (f x w'))
      → Calm w (continue r f)
  continue-Calm w (done x, w') f c k = ground (arith, k x w')
  continue-Calm w (fail e, w') f c k = ground arith
  continue-Calm w (elapsed, w') f c k = ground arith
  continue-Calm w (pending, w') f c k = ground arith
  continue-Calm w (panicked, w') f c k = ground arith

  pub convert-Calm :
      (w : World E S) (r : Outcome Err X × World E S) (f : Err → Y)
      → Calm w r
      → Calm w (convert f r)
  convert-Calm w (done x, w') f c = ground arith
  convert-Calm w (fail e, w') f c = ground arith
  convert-Calm w (elapsed, w') f c = ground arith
  convert-Calm w (pending, w') f c = ground arith
  convert-Calm w (panicked, w') f c = ground arith

  pub close-Calm :
      (w : World E S) (deadline : ℕ) (r : Outcome Err X × World E S)
      → w.now ≤ deadline
      → Calm (record w { limit = some (earliest w.limit deadline) }) r
      → Calm {Err = Y} w (close w.limit deadline r)
  close-Calm w deadline (done x, w') h c = ground arith
  close-Calm w deadline (fail e, w') h c = ground arith
  close-Calm w deadline (elapsed, w') h c = ground arith
  close-Calm w deadline (pending, w') h c = ground arith
  close-Calm w deadline (panicked, w') h c = ground arith

  pub close-Swift :
      (w : World E S) (k : ℕ) (r : Outcome Err X × World E S)
      → Calm (record w { limit = some (earliest w.limit (w.now + k)) }) r
      → Swift {Err = Y} k w (close w.limit (w.now + k) r)
  close-Swift w k (done x, w') c = ground arith
  close-Swift w k (fail e, w') c = ground arith
  close-Swift w k (elapsed, w') c = ground arith
  close-Swift w k (pending, w') c = ground arith
  close-Swift w k (panicked, w') c = ground arith

  pub reflect-Calm :
      (w : World E S) (r : Outcome Err X × World E S) → Calm w r → Calm {Err = Y} w (reflect r)
  reflect-Calm w (done x, w') c = ground arith
  reflect-Calm w (fail e, w') c = ground arith
  reflect-Calm w (elapsed, w') c = ground arith
  reflect-Calm w (pending, w') c = ground arith
  reflect-Calm w (panicked, w') c = ground arith

  pub continue-Swift :
      (a b : ℕ) (w : World E S) (r : Outcome Err X × World E S) (f : X → M E S Err Y)
      → Swift a w r
      → ((x : X) (w' : World E S) → Swift b w' (f x w'))
      → Swift (a + b) w (continue r f)
  continue-Swift a b w (done x, w') f c k = ground (arith, k x w')
  continue-Swift a b w (fail e, w') f c k = ground arith
  continue-Swift a b w (elapsed, w') f c k = ground arith
  continue-Swift a b w (pending, w') f c k = ground arith
  continue-Swift a b w (panicked, w') f c k = ground arith

  pub convert-Swift :
      (k : ℕ) (w : World E S) (r : Outcome Err X × World E S) (f : Err → Y)
      → Swift k w r
      → Swift k w (convert f r)
  convert-Swift k w (done x, w') f c = ground arith
  convert-Swift k w (fail e, w') f c = ground arith
  convert-Swift k w (elapsed, w') f c = ground arith
  convert-Swift k w (pending, w') f c = ground arith
  convert-Swift k w (panicked, w') f c = ground arith

  pub reflect-Swift :
      (k : ℕ) (w : World E S) (r : Outcome Err X × World E S)
      → Swift k w r
      → Swift {Err = Y} k w (reflect r)
  reflect-Swift k w (done x, w') c = ground arith
  reflect-Swift k w (fail e, w') c = ground arith
  reflect-Swift k w (elapsed, w') c = ground arith
  reflect-Swift k w (pending, w') c = ground arith
  reflect-Swift k w (panicked, w') c = ground arith

module _ {E S Err X : Type 0} where
  abbrev pub IsTame : M E S Err X → Type 0
  IsTame m = (w : World E S) → Calm w (m w)

module _ {E S Err X : Type 0} where
  pub done-Calm : (x : X) (w : World E S) → Calm {Err = Err} w (done x, w)
  done-Calm x w = ground arith

  pub done-Swift : (x : X) (w : World E S) → Swift {Err = Err} 0 w (done x, w)
  done-Swift x w = ground arith

  pub if-Calm :
      (b : Bool) (m n : M E S Err X) (w : World E S)
      → Calm w (m w)
      → Calm w (n w)
      → Calm w ((if b then m else n) w)
  if-Calm true m n w p q = p
  if-Calm false m n w p q = q

  pub if-Swift :
      (k : ℕ) (b : Bool) (m n : M E S Err X) (w : World E S)
      → Swift k w (m w)
      → Swift k w (n w)
      → Swift k w ((if b then m else n) w)
  if-Swift k true m n w p q = p
  if-Swift k false m n w p q = q

  -- `self` has no part in being calm.
  pub self-Calm :
      (s : S) (w : World E S) (r : Outcome Err X × World E S)
      → Calm (record w { self = s }) r
      → Calm w r
  self-Calm s w r c = ground arith

  pub self-Swift :
      (k : ℕ) (s : S) (w : World E S) (r : Outcome Err X × World E S)
      → Swift k (record w { self = s }) r
      → Swift k w r
  self-Swift k s w r c = ground arith

  pub Swift-mono :
      {j k : ℕ} (w : World E S) (r : Outcome Err X × World E S) → j ≤ k → Swift j w r → Swift k w r
  Swift-mono w r h c = ground arith
