-- ===== src/Net/Success.antt =====
-- Runs that do not fail, and runs that are done.
use hyperswarm.Base.{ℕ, ◌+◌, ◌≡◌, Bool, true, false, if◌then◌else◌, Option, none, arith}
use hyperswarm.Net.{
  Outcome, done, fail, elapsed, pending, panicked, World, M, continue, reflect, close, timeout,
}
use hyperswarm.Net.Calm.{Calm, Swift}

module _ {Err X : Type 0} where
  abbrev pub IsDone : Outcome Err X → Type 0
  IsDone (done x) = Unit
  IsDone _ = ⊥

  abbrev pub IsSuccess : Outcome Err X → Type 0
  IsSuccess (fail e) = ⊥
  IsSuccess _ = Unit

module _ {E S Err X : Type 0} where
  pub if-IsSuccess :
      (b : Bool) (m n : M E S Err X) (w : World E S)
      → IsSuccess (m w).0
      → IsSuccess (n w).0
      → IsSuccess ((if b then m else n) w).0
  if-IsSuccess true m n w p q = p
  if-IsSuccess false m n w p q = q

  -- With no timer around it, a calm and swift run that does not fail is done.
  pub IsDone-of_success :
      (k : ℕ) (w : World E S) (r : Outcome Err X × World E S)
      → w.limit ≡ none
      → Calm w r
      → Swift k w r
      → IsSuccess r.0
      → IsDone r.0
  IsDone-of_success k w (done x, w') h c s n = tt
  IsDone-of_success k w (fail e, w') h c s n = n
  IsDone-of_success k w (elapsed, w') h c s n = ground arith
  IsDone-of_success k w (pending, w') h c s n = ground arith
  IsDone-of_success k w (panicked, w') h c s n = ground arith

module _ {E S Err X Y : Type 0} where
  pub continue-IsSuccess :
      (r : Outcome Err X × World E S) (f : X → M E S Err Y)
      → IsSuccess r.0
      → ((x : X) (w' : World E S) → IsSuccess (f x w').0)
      → IsSuccess (continue r f).0
  continue-IsSuccess (done x, w') f c k = k x w'
  continue-IsSuccess (fail e, w') f c k = c
  continue-IsSuccess (elapsed, w') f c k = tt
  continue-IsSuccess (pending, w') f c k = tt
  continue-IsSuccess (panicked, w') f c k = tt

-- A result that the code matches on is no failure of the code.
module _ {E S Err X : Type 0} (Err' : Type 0) where
  pub reflect-IsSuccess : (r : Outcome Err X × World E S) → IsSuccess {Err = Err'} (reflect r).0
  reflect-IsSuccess (done x, w') = tt
  reflect-IsSuccess (fail e, w') = tt
  reflect-IsSuccess (elapsed, w') = tt
  reflect-IsSuccess (pending, w') = tt
  reflect-IsSuccess (panicked, w') = tt

  pub close-IsSuccess :
      (outer : Option ℕ) (deadline : ℕ) (r : Outcome Err X × World E S)
      → IsSuccess {Err = Err'} (close outer deadline r).0
  close-IsSuccess outer deadline (done x, w') = tt
  close-IsSuccess outer deadline (fail e, w') = tt
  close-IsSuccess outer deadline (elapsed, w') = ground arith
  close-IsSuccess outer deadline (pending, w') = tt
  close-IsSuccess outer deadline (panicked, w') = tt

  pub timeout-IsSuccess :
      (k : ℕ) (m : M E S Err X) (w : World E S) → IsSuccess {Err = Err'} (timeout k m w).0
  unfolding timeout
  timeout-IsSuccess k m w = close-IsSuccess w.limit (w.now + k) _
