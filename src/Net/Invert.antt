-- ===== src/Net/Invert.antt =====
-- What a run that was done has passed through.
use hyperswarm.Base.{◌≡◌, refl, arith}
use hyperswarm.Net.{Outcome, done, fail, elapsed, pending, panicked, World, M, continue}

module _ {E S Err X Y : Type 0} where
  pub continue-eq-done :
      (r : Outcome Err X × World E S) (f : X → M E S Err Y) (y : Y) (w' : World E S)
      → continue r f ≡ (done y, w')
      → (x : X) × (v : World E S) × (r ≡ (done x, v)) × (f x v ≡ (done y, w'))
  continue-eq-done (done x, v) f y w' e = (x, v, refl, e)
  continue-eq-done (fail e, v) f y w' h = ground arith
  continue-eq-done (elapsed, v) f y w' h = ground arith
  continue-eq-done (pending, v) f y w' h = ground arith
  continue-eq-done (panicked, v) f y w' h = ground arith
