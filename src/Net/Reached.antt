-- ===== src/Net/Reached.antt =====
-- What is known after a call that cannot fail.
use hyperswarm.Base.{ℕ, ◌+◌, ◌≤◌, ◌≡◌, refl, ◌∙◌, Option, none, some, arith}
use hyperswarm.Net.{
  World, M, Outcome, done, fail, elapsed, pending, panicked, Result, ok, err, continue, reflect,
  close,
}
use hyperswarm.Net.Calm.{Calm, Swift}
use hyperswarm.Net.Success.{IsDone, IsSuccess}

module _ {E S Err X Y : Type 0} where
  -- A call that is done, whose result the code looks at.
  pub reached :
      (P : Outcome Y X × World E S → Type 0) {Z : Type 0} (r : Outcome Err Z × World E S)
      → (f : Result Err Z → M E S Y X) → IsDone r.0
      → ((z : Z) (u : World E S) → r ≡ (done z, u) → P (f (ok z) u))
      → P (continue (reflect r) f)
  reached P (done z, u) f d k = k z u refl
  reached P (fail e, u) f d k = absurd d
  reached P (elapsed, u) f d k = absurd d
  reached P (pending, u) f d k = absurd d
  reached P (panicked, u) f d k = absurd d

module _ {Err X : Type 0} where
  -- The timer fired, or the call was done.
  abbrev pub IsFound : Option (Result Err X) → Type 0
  IsFound none = Unit
  IsFound (some (ok x)) = Unit
  IsFound (some (err e)) = ⊥

module _ {Err Err' X : Type 0} where
  abbrev pub NoError : Outcome Err' (Option (Result Err X)) → Type 0
  NoError (done found) = IsFound found
  NoError (fail e) = ⊥
  NoError _ = Unit

module _ {E S Err X : Type 0} (Err' : Type 0) where
  pub close-NoError :
      (outer : Option ℕ) (deadline : ℕ) (r : Outcome Err X × World E S)
      → IsSuccess r.0
      → NoError {Err' = Err'} (close outer deadline r).0
  close-NoError outer deadline (done x, u) h = tt
  close-NoError outer deadline (fail e, u) h = absurd h
  close-NoError outer deadline (elapsed, u) h = ground arith
  close-NoError outer deadline (pending, u) h = tt
  close-NoError outer deadline (panicked, u) h = tt

module _ {E S Err Err' X : Type 0} where
  -- A timer around a call that cannot fail, with no timer around it.
  pub found :
      (k : ℕ) (Y : Type 0) (P : Outcome Err' Y × World E S → Type 0) (w : World E S)
      → (r : Outcome Err' (Option (Result Err X)) × World E S)
      → (f : Option (Result Err X) → M E S Err' Y) → w.limit ≡ none
      → Calm w r
      → Swift k w r
      → NoError r.0
      → ((x : Option (Result Err X)) (u : World E S)
          → IsFound x
          → u.limit ≡ none
          → u.now ≤ w.now + k
          → P (f x u))
      → P (continue r f)
  found k Y P w (done x, u) f l c s n g = g x u n (c.kept ∙ l) s.soon
  found k Y P w (fail e, u) f l c s n g = absurd n
  found k Y P w (elapsed, u) f l c s n g = ground arith
  found k Y P w (pending, u) f l c s n g = ground arith
  found k Y P w (panicked, u) f l c s n g = ground arith
