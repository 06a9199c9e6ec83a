-- ===== src/Suite/Handshakes/Waits.antt =====
-- The waits of the tests of handshakes.
use hyperswarm.Base.{ℕ, ◌+◌, ◌≤◌, ◌≡◌, refl, Bool, true, Option, none, some, arith}
use hyperswarm.Net.{
  Result, ok, err, World, Outcome, done, fail, elapsed, pending, panicked, close, earliest,
}
use hyperswarm.Net.Receive.{Reaches}
use hyperswarm.Suite.{in_time}
use hyperswarm.Suite.Handshakes.{five_seconds, joined, is_over}

pub joined-done :
    {E S Err X Y : Type 0} (l1 l2 : Option ℕ) (d1 d2 : ℕ) (r1 : Outcome Err X × World E S)
    → (r2 : Outcome Err Y × World E S) (x : X) (y : Y)
    → (rest : Result Err X → S → Result Err Y → S → Bool) → r1.0 ≡ done x
    → r2.0 ≡ done y
    → joined {Err = Err} (close l1 d1 r1) (close l2 d2 r2) rest
      ≡ rest (ok x) r1.1.self (ok y) r2.1.self
joined-done l1 l2 d1 d2 (o1, v1) (o2, v2) x y rest e1 e2 = rw (e1, e2) refl

pub in_time-fail :
    {E S Err X : Type 0} (l : Option ℕ) (d : ℕ) (r : Outcome Err X × World E S) (e : Err)
    → (rest : Result Err X → Bool) → r.0 ≡ fail e
    → in_time {Err = Err} (close l d r) rest ≡ rest (err e)
in_time-fail l d (o, v) e rest same = rw same refl

pub is_over-done :
    {E S Err X : Type 0} (l : Option ℕ) (d : ℕ) (r : Outcome Err X × World E S) (x : X)
    → r.0 ≡ done x
    → is_over {Err = Err} (close l d r) ≡ true
is_over-done l d (o, v) x e = rw e refl

-- A later timer lets all through that an earlier one does.
pub Reaches-longer :
    (limit : Option ℕ) (d d' time : ℕ)
    → d ≤ d'
    → Reaches (some (earliest limit d)) time
    → Reaches (some (earliest limit d')) time
Reaches-longer none d d' time h r = omega (arith, h, r)
Reaches-longer (some l) d d' time h r = ground arith

pub close-now :
    {E S Err X : Type 0} (l : Option ℕ) (d : ℕ) (r : Outcome Err X × World E S)
    → (close {Err' = Err} l d r).1.now ≡ r.1.now
close-now l d (done x, v) = refl
close-now l d (fail e, v) = refl
close-now l d (elapsed, v) = refl
close-now l d (pending, v) = refl
close-now l d (panicked, v) = refl

-- A world inside the test's timer.
abbrev pub under : {E S : Type 0} → World E S → World E S
under w = record w { limit = some (earliest w.limit (w.now + five_seconds)) }
