-- ===== src/Suite.antt =====
-- The tests of crates/hyperswarm-rs, in its source files and below tests: each test as a Boolean,
-- true when none of its calls panics or hangs and its assertions hold.
pub mod Protocol
pub mod Discovery
pub mod Holepunch
pub mod Dht
pub mod Transport
pub mod Handshakes
pub mod Streams
use hyperswarm.Base.{◌≡◌, refl, Bool, true, false, Option, none, some}
use hyperswarm.Net.{Result, ok, err, Outcome, done, fail, World}

-- `unwrap` and `expect`, with the rest of the test.
abbrev pub unwrap : {Err X : Type 0} → Result Err X → (X → Bool) → Bool
unwrap (ok x) rest = rest x
unwrap (err e) rest = false

abbrev pub unwrap_some : {X : Type 0} → Option X → (X → Bool) → Bool
unwrap_some (some x) rest = rest x
unwrap_some none rest = false

abbrev pub is_ok : {Err X : Type 0} → Result Err X → Bool
is_ok (ok x) = true
is_ok (err e) = false

abbrev pub is_err : {Err X : Type 0} → Result Err X → Bool
is_err (ok x) = false
is_err (err e) = true

abbrev pub is_some : {X : Type 0} → Option X → Bool
is_some (some x) = true
is_some none = false

abbrev pub is_none : {X : Type 0} → Option X → Bool
is_none (some x) = false
is_none none = true

-- An awaited call, with the rest of the test.
abbrev pub awaited :
    {E S Err X : Type 0} → Outcome Err X × World E S → (Result Err X → World E S → Bool) → Bool
awaited (done x, w) rest = rest (ok x) w
awaited (fail e, w) rest = rest (err e) w
awaited _ rest = false

-- A constructor that is no run on the socket.
abbrev pub created : {Err X : Type 0} → Outcome Err X → (Result Err X → Bool) → Bool
created (done x) rest = rest (ok x)
created (fail e) rest = rest (err e)
created _ rest = false

-- One call under a timer, with the rest of the test.
abbrev pub in_time :
    {E S Err X : Type 0}
    → Outcome Err (Option (Result Err X)) × World E S
    → (Result Err X → Bool)
    → Bool
in_time (done (some r), w) rest = rest r
in_time _ rest = false

module _ {E S Err X : Type 0} where
  pub awaited_of_done :
      (r : Outcome Err X × World E S) (x : X) (rest : Result Err X → World E S → Bool)
      → r.0 ≡ done x
      → awaited r rest ≡ rest (ok x) r.1
  awaited_of_done (o, w) x rest e = rw e refl

  pub in_time_of_done :
      (r : Outcome Err (Option (Result Err X)) × World E S) (x : Result Err X)
      → (rest : Result Err X → Bool) → r.0 ≡ done (some x)
      → in_time r rest ≡ rest x
  in_time_of_done (o, w) x rest e = rw e refl
