-- ===== src/Net.antt =====
-- The socket, the clock and the resolver that the crate's async functions run against
-- (`tokio::net::UdpSocket`, `tokio::time`, `tokio::net::lookup_host`), and the monad of async
-- functions over them. Time is in milliseconds and passes only while a function waits.
pub mod Calm
pub mod Io
pub mod Success
pub mod Moves
pub mod Receive
pub mod Ends
pub mod Invert
pub mod Zoom
pub mod Drains
pub mod Select
pub mod Reached
use hyperswarm.Base.{
  ℕ, ◌+◌, max, ◌≡◌, ◌↔◌, Bool, true, false, ◌||◌, Option, none, some, List, [], ◌∷◌, String, arith,
  ℕ_discrete, leb, if◌then◌else◌, take,
}
use mathlib.Core.Logic.{ite}

-- `std::net::IpAddr`: four bytes, or sixteen.
pub data IpAddr : Type 0 where
  v4 : ℕ → ℕ → ℕ → ℕ → IpAddr
  v6 : List ℕ → IpAddr

pub record SocketAddr : Type 0 where
  pub ip : IpAddr
  pub port : ℕ

unfoldable pub SocketAddr-discrete : Discrete SocketAddr
SocketAddr-discrete = hlevel ℕ_discrete

unfoldable pub same_addr : SocketAddr → SocketAddr → Bool
unfolding SocketAddr-discrete
same_addr a b = ite (SocketAddr-discrete a b) true false

pub same_addr_iff : (a b : SocketAddr) → (same_addr a b ≡ true) ↔ (a ≡ b)
unfolding same_addr
same_addr_iff a b = ground arith

pub data Result (Err X : Type 0) : Type 0 where
  ok : X → Result Err X
  err : Err → Result Err X

-- How a run of an async function ends. `elapsed`: the nearest enclosing timer fired, and the
-- function is dropped. `pending`: it waits for ever. `panicked`: an `expect` or a slice failed.
pub data Outcome (Err X : Type 0) : Type 0 where
  done : X → Outcome Err X
  fail : Err → Outcome Err X
  elapsed pending panicked : Outcome Err X

-- What a `recv_from` can meet.
pub data Event (E : Type 0) : Type 0 where
  datagram : SocketAddr → List ℕ → Event E
  recv_error : E → Event E

-- The answer of the resolver, with the time that it takes.
pub data Lookup (E : Type 0) : Type 0 where
  answered : ℕ → List SocketAddr → Lookup E
  refused : ℕ → E → Lookup E
  silent : Lookup E

-- `E` is `std::io::Error`; `self` is the object whose methods run.
pub record World (E S : Type 0) : Type 0 where
  pub now : ℕ
  -- The earliest deadline of the timers around the code that runs.
  pub limit : Option ℕ
  -- What the socket will see, with times of arrival.
  pub inbox : List (ℕ × Event E)
  -- The fates of the sends to come, `some e` a failure. Beyond the list, sends succeed.
  pub sends : List (Option E)
  -- The datagrams that went out, newest first.
  pub sent : List (SocketAddr × List ℕ)
  -- The resolver, by the time of the question and the name.
  pub dns : ℕ → String → Lookup E
  -- Whether a `select!` takes its first branch, by the time, when both become ready together.
  pub ties : ℕ → Bool
  pub self : S

abbrev pub M : (E S Err X : Type 0) → Type 0
M E S Err X = World E S → Outcome Err X × World E S

-- `time` is no later than the limit.
abbrev pub within : Option ℕ → ℕ → Bool
within none time = true
within (some limit) time = leb time limit

abbrev pub earliest : Option ℕ → ℕ → ℕ
earliest none deadline = deadline
earliest (some limit) deadline = if leb deadline limit then deadline else limit

module _ {E S : Type 0} where
  abbrev pub continue :
      {Err X Y : Type 0} → Outcome Err X × World E S → (X → M E S Err Y) → Outcome Err Y × World E S
  continue (done x, w) f = f x w
  continue (fail e, w) f = (fail e, w)
  continue (elapsed, w) f = (elapsed, w)
  continue (pending, w) f = (pending, w)
  continue (panicked, w) f = (panicked, w)

  infixl 5 ◌>>=◌ ◌>>◌
  -- `m.await?` and the rest of the function.
  abbrev pub ◌>>=◌ : {Err X Y : Type 0} → M E S Err X → (X → M E S Err Y) → M E S Err Y
  ◌>>=◌ m f w = continue (m w) f

  abbrev pub ◌>>◌ : {Err X Y : Type 0} → M E S Err X → M E S Err Y → M E S Err Y
  m >> k = m >>= λ _. k

  abbrev pub pure : {Err X : Type 0} → X → M E S Err X
  pure x w = (done x, w)

  abbrev pub throw : {Err X : Type 0} → Err → M E S Err X
  throw e w = (fail e, w)

  -- A result that a synchronous call gave.
  abbrev pub lift : {Err X : Type 0} → Result Err X → M E S Err X
  lift (ok x) = pure x
  lift (err e) = throw e

  -- `expect`, and a slice that may be out of range.
  abbrev pub expect : {Err X : Type 0} → Option X → M E S Err X
  expect none w = (panicked, w)
  expect (some x) w = (done x, w)

  -- `map_err`, and the `#[from]` conversions of `?`.
  abbrev pub convert :
      {Err Err' X : Type 0} → (Err → Err') → Outcome Err X × World E S → Outcome Err' X × World E S
  convert f (done x, w) = (done x, w)
  convert f (fail e, w) = (fail (f e), w)
  convert f (elapsed, w) = (elapsed, w)
  convert f (pending, w) = (pending, w)
  convert f (panicked, w) = (panicked, w)

  abbrev pub map_err : {Err Err' X : Type 0} → (Err → Err') → M E S Err X → M E S Err' X
  map_err f m w = convert f (m w)

  -- `m.await` whose result the code matches on.
  abbrev pub reflect :
      {Err Err' X : Type 0} → Outcome Err X × World E S → Outcome Err' (Result Err X) × World E S
  reflect (done x, w) = (done (ok x), w)
  reflect (fail e, w) = (done (err e), w)
  reflect (elapsed, w) = (elapsed, w)
  reflect (pending, w) = (pending, w)
  reflect (panicked, w) = (panicked, w)

  abbrev pub attempt : {Err Err' X : Type 0} → M E S Err X → M E S Err' (Result Err X)
  attempt m w = reflect (m w)

  abbrev pub get_self : {Err : Type 0} → M E S Err S
  get_self w = (done w.self, w)

  abbrev pub put_self : {Err : Type 0} → S → M E S Err (Unit {0})
  put_self s w = (done tt, record w { self = s })

  -- `Instant::now()`.
  abbrev pub instant_now : {Err : Type 0} → M E S Err ℕ
  instant_now w = (done w.now, w)

  -- Nothing arrives any more before the nearest timer fires, if there is one.
  abbrev pub expire : {Err X : Type 0} → Option ℕ → M E S Err X
  expire none w = (pending, w)
  expire (some limit) w = (elapsed, record w { now = max w.now limit })

  -- A buffer of `size` bytes keeps the first bytes of a longer datagram.
  abbrev pub deliver : ℕ → Event E → M E S E (SocketAddr × List ℕ)
  deliver size (datagram from bytes) w = (done (from, take size bytes), w)
  deliver size (recv_error e) w = (fail e, w)

  unfoldable pub take_event : ℕ → List (ℕ × Event E) → M E S E (SocketAddr × List ℕ)
  take_event size [] w = expire w.limit w
  take_event size ((time, event) ∷ rest) w =
      if leb time w.now || within w.limit time
      then deliver size event (record w { now = max w.now time; inbox = rest })
      else expire w.limit w

  -- `socket.recv_from(&mut buf)`, with `buf` of the given size.
  unfoldable pub recv_from : ℕ → M E S E (SocketAddr × List ℕ)
  unfolding take_event
  recv_from size w = take_event size w.inbox w

  abbrev pub send_as : List (Option E) → List ℕ → SocketAddr → M E S E (Unit {0})
  send_as [] bytes to w = (done tt, record w { sent = (to, bytes) ∷ w.sent })
  send_as (none ∷ fates) bytes to w =
      (done tt, record w { sends = fates; sent = (to, bytes) ∷ w.sent })
  send_as (some e ∷ fates) bytes to w = (fail e, record w { sends = fates })

  -- `socket.send_to(bytes, to)`.
  unfoldable pub send_to : List ℕ → SocketAddr → M E S E (Unit {0})
  send_to bytes to w = send_as w.sends bytes to w

  abbrev pub wait_until : {Err X : Type 0} → ℕ → M E S Err X → M E S Err X
  wait_until time m w =
      if leb time w.now || within w.limit time
      then m (record w { now = max w.now time })
      else expire w.limit w

  abbrev pub resolve : Lookup E → M E S E (List SocketAddr)
  resolve (answered delay addrs) w = wait_until (w.now + delay) (pure addrs) w
  resolve (refused delay e) w = wait_until (w.now + delay) (throw e) w
  resolve silent w = expire w.limit w

  -- `tokio::net::lookup_host(name)`.
  unfoldable pub lookup_host : String → M E S E (List SocketAddr)
  lookup_host name w = resolve (w.dns w.now name) w

  -- The end of a timer with its deadline inside `outer`. Of two timers that fire together the
  -- inner one is seen first.
  abbrev pub close :
      {Err Err' X : Type 0}
      → Option ℕ
      → ℕ
      → Outcome Err X × World E S
      → Outcome Err' (Option (Result Err X)) × World E S
  close outer deadline (done x, w) = (done (some (ok x)), record w { limit = outer })
  close outer deadline (fail e, w) = (done (some (err e)), record w { limit = outer })
  close outer deadline (elapsed, w) =
      (if within outer deadline then done none else elapsed, record w { limit = outer })
  close outer deadline (pending, w) = (pending, record w { limit = outer })
  close outer deadline (panicked, w) = (panicked, record w { limit = outer })

  -- `tokio::time::timeout(duration, m).await`, `none` for `Elapsed`.
  unfoldable pub timeout :
      {Err Err' X : Type 0} → ℕ → M E S Err X → M E S Err' (Option (Result Err X))
  timeout duration m w =
      close w.limit (w.now + duration)
        (m (record w { limit = some (earliest w.limit (w.now + duration)) }))

  abbrev pub settle : {Err X : Type 0} → Err → Option (Result Err X) → M E S Err X
  settle late none = throw late
  settle late (some r) = lift r

  -- `timeout(duration, m).await.map_err(|_| late)??`.
  unfoldable pub timeout_or : {Err X : Type 0} → ℕ → Err → M E S Err X → M E S Err X
  unfolding timeout
  timeout_or duration late m = timeout duration m >>= settle late
