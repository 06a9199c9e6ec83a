-- ===== src/Net/Io.antt =====
-- The socket, the resolver and the timers are calm, and a timer bounds what it stands around.
use hyperswarm.Base.{ℕ, ◌+◌, ◌≤◌, Option, none, some, List, [], ◌∷◌, String, arith, length}
use native.Mathlib.Nat.{add-zero}
use hyperswarm.Net.{
  Result, ok, err, World, M, Event, datagram, recv_error, Lookup, answered, refused, silent,
  SocketAddr, lift, take_event, recv_from, send_as, send_to, resolve, lookup_host, timeout, settle,
  timeout_or,
}
use hyperswarm.Net.Calm.{
  Calm, Swift, IsTame, continue-Calm, continue-Swift, close-Calm, close-Swift,
}

module _ {E S : Type 0} where
  take_event-Calm :
      (size : ℕ) (inbox : List (ℕ × Event E)) (w : World E S)
      → length inbox ≤ length w.inbox
      → Calm w (take_event size inbox w)
  unfolding take_event
  take_event-Calm size [] w h = ground arith
  take_event-Calm size ((t, datagram a bytes) ∷ rest) w h = ground arith
  take_event-Calm size ((t, recv_error e) ∷ rest) w h = ground arith

  pub recv_from-Calm : (size : ℕ) (w : World E S) → Calm w (recv_from size w)
  unfolding recv_from
  recv_from-Calm size w = take_event-Calm size w.inbox w (omega arith)

  send_as-Calm :
      (fates : List (Option E)) (bytes : List ℕ) (to : SocketAddr) (w : World E S)
      → Calm w (send_as fates bytes to w)
  send_as-Calm [] bytes to w = ground arith
  send_as-Calm (none ∷ fates) bytes to w = ground arith
  send_as-Calm (some e ∷ fates) bytes to w = ground arith

  send_as-Swift :
      (fates : List (Option E)) (bytes : List ℕ) (to : SocketAddr) (w : World E S)
      → Swift 0 w (send_as fates bytes to w)
  send_as-Swift [] bytes to w = ground arith
  send_as-Swift (none ∷ fates) bytes to w = ground arith
  send_as-Swift (some e ∷ fates) bytes to w = ground arith

  pub send_to-Calm :
      (bytes : List ℕ) (to : SocketAddr) (w : World E S) → Calm w (send_to bytes to w)
  unfolding send_to
  send_to-Calm bytes to w = send_as-Calm w.sends bytes to w

  pub send_to-Swift :
      (bytes : List ℕ) (to : SocketAddr) (w : World E S) → Swift 0 w (send_to bytes to w)
  unfolding send_to
  send_to-Swift bytes to w = send_as-Swift w.sends bytes to w

  resolve-Calm : (a : Lookup E) (w : World E S) → Calm w (resolve a w)
  resolve-Calm (answered delay addrs) w = ground arith
  resolve-Calm (refused delay e) w = ground arith
  resolve-Calm silent w = ground arith

  pub lookup_host-Calm : (name : String) (w : World E S) → Calm w (lookup_host name w)
  unfolding lookup_host
  lookup_host-Calm name w = resolve-Calm (w.dns w.now name) w

module _ {E S Err X : Type 0} where
  pub lift-Calm : (r : Result Err X) (w : World E S) → Calm w (lift r w)
  lift-Calm (ok x) w = ground arith
  lift-Calm (err e) w = ground arith

  pub lift-Swift : (r : Result Err X) (w : World E S) → Swift 0 w (lift r w)
  lift-Swift (ok x) w = ground arith
  lift-Swift (err e) w = ground arith

  settle-Calm : (late : Err) (o : Option (Result Err X)) (w : World E S) → Calm w (settle late o w)
  settle-Calm late none w = ground arith
  settle-Calm late (some r) w = lift-Calm r w

  settle-Swift :
      (late : Err) (o : Option (Result Err X)) (w : World E S) → Swift 0 w (settle late o w)
  settle-Swift late none w = ground arith
  settle-Swift late (some (ok x)) w = ground arith
  settle-Swift late (some (err e)) w = ground arith

module _ {E S Err Err' X : Type 0} where
  pub timeout-Calm :
      (k : ℕ) (m : M E S Err X) → IsTame m → (w : World E S) → Calm {Err = Err'} w (timeout k m w)
  unfolding timeout
  timeout-Calm k m h w = close-Calm w (w.now + k) _ (omega arith) (h _)

  -- A timer ends what it stands around, whatever arrives.
  pub timeout-Swift :
      (k : ℕ) (m : M E S Err X)
      → IsTame m
      → (w : World E S) → Swift {Err = Err'} k w (timeout k m w)
  unfolding timeout
  timeout-Swift k m h w = close-Swift w k _ (h _)

module _ {E S Err X : Type 0} (k : ℕ) (late : Err) (m : M E S Err X) (h : IsTame m) where
  pub timeout_or-Calm : IsTame (timeout_or k late m)
  unfolding timeout_or
  timeout_or-Calm w = continue-Calm w _ _ (timeout-Calm k m h w) (settle-Calm late)

  pub timeout_or-Swift : (w : World E S) → Swift k w (timeout_or k late m w)
  unfolding timeout_or
  timeout_or-Swift w =
      rw add-zero at (continue-Swift k 0 w _ _ (timeout-Swift k m h w) (settle-Swift late))
