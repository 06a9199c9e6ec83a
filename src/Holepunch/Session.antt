-- ===== src/Holepunch/Session.antt =====
-- crates/hyperswarm-rs/src/holepunch.rs: `HolepunchSession` and its phases. Times are in
-- milliseconds.
pub mod Punch
pub mod Sound
pub mod Flood
pub mod Respond
pub mod Initiate
pub mod Listen
pub mod Choice
pub mod Hears
pub mod Sends
pub mod Pair
use hyperswarm.Base.{
  ℕ, zero, suc, ◌+◌, Bool, true, false, Option, none, some, List, [], ◌∷◌, length, leb, ◌==◌,
  if◌then◌else◌, is_empty,
}
use hyperswarm.Net.{
  SocketAddr, same_addr, Result, ok, err, World, M, fail, pending, ◌>>=◌, ◌>>◌, pure, throw, lift,
  expect, map_err, attempt, get_self, recv_from, send_to, timeout,
}
use hyperswarm.Net.Select.{select_recv}
use hyperswarm.Holepunch.Packet.{
  Blake2s, HolepunchSession, probe_message, message_size, punch_mac_size, has_punch_message,
  build_punch_packet, verify_punch_packet,
}

pub data CandidateKind : Type 0 where
  lan wan relay : CandidateKind

pub record Candidate : Type 0 where
  pub addr : SocketAddr
  pub kind : CandidateKind

pub data HolepunchError (E : Type 0) : Type 0 where
  io : E → HolepunchError E
  timed_out no_viable_candidates authentication_failed : HolepunchError E

abbrev pub punch_timeout : ℕ
punch_timeout = 10_000

abbrev pub punch_retry_interval : ℕ
punch_retry_interval = 200

-- How long `punch_to` tries.
abbrev pub punch_duration : ℕ
punch_duration = 2000

-- The buffers of `punch_to` and `recv_and_respond`.
abbrev pub punch_buffer_size : ℕ
punch_buffer_size = message_size + punch_mac_size + 16

-- `HolepunchSession::new`, with the binding of the socket given.
unfoldable pub new_session :
    {E : Type 0}
    → (SocketAddr → Result E (Unit {0}))
    → SocketAddr
    → List ℕ
    → Result (HolepunchError E) HolepunchSession
new_session bind bind_addr session_key = elim (bind bind_addr) [
  | err e ↦ err (io e)
  | ok _ ↦ ok (record { session_key = session_key })
]

module _ {E : Type 0} where
  -- The count of successes and the last error of `probe`, after one send.
  abbrev pub tally : ℕ × Option E → Result E (Unit {0}) → ℕ × Option E
  tally (count, last) (ok _) = (suc count, last)
  tally (count, last) (err e) = (count, some e)

  unfoldable pub probe_each :
      List Candidate → ℕ × Option E → M E HolepunchSession (HolepunchError E) (ℕ × Option E)
  probe_each [] totals = pure totals
  probe_each (c ∷ cs) totals = do
    r ← attempt (send_to probe_message c.addr)
    probe_each cs (tally totals r)

  abbrev pub judge : ℕ × Option E → Result (HolepunchError E) (Unit {0})
  judge (zero, some e) = err (io e)
  judge (zero, none) = err no_viable_candidates
  judge (suc _, _) = ok tt

  unfoldable pub probe : List Candidate → M E HolepunchSession (HolepunchError E) (Unit {0})
  probe candidates = do totals ← probe_each candidates (0, none); lift (judge totals)

  -- Rounds that are enough: each takes a datagram or a fifth of a second.
  abbrev pub punch_rounds : World E HolepunchSession → ℕ
  punch_rounds w = length w.inbox + 12

  abbrev pub first_ok :
      Result (HolepunchError E) SocketAddr
      → M E HolepunchSession (HolepunchError E) SocketAddr
      → M E HolepunchSession (HolepunchError E) SocketAddr
  first_ok (ok addr) next = pure addr
  first_ok (err _) next = next

  -- "Respond with our own authenticated punch message."
  abbrev pub answer : List ℕ → SocketAddr → M E HolepunchSession (HolepunchError E) SocketAddr
  answer packet from = do map_err io (send_to packet from); pure from

  abbrev pub settle_response :
      Option (Result (HolepunchError E) SocketAddr) → Result (HolepunchError E) SocketAddr
  settle_response (some r) = r
  settle_response none = err timed_out

module _ {E : Type 0} (mac : Blake2s) where
  -- What `punch_to` does with a datagram from its peer; `next` is the rest of the loop.
  unfoldable pub check_packet :
      SocketAddr
      → M E HolepunchSession (HolepunchError E) SocketAddr
      → List ℕ
      → M E HolepunchSession (HolepunchError E) SocketAddr
  check_packet addr next bytes = do
    session ← get_self
    valid ← expect (verify_punch_packet mac session bytes)
    if valid
        then pure addr
        else if has_punch_message bytes
        then throw authentication_failed
        else next

  -- The branches of the `select!`: a receive, an error, or the retry timer.
  unfoldable pub on_select :
      List ℕ
      → SocketAddr
      → M E HolepunchSession (HolepunchError E) SocketAddr
      → Option (Result E (SocketAddr × List ℕ))
      → M E HolepunchSession (HolepunchError E) SocketAddr
  on_select packet addr next (some (ok (from, bytes))) =
      if same_addr from addr then check_packet addr next bytes else next
  on_select packet addr next (some (err e)) = throw (io e)
  on_select packet addr next none = do map_err io (send_to packet addr); next

  unfoldable pub punch_round :
      List ℕ
      → SocketAddr
      → M E HolepunchSession (HolepunchError E) SocketAddr
      → M E HolepunchSession (HolepunchError E) SocketAddr
  punch_round packet addr next = do
    r ← select_recv punch_retry_interval punch_buffer_size
    on_select packet addr next r

  -- The loop of `punch_to`, by the rounds left.
  unfoldable pub punch_loop :
      ℕ → List ℕ → ℕ → SocketAddr → M E HolepunchSession (HolepunchError E) SocketAddr
  punch_loop zero packet deadline addr w = (pending, w)
  punch_loop (suc rounds) packet deadline addr w =
      if leb deadline w.now
      then (fail timed_out, w)
      else punch_round packet addr (punch_loop rounds packet deadline addr) w

  unfoldable pub punch_within :
      ℕ → ℕ → SocketAddr → M E HolepunchSession (HolepunchError E) SocketAddr
  punch_within rounds deadline addr = do
    session ← get_self
    packet ← expect (build_punch_packet mac session)
    map_err io (send_to packet addr)
    punch_loop rounds packet deadline addr

  unfoldable pub punch_to : SocketAddr → M E HolepunchSession (HolepunchError E) SocketAddr
  punch_to addr w = punch_within (punch_rounds w) (w.now + punch_duration) addr w

  unfoldable pub try_each : List Candidate → M E HolepunchSession (HolepunchError E) SocketAddr
  try_each [] = throw timed_out
  try_each (c ∷ cs) = do
    r ← attempt {Err' = HolepunchError E} (punch_to c.addr)
    first_ok r (try_each cs)

  unfoldable pub initiate : List Candidate → M E HolepunchSession (HolepunchError E) SocketAddr
  initiate candidates =
      if is_empty candidates
      then throw no_viable_candidates
      else probe candidates >> try_each candidates

  unfoldable pub respond_round :
      List ℕ
      → M E HolepunchSession (HolepunchError E) SocketAddr
      → M E HolepunchSession (HolepunchError E) SocketAddr
  respond_round packet next = do
    (from, bytes) ← map_err io (recv_from punch_buffer_size)
    session ← get_self
    valid ← expect (verify_punch_packet mac session bytes)
    if valid then answer packet from else next

  -- The loop of `recv_and_respond`, by the rounds left.
  unfoldable pub respond_loop : ℕ → List ℕ → M E HolepunchSession (HolepunchError E) SocketAddr
  respond_loop zero packet w = (pending, w)
  respond_loop (suc rounds) packet w = respond_round packet (respond_loop rounds packet) w

  unfoldable pub respond_within : ℕ → M E HolepunchSession (HolepunchError E) SocketAddr
  respond_within rounds = do
    session ← get_self
    packet ← expect (build_punch_packet mac session)
    respond_loop rounds packet

  -- Rounds that are enough: each takes a datagram, or waits.
  unfoldable pub recv_and_respond : M E HolepunchSession (HolepunchError E) SocketAddr
  recv_and_respond w = respond_within (suc (length w.inbox)) w

  unfoldable pub listen : List Candidate → M E HolepunchSession (HolepunchError E) SocketAddr
  listen candidates = do
    probe candidates
    r ← timeout punch_timeout recv_and_respond
    lift (settle_response r)

  unfoldable pub respond : List Candidate → M E HolepunchSession (HolepunchError E) SocketAddr
  respond candidates = if is_empty candidates then throw no_viable_candidates else listen candidates
