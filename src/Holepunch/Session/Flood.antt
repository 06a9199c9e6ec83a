-- ===== src/Holepunch/Session/Flood.antt =====
-- The retry timer of `punch_to` starts anew with every datagram, so a flood of datagrams from
-- anywhere keeps it from firing.
use hyperswarm.Base.{
  ℕ, zero, suc, ◌+◌, ◌≤◌, ◌<◌, max, ◌≡◌, refl, ◌≢◌, none, some, List, [], ◌∷◌, arith, length, leb,
  Bool-cases, inl, inr,
}
use hyperswarm.Net.{
  World, M, fail, Event, datagram, recv_error, SocketAddr, same_addr, same_addr_iff, send_to,
}
use hyperswarm.Net.Select.{select_recv-takes}
use hyperswarm.Holepunch.Packet.{Blake2s, HolepunchSession, build_punch_packet}
use hyperswarm.Holepunch.Session.{
  HolepunchError, timed_out, punch_buffer_size, punch_retry_interval, punch_duration, on_select,
  punch_round, punch_loop, punch_rounds, punch_within, punch_to,
}

-- Datagrams from other addresses, from `now` on, each less than the retry interval after the one
-- before, until the deadline at least.
abbrev pub IsFlood : {E : Type 0} → SocketAddr → ℕ → ℕ → List (ℕ × Event E) → Type 0
IsFlood addr deadline now [] = deadline ≤ now
IsFlood addr deadline now ((time, datagram from bytes) ∷ rest) =
    (now ≤ time)
    × (time < now + punch_retry_interval)
    × (from ≢ addr)
    × IsFlood addr deadline time rest
IsFlood addr deadline now ((time, recv_error e) ∷ rest) = ⊥

module _ {E : Type 0} (mac : Blake2s) (packet : List ℕ) (deadline : ℕ) (addr : SocketAddr) where
  punch_round-skip :
      (next : M E HolepunchSession (HolepunchError E) SocketAddr)
      → (w : World E HolepunchSession) (time : ℕ) (from : SocketAddr) (bytes : List ℕ)
      → (rest : List (ℕ × Event E)) → w.limit ≡ none
      → w.inbox ≡ (time, datagram from bytes) ∷ rest
      → w.now ≤ time
      → time < w.now + punch_retry_interval
      → from ≢ addr
      → punch_round mac packet addr next w ≡ next (record w { now = time; inbox = rest })
  unfolding punch_round on_select
  punch_round-skip next w time from bytes rest l i after soon other =
      let latest : max w.now time ≡ time = omega arith in
      rw
        (
          select_recv-takes (HolepunchError E) punch_retry_interval punch_buffer_size w time rest l
              from bytes i (ground arith),
          latest,
        )
        (elim (Bool-cases (same_addr from addr)) [
          | inl s ↦ absurd (other ((same_addr_iff from addr).0 s))
          | inr s ↦ rw s
        ])

  punch_loop-flood :
      (rounds : ℕ) (inbox : List (ℕ × Event E)) (w : World E HolepunchSession)
      → w.limit ≡ none
      → w.inbox ≡ inbox
      → length inbox < rounds
      → IsFlood addr deadline w.now inbox
      → ((punch_loop mac rounds packet deadline addr w).0 ≡ fail timed_out)
        × ((punch_loop mac rounds packet deadline addr w).1.sent ≡ w.sent)
  unfolding punch_loop
  punch_loop-flood zero inbox w l i h flood = absurd (omega arith)
  punch_loop-flood (suc rounds) [] w l i h flood = ground arith
  punch_loop-flood (suc rounds) ((time, recv_error e) ∷ rest) w l i h flood = absurd flood
  punch_loop-flood (suc rounds) ((time, datagram from bytes) ∷ rest) w l i h flood =
      elim (Bool-cases (leb deadline w.now)) [
        | inl past ↦ rw past (refl, refl)
        | inr early ↦
            rw (early, punch_round-skip _ w time from bytes rest l i flood.0 flood.1 flood.2)
              (punch_loop-flood rounds rest (record w { now = time; inbox = rest }) l refl
                (omega arith) flood.3)
      ]

-- With no timer around it, if its first send succeeds and then, until two seconds have passed,
-- datagrams from other addresses keep coming less than 200 ms apart, `punch_to` sends no second
-- punch packet and ends in a timeout. (The comment in the source says that the retransmit timer
-- fires independently of such packets.)
pub punch_to_flooded :
    {E : Type 0} (mac : Blake2s) (addr : SocketAddr) (packet : List ℕ)
    (w : World E HolepunchSession)
    → w.limit ≡ none
    → w.sends ≡ []
    → build_punch_packet mac w.self ≡ some packet
    → IsFlood addr (w.now + punch_duration) w.now w.inbox
    → ((punch_to mac addr w).0 ≡ fail timed_out)
      × ((punch_to mac addr w).1.sent ≡ (addr, packet) ∷ w.sent)
unfolding punch_to punch_within send_to
punch_to_flooded mac addr packet w free sends built flood =
    rw (built, sends)
      (punch_loop-flood mac packet (w.now + punch_duration) addr (punch_rounds w) w.inbox
        (record w { sends = []; sent = (addr, packet) ∷ w.sent }) free refl (omega arith) flood)
