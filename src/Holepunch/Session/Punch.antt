-- ===== src/Holepunch/Session/Punch.antt =====
-- `punch_to` ends by itself, at the latest one retry interval after its two seconds.
use hyperswarm.Base.{
  ℕ, zero, suc, ◌+◌, ◌*◌, ◌≤◌, ◌<◌, ◌≡◌, true, false, Option, List, arith, length, leb, Bool-cases,
  Option-cases, inl, inr,
}
use hyperswarm.Net.{World, M, SocketAddr, same_addr, Result}
use hyperswarm.Net.Select.{select_recv-Calm, select_recv-Swift, select_recv-Received}
use hyperswarm.Net.Ends.{Ends, continue-Ends, convert-Ends, send_to-Ends}
use hyperswarm.Net.Receive.{Received, late, heard, broken, Frame, sent-SendFrame}
use hyperswarm.Holepunch.Packet.{Blake2s, IsLawful, HolepunchSession, verify_punch_packet}
use hyperswarm.Holepunch.Packet.Verify.{verify_decides, mac_state, packet_of}
use hyperswarm.Holepunch.Session.{
  HolepunchError, io, punch_retry_interval, punch_duration, punch_buffer_size, check_packet,
  on_select, punch_round, punch_loop, punch_rounds, punch_within, punch_to,
}

module _ {E : Type 0} (mac : Blake2s) (law : IsLawful mac) where
  check_packet-Ends :
      (last : ℕ) (addr : SocketAddr) (next : M E HolepunchSession (HolepunchError E) SocketAddr)
      → (bytes : List ℕ) (w : World E HolepunchSession) → length w.self.session_key ≡ 32
      → Ends last w (next w)
      → Ends last w (check_packet mac addr next bytes w)
  unfolding check_packet
  check_packet-Ends last addr next bytes w size n =
      elim (Option-cases (verify_punch_packet mac w.self bytes)) [
        | inl e ↦ absurd (verify_decides mac law w.self size bytes e)
        | inr (true, e) ↦ rw e (ground arith)
        | inr (false, e) ↦ rw e (ground arith)
      ]

  -- One turn of the loop, where `next` ends from any world that is nearer to the end.
  on_select-Ends :
      (rounds ticks : ℕ) (packet : List ℕ) (deadline : ℕ) (addr : SocketAddr)
      → (next : M E HolepunchSession (HolepunchError E) SocketAddr) → (w : World E HolepunchSession)
      → length w.self.session_key ≡ 32
      → deadline ≤ w.now + 200 * ticks
      → w.now < deadline
      → length w.inbox + ticks < suc rounds
      → ((t : ℕ) (v : World E HolepunchSession)
          → length v.self.session_key ≡ 32
          → deadline ≤ v.now + 200 * t
          → length v.inbox + t < rounds
          → Ends (deadline + 199) v (next v))
      → (x : Option (Result E (SocketAddr × List ℕ))) (w' : World E HolepunchSession)
      → Received punch_retry_interval punch_buffer_size w x w'
      → Frame w w'
      → Ends (deadline + 199) w' (on_select mac packet addr next x w')
  unfolding on_select
  on_select-Ends rounds zero packet deadline addr next w size h early room ih x w' r f =
      absurd (omega arith)
  on_select-Ends rounds (suc ticks) packet deadline addr next w size h early room ih x w'
        (late e n i) f =
      rw e (
        continue-Ends (deadline + 199) w' _ _
          (convert-Ends _ w' _ io (send_to-Ends _ packet addr w'))
          λ u v sent.
            let g = sent-SendFrame io packet addr w' u v sent in
            ih ticks v (ground arith) (ground arith) (ground arith))
  on_select-Ends rounds (suc ticks) packet deadline addr next w size h early room ih x w'
        (heard time from bytes e i n) f =
      let size' : length w'.self.session_key ≡ 32 = ground arith in
      let rest = ih (suc ticks) w' size' (ground arith) (ground arith) in
      elim (Bool-cases (same_addr from addr)) [
        | inl s ↦ rw (e, s) (check_packet-Ends _ addr next _ w' size' rest)
        | inr s ↦ rw (e, s) rest
      ]
  on_select-Ends rounds (suc ticks) packet deadline addr next w size h early room ih x w'
        (broken time failure e i n) f =
      rw e (ground arith)

  -- With `ticks` intervals to go at most, and a round for each of these and for each datagram.
  punch_loop-Ends :
      (rounds ticks : ℕ) (packet : List ℕ) (deadline : ℕ) (addr : SocketAddr)
      → (w : World E HolepunchSession) → length w.self.session_key ≡ 32
      → deadline ≤ w.now + 200 * ticks
      → length w.inbox + ticks < rounds
      → Ends (deadline + 199) w (punch_loop mac rounds packet deadline addr w)
  unfolding punch_loop punch_round
  punch_loop-Ends zero ticks packet deadline addr w size h room = absurd (omega arith)
  punch_loop-Ends (suc rounds) ticks packet deadline addr w size h room =
      elim (Bool-cases (leb deadline w.now)) [
        | inl past ↦ rw past (ground arith)
        | inr early ↦
            let c = select_recv-Calm (HolepunchError E) punch_retry_interval punch_buffer_size w in
            let s = select_recv-Swift (HolepunchError E) punch_retry_interval punch_buffer_size w in
            rw early (
              continue-Ends (deadline + 199) w _ _
                (record { calm = c; ended = s.ended; by = ground (arith, s.soon) })
                λ x w' e.
                  let (r, f) = select_recv-Received _ _ _ w x w' e in
                  on_select-Ends rounds ticks packet deadline addr _ w size h (ground arith) room
                    (λ t v. punch_loop-Ends rounds t packet deadline addr v) x w' r f)
      ]

  -- With a lawful MAC and a session key of 32 bytes, whatever arrives and whenever, `punch_to`
  -- does not wait for ever and does not panic: it ends within 2.2 seconds.
  pub punch_to-Ends :
      (addr : SocketAddr) (w : World E HolepunchSession)
      → length w.self.session_key ≡ 32
      → Ends (w.now + 2199) w (punch_to mac addr w)
  unfolding punch_to punch_within
  punch_to-Ends addr w size =
      let (m, e) = mac_state mac law w.self size in
      rw (packet_of mac law w.self size m e) (
        continue-Ends _ w _ _ (convert-Ends _ w _ io (send_to-Ends _ _ addr w)) λ u v sent.
          let g = sent-SendFrame io _ addr w u v sent in
          let last : w.now + 2199 ≡ w.now + 2000 + 199 = omega arith in
          rw last (
            punch_loop-Ends (punch_rounds w) 10 _ (w.now + punch_duration) addr v (ground arith)
              (ground arith) (ground arith)))
