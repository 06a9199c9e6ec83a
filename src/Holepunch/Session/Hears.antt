-- ===== src/Holepunch/Session/Hears.antt =====
-- `punch_to` hears a peer that answers in time.
use hyperswarm.Base.{
  ℕ, zero, suc, ◌+◌, ◌*◌, ◌≤◌, ◌<◌, max, ◌≡◌, refl, ◌≢◌, true, false, none, some, List, [], ◌∷◌,
  ◌++◌, arith, length, length-append, leb, take, Bool-cases, ◌⊎◌, inl, inr,
}
use hyperswarm.Net.{
  World, M, done, Event, datagram, recv_error, SocketAddr, same_addr, same_addr_iff, send_to,
}
use hyperswarm.Net.Select.{sleeps, select_recv-takes, select_recv-sleeps}
use hyperswarm.Holepunch.Packet.{
  Blake2s, IsLawful, HolepunchSession, has_punch_message, build_punch_packet, verify_punch_packet,
}
use hyperswarm.Holepunch.Packet.Verify.{verify_punch_packet_iff}
use hyperswarm.Holepunch.Session.{
  HolepunchError, punch_buffer_size, punch_retry_interval, check_packet, on_select, punch_round,
  punch_loop, punch_rounds, punch_within, punch_to,
}

-- Datagrams that come before the deadline and that the loop passes over: they are from elsewhere,
-- or do not begin as a punch packet.
abbrev pub AllIdle : {E : Type 0} → SocketAddr → ℕ → List (ℕ × Event E) → Type 0
AllIdle addr deadline [] = Unit
AllIdle addr deadline ((time, datagram from bytes) ∷ rest) =
    (time < deadline)
    × ((from ≢ addr) ⊎ (has_punch_message (take punch_buffer_size bytes) ≡ false))
    × AllIdle addr deadline rest
AllIdle addr deadline ((time, recv_error e) ∷ rest) = ⊥

-- The time of the first event.
abbrev first_time : {E : Type 0} → List (ℕ × Event E) → ℕ
first_time [] = 0
first_time ((time, _) ∷ _) = time

module _ {E : Type 0} (mac : Blake2s) (packet : List ℕ) (addr : SocketAddr) where
  -- The retry timer fires and a packet goes out.
  punch_round-late :
      (next : M E HolepunchSession (HolepunchError E) SocketAddr)
      → (w : World E HolepunchSession) (time : ℕ) (event : Event E) (rest : List (ℕ × Event E))
      → w.limit ≡ none
      → w.sends ≡ []
      → w.inbox ≡ (time, event) ∷ rest
      → sleeps w 200 time ≡ true
      → punch_round mac packet addr next w
        ≡ next (record w { now = w.now + 200; sent = (addr, packet) ∷ w.sent })
  unfolding punch_round on_select send_to
  punch_round-late next w time event rest l s i h =
      rw
        (
          select_recv-sleeps (HolepunchError E) punch_retry_interval punch_buffer_size w time rest l
              event i h,
          s,
        )
        refl

  -- A datagram without the head of a punch packet is no proof.
  idle_packet :
      (next : M E HolepunchSession (HolepunchError E) SocketAddr)
      → (bytes : List ℕ) (w : World E HolepunchSession) → has_punch_message bytes ≡ false
      → check_packet mac addr next bytes w ≡ next w
  unfolding check_packet verify_punch_packet
  idle_packet next bytes w h = ground arith

  punch_round-idle :
      (next : M E HolepunchSession (HolepunchError E) SocketAddr)
      → (w : World E HolepunchSession) (time : ℕ) (from : SocketAddr) (bytes : List ℕ)
      → (rest : List (ℕ × Event E)) → w.limit ≡ none
      → w.inbox ≡ (time, datagram from bytes) ∷ rest
      → sleeps w 200 time ≡ false
      → (from ≢ addr) ⊎ (has_punch_message (take punch_buffer_size bytes) ≡ false)
      → punch_round mac packet addr next w ≡ next (record w { now = max w.now time; inbox = rest })
  unfolding punch_round on_select
  punch_round-idle next w time from bytes rest l i soon idle =
      let came =
        select_recv-takes (HolepunchError E) punch_retry_interval punch_buffer_size w time rest l
          from bytes i soon in
      elim (Bool-cases (same_addr from addr)) [
        | inl s ↦ elim idle [
          | inl other ↦ absurd (other ((same_addr_iff from addr).0 s))
          | inr plain ↦ rw (came, s) (idle_packet next _ _ plain)
        ]
        | inr s ↦ rw (came, s) refl
      ]

  -- The peer's packet ends the loop.
  punch_round-peer :
      (law : IsLawful mac) (next : M E HolepunchSession (HolepunchError E) SocketAddr)
      → (w : World E HolepunchSession) (time : ℕ) (raw : List ℕ) (rest : List (ℕ × Event E))
      → w.limit ≡ none
      → w.inbox ≡ (time, datagram addr raw) ∷ rest
      → sleeps w 200 time ≡ false
      → length w.self.session_key ≡ 32
      → build_punch_packet mac w.self ≡ some packet
      → take punch_buffer_size raw ≡ packet
      → punch_round mac packet addr next w
        ≡ (done addr, record w { now = max w.now time; inbox = rest })
  unfolding punch_round on_select check_packet
  punch_round-peer law next w time raw rest l i soon size built part =
      let came =
        select_recv-takes (HolepunchError E) punch_retry_interval punch_buffer_size w time rest l
          addr raw i soon in
      let valid = (verify_punch_packet_iff mac law w.self size packet).1 built in
      rw (came, (same_addr_iff addr addr).1 refl, part, valid) refl

-- The peer's packet, behind idle datagrams.
pub record Coming {E : Type 0} (addr : SocketAddr) (packet : List ℕ) (deadline : ℕ)
    (inbox : List (ℕ × Event E)) : Type 0 where
  pub noise : List (ℕ × Event E)
  pub time : ℕ
  pub raw : List ℕ
  pub rest : List (ℕ × Event E)
  pub queue : inbox ≡ noise ++ (time, datagram addr raw) ∷ rest
  pub idle : AllIdle addr deadline noise
  pub soon : time < deadline
  pub part : take punch_buffer_size raw ≡ packet

module _ {E : Type 0} (mac : Blake2s) (law : IsLawful mac) (packet : List ℕ) (addr : SocketAddr)
    (deadline : ℕ) (time : ℕ) (raw : List ℕ) (rest : List (ℕ × Event E)) (soon : time < deadline)
    (part : take punch_buffer_size raw ≡ packet) where
  -- With a round for each datagram before the peer's and for each of the `ticks` that the timer
  -- can fire.
  punch_loop-hears :
      (rounds ticks : ℕ) (noise : List (ℕ × Event E)) (w : World E HolepunchSession)
      → w.limit ≡ none
      → w.sends ≡ []
      → w.inbox ≡ noise ++ (time, datagram addr raw) ∷ rest
      → AllIdle addr deadline noise
      → w.now < deadline
      → length w.self.session_key ≡ 32
      → build_punch_packet mac w.self ≡ some packet
      → deadline ≤ w.now + 200 * ticks
      → length noise + ticks < rounds
      → (punch_loop mac rounds packet deadline addr w).0 ≡ done addr
  unfolding punch_loop
  punch_loop-hears zero ticks noise w l s i idle early size built last room = absurd (omega arith)
  punch_loop-hears (suc rounds) zero noise w l s i idle early size built last room =
      absurd (omega arith)
  punch_loop-hears (suc rounds) (suc ticks) [] w l s i idle early size built last room =
      let open_loop : leb deadline w.now ≡ false = ground arith in
      elim (Bool-cases (sleeps w 200 time)) [
        | inl late ↦
            rw
              (
                open_loop,
                punch_round-late mac packet addr (punch_loop mac rounds packet deadline addr) w time
                    (datagram addr raw) rest l s i (ground arith),
              )
              (punch_loop-hears rounds ticks []
                (record w { now = w.now + 200; sent = (addr, packet) ∷ w.sent }) l s i tt
                (ground arith) size built (omega arith) (omega arith))
        | inr now ↦
            rw
              (
                open_loop,
                punch_round-peer mac packet addr law (punch_loop mac rounds packet deadline addr) w
                    time raw rest l i (ground arith) size built part,
              )
              refl
      ]
  punch_loop-hears (suc rounds) ticks ((t, recv_error e) ∷ noise) w l s i idle early size built last
        room =
      absurd idle
  punch_loop-hears (suc rounds) (suc ticks) ((t, datagram from bytes) ∷ noise) w l s i idle early
        size built last room =
      let open_loop : leb deadline w.now ≡ false = ground arith in
      elim (Bool-cases (sleeps w 200 t)) [
        | inl late ↦
            rw
              (
                open_loop,
                punch_round-late mac packet addr (punch_loop mac rounds packet deadline addr) w t
                    (datagram from bytes) _ l s i (ground arith),
              )
              (punch_loop-hears rounds ticks ((t, datagram from bytes) ∷ noise)
                (record w { now = w.now + 200; sent = (addr, packet) ∷ w.sent }) l s i idle
                (ground arith) size built (omega arith) (omega arith))
        | inr now ↦
            rw
              (
                open_loop,
                punch_round-idle mac packet addr (punch_loop mac rounds packet deadline addr) w t
                    from bytes _ l i (ground arith) idle.1,
              )
              (punch_loop-hears rounds (suc ticks) noise
                (record w { now = max w.now t; inbox = noise ++ (time, datagram addr raw) ∷ rest })
                l s refl idle.2 (omega (arith, idle.0)) size built (omega arith) (omega arith))
      ]

-- With a lawful MAC and a session key of 32 bytes, with no timer around it and when its sends
-- succeed: `punch_to` opens the hole if a datagram comes from the address within two seconds of
-- which the buffer takes exactly the session's packet, and what comes before is from elsewhere
-- or does not begin as a punch packet.
pub punch_to_hears :
    {E : Type 0} (mac : Blake2s) (addr : SocketAddr) (packet : List ℕ)
    → (w : World E HolepunchSession) → IsLawful mac
    → w.limit ≡ none
    → w.sends ≡ []
    → length w.self.session_key ≡ 32
    → build_punch_packet mac w.self ≡ some packet
    → Coming addr packet (w.now + 2000) w.inbox
    → (punch_to mac addr w).0 ≡ done addr
unfolding punch_to punch_within send_to
punch_to_hears mac addr packet w law l s size built c =
    let room : length c.noise + 10 < punch_rounds w =
      rw (c.queue, length-append c.noise ((c.time, datagram addr c.raw) ∷ c.rest)) (omega arith) in
    rw (built, s)
      (punch_loop-hears mac law packet addr (w.now + 2000) c.time c.raw c.rest c.soon c.part
        (punch_rounds w) 10 c.noise (record w { sends = []; sent = (addr, packet) ∷ w.sent }) l refl
        c.queue c.idle (omega arith) size built (omega arith) room)
