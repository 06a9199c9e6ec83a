-- ===== src/Holepunch/Session/Sound.antt =====
-- A hole is reported open only after the peer's authenticated packet has come in.
use hyperswarm.Base.{
  ℕ, zero, suc, ◌≡◌, ◌∙◌, true, false, Option, some, List, [], ◌∷◌, arith, length, take, leb,
  Bool-cases, Option-cases, ◌⊎◌, inl, inr,
}
use hyperswarm.Net.{
  World, M, done, Event, datagram, recv_error, SocketAddr, same_addr, same_addr_iff, Result,
}
use hyperswarm.Net.Receive.{Received, late, heard, broken, Frame, sent-SendFrame}
use hyperswarm.Net.Select.{select_recv-Received}
use hyperswarm.Net.Invert.{continue-eq-done}
use hyperswarm.Holepunch.Packet.{
  Blake2s, IsLawful, HolepunchSession, has_punch_message, build_punch_packet, verify_punch_packet,
}
use hyperswarm.Holepunch.Packet.Verify.{verify_decides, verify_punch_packet_iff}
use hyperswarm.Holepunch.Session.{
  HolepunchError, io, punch_buffer_size, check_packet, on_select, punch_round, punch_loop,
  punch_within, punch_to,
}

-- A datagram from the address is in the inbox, and the buffer takes of it just the packet.
abbrev pub Heard : {E : Type 0} → SocketAddr → List ℕ → List (ℕ × Event E) → Type 0
Heard addr packet [] = ⊥
Heard addr packet ((_, datagram from bytes) ∷ rest) =
    ((from ≡ addr) × (take punch_buffer_size bytes ≡ packet)) ⊎ Heard addr packet rest
Heard addr packet ((_, recv_error _) ∷ rest) = Heard addr packet rest

module _ {E : Type 0} (mac : Blake2s) (law : IsLawful mac) (packet : List ℕ)
    (addr : SocketAddr) where
  -- What is to be shown of a loop that starts with this inbox and gives `a`.
  abbrev Opened : List (ℕ × Event E) → SocketAddr → Type 0
  Opened inbox a = (a ≡ addr) × Heard addr packet inbox

  check_packet-Opened :
      (next : M E HolepunchSession (HolepunchError E) SocketAddr) (bytes : List ℕ)
      → (inbox : List (ℕ × Event E)) (w w' : World E HolepunchSession) (a : SocketAddr)
      → length w.self.session_key ≡ 32
      → build_punch_packet mac w.self ≡ some packet
      → (bytes ≡ packet → Heard addr packet inbox)
      → (next w ≡ (done a, w') → Opened inbox a)
      → check_packet mac addr next bytes w ≡ (done a, w')
      → Opened inbox a
  unfolding check_packet
  check_packet-Opened next bytes inbox w w' a size built hit later e =
      elim (Option-cases (verify_punch_packet mac w.self bytes)) [
        | inl v ↦ absurd (verify_decides mac law w.self size bytes v)
        | inr (true, v) ↦
            let own = (verify_punch_packet_iff mac law w.self size bytes).0 v in
            let same : bytes ≡ packet = cc in (ground arith, hit same)
        | inr (false, v) ↦ elim (Bool-cases (has_punch_message bytes)) [
          | inl p ↦ ground arith
          | inr p ↦ later (ground arith)
        ]
      ]

  on_select-Opened :
      (next : M E HolepunchSession (HolepunchError E) SocketAddr)
      → (w v w' : World E HolepunchSession) (a : SocketAddr)
      → (x : Option (Result E (SocketAddr × List ℕ))) → length w.self.session_key ≡ 32
      → build_punch_packet mac w.self ≡ some packet
      → ((u : World E HolepunchSession)
          → u.self ≡ w.self
          → next u ≡ (done a, w')
          → Opened u.inbox a)
      → Received 200 punch_buffer_size w x v
      → Frame w v
      → on_select mac packet addr next x v ≡ (done a, w')
      → Opened w.inbox a
  unfolding on_select
  on_select-Opened next w v w' a x size built ih (late e n i) f h =
      let (_, u, sent, k) = continue-eq-done _ _ a w' (rw e at h) in
      let g = sent-SendFrame io packet addr v tt u sent in
      rw (g.inbox ∙ i) at (ih u (g.self ∙ f.self) k)
  on_select-Opened next w v w' a x size built ih (heard time from bytes e i n) f h =
      let read = take punch_buffer_size bytes in
      let skip : next v ≡ (done a, w') → Opened w.inbox a =
        λ k. let o = ih v f.self k in rw i (o.0, inr o.1) in
      elim (Bool-cases (same_addr from addr)) [
        | inl s ↦
            check_packet-Opened next read w.inbox v w' a (rw f.self size) (rw f.self built)
              (λ same. rw i (inl ((same_addr_iff from addr).0 s, same))) skip (rw s at (rw e at h))
        | inr s ↦ skip (rw s at (rw e at h))
      ]
  on_select-Opened next w v w' a x size built ih (broken time failure e i n) f h =
      let h' = rw e at h in ground arith

  punch_loop-Opened :
      (rounds deadline : ℕ) (w w' : World E HolepunchSession) (a : SocketAddr)
      → length w.self.session_key ≡ 32
      → build_punch_packet mac w.self ≡ some packet
      → punch_loop mac rounds packet deadline addr w ≡ (done a, w')
      → Opened w.inbox a
  unfolding punch_loop punch_round
  punch_loop-Opened zero deadline w w' a size built e = ground arith
  punch_loop-Opened (suc rounds) deadline w w' a size built e =
      elim (Bool-cases (leb deadline w.now)) [
        | inl past ↦ ground arith
        | inr early ↦
            let (x, v, r, k) = continue-eq-done _ _ a w' (rw early at e) in
            let (received, f) = select_recv-Received _ _ _ w x v r in
            on_select-Opened _ w v w' a x size built
              (λ u same h.
                punch_loop-Opened rounds deadline u w' a (rw same size) (rw same built) h)
              received f k
      ]

-- With a lawful MAC and a session key of 32 bytes: when `punch_to` reports success, it reports
-- the address that it was asked to punch to, and a datagram had come from that address of which
-- the buffer took exactly the packet that the session's own key gives.
pub punch_to_sound :
    {E : Type 0} (mac : Blake2s) (addr a : SocketAddr) (packet : List ℕ)
    → (w w' : World E HolepunchSession) → IsLawful mac
    → length w.self.session_key ≡ 32
    → build_punch_packet mac w.self ≡ some packet
    → punch_to mac addr w ≡ (done a, w')
    → (a ≡ addr) × Heard addr packet w.inbox
unfolding punch_to punch_within
punch_to_sound mac addr a packet w w' law size built e =
    let (_, v, sent, k) = continue-eq-done _ _ a w' (rw built at e) in
    let g = sent-SendFrame io packet addr w tt v sent in
    rw g.inbox at
      (punch_loop-Opened mac law packet addr _ _ v w' a (rw g.self size) (rw g.self built) k)
