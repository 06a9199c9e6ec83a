-- ===== src/Transport/Awaits.antt =====
-- The receiving loops of the handshakes find the peer's message.
use hyperswarm.Base.{
  ℕ, zero, suc, ◌-◌, ◌≤◌, ◌<◌, max, ◌≡◌, refl, ◌≢◌, false, List, [], ◌∷◌, ◌++◌, arith, length,
  length-append, take_of_le, leb, Bool-cases, inl, inr,
}
use hyperswarm.Net.{World, done, Event, datagram, recv_error, SocketAddr, same_addr, same_addr_iff}
use hyperswarm.Net.Receive.{Reaches, Reaches-earlier, timeout_recv_reached}
use hyperswarm.Transport.{
  Noise, EncryptedStream, TransportError, max_message_size, on_packet, await_rounds, await_peer,
}

-- Datagrams that come before the deadline, none of them from the address.
abbrev pub AllEarlyStrangers : {E : Type 0} → SocketAddr → ℕ → List (ℕ × Event E) → Type 0
AllEarlyStrangers addr deadline [] = Unit
AllEarlyStrangers addr deadline ((time, datagram from bytes) ∷ rest) =
    (time < deadline) × (from ≢ addr) × AllEarlyStrangers addr deadline rest
AllEarlyStrangers addr deadline ((time, recv_error e) ∷ rest) = ⊥

module _ (n : Noise) {E : Type 0} where
  await_rounds_hears :
      (rounds deadline last : ℕ) (noise rest : List (ℕ × Event E)) (time : ℕ) (raw : List ℕ)
      → (w : World E (EncryptedStream n)) → Reaches w.limit last
      → last ≤ deadline
      → w.inbox ≡ noise ++ (time, datagram w.self.remote_addr raw) ∷ rest
      → AllEarlyStrangers w.self.remote_addr last noise
      → time < last
      → w.now < deadline
      → length raw ≤ max_message_size
      → length noise < rounds
      → (now : ℕ) × (now < deadline)
        × (w.now ≤ now)
        × (await_rounds n rounds deadline w ≡ (done raw, record w { now = now; inbox = rest }))
  unfolding await_rounds on_packet
  await_rounds_hears zero deadline last noise rest time raw w l ends i early soon begun fits room =
      absurd (omega arith)
  await_rounds_hears (suc rounds) deadline last [] rest time raw w l ends i early soon begun fits
        room =
      let running : leb deadline w.now ≡ false = ground arith in
      let came =
        timeout_recv_reached (TransportError E) (deadline - w.now) max_message_size w time
          w.self.remote_addr raw rest (Reaches-earlier w.limit last time l (omega arith)) i
          (omega arith) in
      let own = (same_addr_iff w.self.remote_addr w.self.remote_addr).1 refl in
      (
        max w.now time,
        omega arith,
        omega arith,
        rw (running, came, own, take_of_le max_message_size raw fits) refl,
      )
  await_rounds_hears (suc rounds) deadline last ((t, recv_error e) ∷ noise) rest time raw w l ends i
        early soon begun fits room =
      absurd early
  await_rounds_hears (suc rounds) deadline last ((t, datagram from bytes) ∷ noise) rest time raw w l
        ends i early soon begun fits room =
      let running : leb deadline w.now ≡ false = ground arith in
      let came =
        timeout_recv_reached (TransportError E) (deadline - w.now) max_message_size w t from bytes _
          (Reaches-earlier w.limit last t l (omega (arith, early.0))) i (omega (arith, early.0)) in
      let v = record w {
        now = max w.now t;
        inbox = noise ++ (time, datagram w.self.remote_addr raw) ∷ rest;
      } in
      let (now, before, after, e) =
        await_rounds_hears rounds deadline last noise rest time raw v l ends refl early.2 soon
          (omega (arith, early.0)) fits (omega arith) in
      elim (Bool-cases (same_addr from w.self.remote_addr)) [
        | inl s ↦ absurd (early.1 ((same_addr_iff from w.self.remote_addr).0 s))
        | inr s ↦ (now, before, omega arith, rw (running, came, s) e)
      ]

  -- When no timer around it fires before: the peer's message is found behind early datagrams of strangers.
  pub await_peer_hears :
      (deadline last : ℕ) (noise rest : List (ℕ × Event E)) (time : ℕ) (raw : List ℕ)
      → (w : World E (EncryptedStream n)) → Reaches w.limit last
      → last ≤ deadline
      → w.inbox ≡ noise ++ (time, datagram w.self.remote_addr raw) ∷ rest
      → AllEarlyStrangers w.self.remote_addr last noise
      → time < last
      → w.now < deadline
      → length raw ≤ max_message_size
      → (now : ℕ) × (now < deadline)
        × (w.now ≤ now)
        × (await_peer n deadline w ≡ (done raw, record w { now = now; inbox = rest }))
  unfolding await_peer
  await_peer_hears deadline last noise rest time raw w l ends i early soon begun fits =
      let room : length noise < suc (length w.inbox) =
        rw (i, length-append noise ((time, datagram w.self.remote_addr raw) ∷ rest))
          (omega arith) in
      await_rounds_hears _ deadline last noise rest time raw w l ends i early soon begun fits room
