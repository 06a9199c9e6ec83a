-- ===== src/Holepunch/Session/Listen.antt =====
-- `respond` ends by itself, ten seconds after its probes at the latest.
use hyperswarm.Base.{
  ℕ, zero, suc, ◌+◌, ◌*◌, ◌≤◌, ◌<◌, ◌≡◌, refl, true, false, some, List, [], ◌∷◌, arith, length,
  Option-cases, inl, inr,
}
use hyperswarm.Net.{
  World, M, Outcome, done, fail, elapsed, pending, panicked, SocketAddr, continue, timeout,
  earliest, lift,
}
use hyperswarm.Net.Calm.{Calm, continue-Calm, convert-Calm, close-Calm, close-Swift}
use hyperswarm.Net.Io.{recv_from-Calm, send_to-Calm}
use hyperswarm.Net.Ends.{Ends, continue-Ends, lift-Ends}
use hyperswarm.Net.Receive.{convert-eq-done, recv_from-Took}
use hyperswarm.Holepunch.Packet.{Blake2s, IsLawful, HolepunchSession, verify_punch_packet}
use hyperswarm.Holepunch.Packet.Verify.{verify_decides, mac_state, packet_of}
use hyperswarm.Holepunch.Session.{
  HolepunchError, io, Candidate, punch_buffer_size, answer, respond_round, respond_loop,
  respond_within, recv_and_respond, listen, respond, initiate, settle_response, punch_timeout,
}
use hyperswarm.Holepunch.Session.Initiate.{probe-Ends, initiate-Ends}
use hyperswarm.Holepunch.Session.Respond.{probe-SendFrame}

module _ {E S Err X Y : Type 0} where
  -- As `continue-Calm`, where the rest may use what the first part gave.
  pub continue-Calm-done :
      (w : World E S) (r : Outcome Err X × World E S) (f : X → M E S Err Y)
      → Calm w r
      → ((x : X) (w' : World E S) → r ≡ (done x, w') → Calm w' (f x w'))
      → Calm w (continue r f)
  continue-Calm-done w (done x, w') f c k = ground (arith, k x w' refl)
  continue-Calm-done w (fail e, w') f c k = ground arith
  continue-Calm-done w (elapsed, w') f c k = ground arith
  continue-Calm-done w (pending, w') f c k = ground arith
  continue-Calm-done w (panicked, w') f c k = ground arith

module _ {E : Type 0} (mac : Blake2s) (law : IsLawful mac) where
  answer-Calm :
      (packet : List ℕ) (from : SocketAddr) (w : World E HolepunchSession)
      → Calm w (answer packet from w)
  answer-Calm packet from w =
      continue-Calm w _ _ (convert-Calm w _ io (send_to-Calm packet from w)) λ u v. ground arith

  respond_loop-Calm :
      (rounds : ℕ) (packet : List ℕ) (w : World E HolepunchSession)
      → length w.self.session_key ≡ 32
      → length w.inbox < rounds
      → Calm w (respond_loop mac rounds packet w)
  unfolding respond_loop respond_round
  respond_loop-Calm zero packet w size room = absurd (omega arith)
  respond_loop-Calm (suc rounds) packet w size room =
      continue-Calm-done w _ _ (convert-Calm w _ io (recv_from-Calm punch_buffer_size w))
        λ (from, bytes) v got.
          let t = recv_from-Took punch_buffer_size w v from bytes (convert-eq-done io _ _ v got) in
          let size' : length v.self.session_key ≡ 32 = rw t.self size in
          elim (Option-cases (verify_punch_packet mac v.self bytes)) [
            | inl n ↦ absurd (verify_decides mac law v.self size' bytes n)
            | inr (true, valid) ↦ rw valid (answer-Calm packet from v)
            | inr (false, valid) ↦
                let room' = rw t.inbox at room in
                rw valid (respond_loop-Calm rounds packet v size' (omega arith))
          ]

  recv_and_respond-Calm :
      (w : World E HolepunchSession)
      → length w.self.session_key ≡ 32
      → Calm w (recv_and_respond mac w)
  unfolding recv_and_respond respond_within
  recv_and_respond-Calm w size =
      let (m, e) = mac_state mac law w.self size in
      rw (packet_of mac law w.self size m e) (respond_loop-Calm _ _ w size (omega arith))

  -- The wait of `respond`.
  wait-Ends :
      (last : ℕ) (w : World E HolepunchSession)
      → length w.self.session_key ≡ 32
      → w.now + 10_000 ≤ last
      → Ends {Err = HolepunchError E} last w (timeout punch_timeout (recv_and_respond mac) w)
  unfolding timeout
  wait-Ends last w size h =
      let v = record w { limit = some (earliest w.limit (w.now + 10_000)) } in
      let c = recv_and_respond-Calm v size in
      let s = close-Swift {Y = HolepunchError E} w 10_000 _ c in
      record {
        calm = close-Calm {Y = HolepunchError E} w (w.now + 10_000) _ (omega arith) c;
        ended = s.ended;
        by = ground (arith, s.soon);
      }

  -- With a lawful MAC and a session key of 32 bytes, whatever arrives and whenever, `respond` does
  -- not wait for ever and does not panic: it ends within ten seconds.
  pub respond-Ends :
      (candidates : List Candidate) (w : World E HolepunchSession)
      → length w.self.session_key ≡ 32
      → Ends (w.now + 10_000) w (respond mac candidates w)
  unfolding respond listen
  respond-Ends [] w size = ground arith
  respond-Ends (c ∷ cs) w size =
      let last = w.now + 10_000 in
      continue-Ends last w _ _ (probe-Ends last (c ∷ cs) w) λ x v e.
        let f = probe-SendFrame (c ∷ cs) w v e in
        continue-Ends last v _ (λ r. lift (settle_response r))
          (wait-Ends last v (rw f.self size) (rw f.now (omega arith)))
          λ r u e'. lift-Ends last (settle_response r) u

  -- With a lawful MAC and a session key of 32 bytes, whatever arrives and whenever, neither
  -- `initiate` nor `respond` waits for ever or panics: `initiate` ends within 2.2 seconds for each
  -- candidate, and `respond` within ten seconds.
  pub session-Ends :
      (candidates : List Candidate) (w : World E HolepunchSession)
      → length w.self.session_key ≡ 32
      → Ends (w.now + 2199 * length candidates) w (initiate mac candidates w)
        × Ends (w.now + 10_000) w (respond mac candidates w)
  session-Ends candidates w size =
      (initiate-Ends mac law candidates w size, respond-Ends candidates w size)
