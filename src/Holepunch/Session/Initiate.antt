-- ===== src/Holepunch/Session/Initiate.antt =====
-- `initiate` tries one candidate after the other.
use hyperswarm.Base.{
  ℕ, zero, suc, ◌+◌, ◌*◌, ◌≤◌, ◌≡◌, refl, subst, true, false, Option, some, none, List, [], ◌∷◌,
  arith, length, leb, Bool-cases, Option-cases, inl, inr, max,
}
use hyperswarm.Net.{
  World, M, Outcome, done, fail, elapsed, pending, panicked, SocketAddr, same_addr, Result, ok, err,
  reflect,
}
use hyperswarm.Net.Ends.{Ends, continue-Ends, send_to-Ends, lift-Ends}
use hyperswarm.Net.Drains.{
  Drains, stays-Drains, continue-Drains, convert-Drains, if-Drains, send_to-Drains,
}
use hyperswarm.Net.Select.{select_recv-Drains}
use hyperswarm.Holepunch.Packet.{
  Blake2s, IsLawful, HolepunchSession, probe_message, verify_punch_packet, has_punch_message,
  build_punch_packet,
}
use hyperswarm.Holepunch.Session.{
  HolepunchError, io, Candidate, tally, judge, probe, probe_each, first_ok, check_packet, on_select,
  punch_round, punch_loop, punch_within, punch_to, try_each, initiate,
}
use hyperswarm.Holepunch.Session.Punch.{punch_to-Ends}
use hyperswarm.Holepunch.Session.Respond.{probe-SendFrame, reflect-eq-done}

module _ {E : Type 0} (mac : Blake2s) where
  check_packet-Drains :
      (addr : SocketAddr) (next : M E HolepunchSession (HolepunchError E) SocketAddr)
      → (bytes : List ℕ) (w : World E HolepunchSession) → Drains w (next w)
      → Drains w (check_packet mac addr next bytes w)
  unfolding check_packet
  check_packet-Drains addr next bytes w h =
      elim (Option-cases (verify_punch_packet mac w.self bytes)) [
        | inl e ↦ rw e (stays-Drains w _ refl refl)
        | inr (true, e) ↦ rw e (stays-Drains w _ refl refl)
        | inr (false, e) ↦
            rw e (if-Drains (has_punch_message bytes) _ _ w (stays-Drains w _ refl refl) h)
      ]

  on_select-Drains :
      (packet : List ℕ) (addr : SocketAddr)
      → (next : M E HolepunchSession (HolepunchError E) SocketAddr)
      → ((v : World E HolepunchSession) → Drains v (next v))
      → (x : Option (Result E (SocketAddr × List ℕ))) (w : World E HolepunchSession)
      → Drains w (on_select mac packet addr next x w)
  unfolding on_select
  on_select-Drains packet addr next h (some (ok (from, bytes))) w =
      if-Drains (same_addr from addr) _ _ w (check_packet-Drains addr next bytes w (h w)) (h w)
  on_select-Drains packet addr next h (some (err e)) w = stays-Drains w _ refl refl
  on_select-Drains packet addr next h none w =
      continue-Drains w _ _ (convert-Drains w _ io (send_to-Drains packet addr w)) λ u v e. h v

  punch_loop-Drains :
      (rounds : ℕ) (packet : List ℕ) (deadline : ℕ) (addr : SocketAddr)
      → (w : World E HolepunchSession) → Drains w (punch_loop mac rounds packet deadline addr w)
  unfolding punch_loop punch_round
  punch_loop-Drains zero packet deadline addr w = stays-Drains w _ refl refl
  punch_loop-Drains (suc rounds) packet deadline addr w = elim (Bool-cases (leb deadline w.now)) [
    | inl past ↦ rw past (stays-Drains w _ refl refl)
    | inr early ↦ rw early (
        continue-Drains w _ _ (select_recv-Drains _ _ _ w) λ x v e.
          on_select-Drains packet addr _ (punch_loop-Drains rounds packet deadline addr) x v)
  ]

  -- With or without an outcome, `punch_to` leaves the session as it is, and it takes datagrams
  -- from the head of the inbox.
  pub punch_to-Drains :
      (addr : SocketAddr) (w : World E HolepunchSession) → Drains w (punch_to mac addr w)
  unfolding punch_to punch_within
  punch_to-Drains addr w = elim (Option-cases (build_punch_packet mac w.self)) [
    | inl e ↦ rw e (stays-Drains w _ refl refl)
    | inr (packet, e) ↦ rw e (
        continue-Drains w _ _ (convert-Drains w _ io (send_to-Drains packet addr w))
          λ u v e'. punch_loop-Drains _ packet _ addr v)
  ]

module _ {E S Err Err' X : Type 0} where
  reflect-Ends :
      (last : ℕ) (w : World E S) (r : Outcome Err X × World E S)
      → Ends last w r
      → Ends {Err = Err'} last w (reflect r)
  reflect-Ends last w (done x, w') c = ground arith
  reflect-Ends last w (fail e, w') c = ground arith
  reflect-Ends last w (elapsed, w') c = ground arith
  reflect-Ends last w (pending, w') c = ground arith
  reflect-Ends last w (panicked, w') c = ground arith

module _ {E S Err X : Type 0} where
  -- An end in time is one by any later time.
  Ends-later :
      (a b : ℕ) (w : World E S) (r : Outcome Err X × World E S) → a ≤ b → Ends a w r → Ends b w r
  Ends-later a b w r h c = record { calm = c.calm; ended = c.ended; by = ground (arith, c.by) }

module _ {E : Type 0} where
  probe_each-Ends :
      (last : ℕ) (candidates : List Candidate) (totals : ℕ × Option E)
      → (w : World E HolepunchSession) → Ends last w (probe_each candidates totals w)
  unfolding probe_each
  probe_each-Ends last [] totals w = ground arith
  probe_each-Ends last (c ∷ cs) totals w =
      continue-Ends last w _ (λ r. probe_each cs (tally totals r))
        (reflect-Ends last w _ (send_to-Ends last probe_message c.addr w))
        λ r v e. probe_each-Ends last cs (tally totals r) v

  pub probe-Ends :
      (last : ℕ) (candidates : List Candidate) (w : World E HolepunchSession)
      → Ends last w (probe candidates w)
  unfolding probe
  probe-Ends last candidates w =
      continue-Ends last w _ _ (probe_each-Ends last candidates (0, none) w)
        λ totals v e. lift-Ends last (judge totals) v

module _ {E : Type 0} (mac : Blake2s) (law : IsLawful mac) where
  first_ok-Ends :
      (last : ℕ) (r : Result (HolepunchError E) SocketAddr)
      → (next : M E HolepunchSession (HolepunchError E) SocketAddr) → (w : World E HolepunchSession)
      → Ends last w (next w)
      → Ends last w (first_ok r next w)
  first_ok-Ends last (ok addr) next w h = ground arith
  first_ok-Ends last (err e) next w h = h

  try_each-Ends :
      (candidates : List Candidate) (last : ℕ) (w : World E HolepunchSession)
      → length w.self.session_key ≡ 32
      → w.now + 2199 * length candidates ≤ last
      → Ends last w (try_each mac candidates w)
  unfolding try_each
  try_each-Ends [] last w size h = ground arith
  try_each-Ends (c ∷ cs) last w size h =
      let first = punch_to-Ends mac law c.addr w size in
      let still = punch_to-Drains mac c.addr w in
      continue-Ends last w (reflect (punch_to mac c.addr w)) (λ r. first_ok r (try_each mac cs))
        (Ends-later (w.now + 2199) last w _ (omega arith) (reflect-Ends (w.now + 2199) w _ first))
        λ r v e.
          let same = reflect-eq-done (punch_to mac c.addr w) r v e in
          let size' = subst (λ u. length u.self.session_key ≡ 32) same (rw still.self size) in
          let soon = subst (λ u. u.now ≤ max w.now (w.now + 2199)) same first.by in
          first_ok-Ends last r _ v (try_each-Ends cs last v size' (omega arith))

  -- With a lawful MAC and a session key of 32 bytes, whatever arrives and whenever, `initiate` does
  -- not wait for ever and does not panic: it ends within 2.2 seconds for each candidate.
  pub initiate-Ends :
      (candidates : List Candidate) (w : World E HolepunchSession)
      → length w.self.session_key ≡ 32
      → Ends (w.now + 2199 * length candidates) w (initiate mac candidates w)
  unfolding initiate
  initiate-Ends [] w size = ground arith
  initiate-Ends (c ∷ cs) w size =
      let last = w.now + 2199 * length (c ∷ cs) in
      continue-Ends last w _ _ (probe-Ends last (c ∷ cs) w) λ x v e.
        let f = probe-SendFrame (c ∷ cs) w v e in
        try_each-Ends (c ∷ cs) last v (rw f.self size) (rw f.now (omega arith))
