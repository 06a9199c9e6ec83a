-- ===== src/Holepunch/Session/Choice.antt =====
-- Which candidate, or which error, `initiate` reports.
use hyperswarm.Base.{
  ℕ, zero, suc, ◌≡◌, ◌≢◌, refl, subst, sym, Option, some, none, List, [], ◌∷◌, ◌++◌, arith, length,
  ◌⊎◌, inl, inr,
}
use hyperswarm.Net.{
  World, M, Outcome, done, fail, elapsed, pending, panicked, Event, datagram, recv_error,
  SocketAddr, continue, reflect, lift, send_to,
}
use hyperswarm.Net.Drains.{Drains}
use hyperswarm.Net.Success.{IsSuccess, continue-IsSuccess, reflect-IsSuccess}
use hyperswarm.Holepunch.Packet.{
  Blake2s, IsLawful, HolepunchSession, build_punch_packet, probe_message,
}
use hyperswarm.Holepunch.Session.{
  HolepunchError, io, timed_out, no_viable_candidates, authentication_failed, Candidate, tally,
  judge, probe, probe_each, first_ok, punch_to, try_each, initiate,
}
use hyperswarm.Holepunch.Session.Sound.{Heard, punch_to_sound}
use hyperswarm.Holepunch.Session.Initiate.{punch_to-Drains}
use hyperswarm.Holepunch.Session.Respond.{probe-SendFrame}

-- Some candidate has this address.
abbrev pub Among : SocketAddr → List Candidate → Type 0
Among a [] = ⊥
Among a (c ∷ cs) = (a ≡ c.addr) ⊎ Among a cs

-- What is heard behind some events is heard.
Heard-append :
    {E : Type 0} (a : SocketAddr) (packet : List ℕ) (taken rest : List (ℕ × Event E))
    → Heard a packet rest
    → Heard a packet (taken ++ rest)
Heard-append a packet [] rest h = h
Heard-append a packet ((t, datagram from bytes) ∷ taken) rest h =
    inr (Heard-append a packet taken rest h)
Heard-append a packet ((t, recv_error e) ∷ taken) rest h = Heard-append a packet taken rest h

module _ {E : Type 0} where
  -- What an outcome of `initiate` may be: an address of a candidate from which the packet was
  -- heard, or an error that is not about authentication.
  abbrev pub Verdict :
      List Candidate → List ℕ → List (ℕ × Event E) → Outcome (HolepunchError E) SocketAddr → Type 0
  Verdict cs packet inbox (done a) = Among a cs × Heard a packet inbox
  Verdict cs packet inbox (fail authentication_failed) = ⊥
  Verdict cs packet inbox _ = Unit

  Verdict-later :
      (c : Candidate) (cs : List Candidate) (packet : List ℕ) (taken rest : List (ℕ × Event E))
      → (o : Outcome (HolepunchError E) SocketAddr) → Verdict cs packet rest o
      → Verdict (c ∷ cs) packet (taken ++ rest) o
  Verdict-later c cs packet taken rest (done a) v = (inr v.0, Heard-append a packet taken rest v.1)
  Verdict-later c cs packet taken rest (fail (io e)) v = tt
  Verdict-later c cs packet taken rest (fail timed_out) v = tt
  Verdict-later c cs packet taken rest (fail no_viable_candidates) v = tt
  Verdict-later c cs packet taken rest (fail authentication_failed) v = v
  Verdict-later c cs packet taken rest elapsed v = tt
  Verdict-later c cs packet taken rest pending v = tt
  Verdict-later c cs packet taken rest panicked v = tt

module _ {E : Type 0} (mac : Blake2s) (law : IsLawful mac) (packet : List ℕ) where
  -- One candidate, whose run gave `r`, before the others.
  first-Verdict :
      (c : Candidate) (cs : List Candidate) (w : World E HolepunchSession)
      → (r : Outcome (HolepunchError E) SocketAddr × World E HolepunchSession)
      → (next : M E HolepunchSession (HolepunchError E) SocketAddr)
      → ((a : SocketAddr) (v : World E HolepunchSession)
          → r ≡ (done a, v)
          → (a ≡ c.addr) × Heard a packet w.inbox)
      → Drains w r
      → ((v : World E HolepunchSession) → v.self ≡ w.self → Verdict cs packet v.inbox (next v).0)
      → Verdict (c ∷ cs) packet w.inbox (continue (reflect r) (λ x. first_ok x next)).0
  first-Verdict c cs w (done a, v) next found d rest =
      let (same, heard) = found a v refl in (inl same, heard)
  first-Verdict c cs w (fail e, v) next found d rest =
      rw d.inbox (Verdict-later c cs packet d.taken v.inbox (next v).0 (rest v d.self))
  first-Verdict c cs w (elapsed, v) next found d rest = tt
  first-Verdict c cs w (pending, v) next found d rest = tt
  first-Verdict c cs w (panicked, v) next found d rest = tt

  try_each-Verdict :
      (cs : List Candidate) (w : World E HolepunchSession)
      → length w.self.session_key ≡ 32
      → build_punch_packet mac w.self ≡ some packet
      → Verdict cs packet w.inbox (try_each mac cs w).0
  unfolding try_each
  try_each-Verdict [] w size built = tt
  try_each-Verdict (c ∷ cs) w size built =
      first-Verdict c cs w (punch_to mac c.addr w) (try_each mac cs)
        (λ a v e.
          let (same, heard) = punch_to_sound mac c.addr a packet w v law size built e in
          (same, subst (λ b. Heard b packet w.inbox) (sym same) heard))
        (punch_to-Drains mac c.addr w)
        (λ v same. try_each-Verdict cs v (rw same size) (rw same built))

module _ {E : Type 0} where
  probe_each-IsSuccess :
      (cs : List Candidate) (totals : ℕ × Option E) (w : World E HolepunchSession)
      → IsSuccess (probe_each cs totals w).0
  unfolding probe_each
  probe_each-IsSuccess [] totals w = tt
  probe_each-IsSuccess (c ∷ cs) totals w =
      continue-IsSuccess _ (λ r. probe_each cs (tally totals r))
        (reflect-IsSuccess (HolepunchError E) (send_to probe_message c.addr w))
        λ r v. probe_each-IsSuccess cs (tally totals r) v

  judged :
      (r : Outcome (HolepunchError E) (ℕ × Option E) × World E HolepunchSession)
      → IsSuccess r.0
      → (continue r (λ totals. lift (judge totals))).0 ≢ fail authentication_failed
  judged (done (zero, some e), v) s = ground arith
  judged (done (zero, none), v) s = ground arith
  judged (done (suc n, o), v) s = ground arith
  judged (fail e, v) s = absurd s
  judged (elapsed, v) s = ground arith
  judged (pending, v) s = ground arith
  judged (panicked, v) s = ground arith

  probe-ne-authentication_failed :
      (cs : List Candidate) (w : World E HolepunchSession)
      → (probe cs w).0 ≢ fail authentication_failed
  unfolding probe
  probe-ne-authentication_failed cs w =
      judged (probe_each cs (0, none) w) (probe_each-IsSuccess cs (0, none) w)

  after_probe :
      (cs : List Candidate) (packet : List ℕ) (inbox : List (ℕ × Event E))
      → (r : Outcome (HolepunchError E) (Unit {0}) × World E HolepunchSession)
      → (next : M E HolepunchSession (HolepunchError E) SocketAddr)
      → r.0 ≢ fail authentication_failed
      → ((v : World E HolepunchSession) → r ≡ (done tt, v) → Verdict cs packet inbox (next v).0)
      → Verdict cs packet inbox (continue r (λ _. next)).0
  after_probe cs packet inbox (done tt, v) next n k = k v refl
  after_probe cs packet inbox (fail (io e), v) next n k = tt
  after_probe cs packet inbox (fail timed_out, v) next n k = tt
  after_probe cs packet inbox (fail no_viable_candidates, v) next n k = tt
  after_probe cs packet inbox (fail authentication_failed, v) next n k = n refl
  after_probe cs packet inbox (elapsed, v) next n k = tt
  after_probe cs packet inbox (pending, v) next n k = tt
  after_probe cs packet inbox (panicked, v) next n k = tt

-- With a lawful MAC and a session key of 32 bytes: an address that `initiate` reports is that of
-- one of the candidates, and a datagram had come from it of which the buffer took exactly the
-- packet that the session's own key gives. An error that it reports is never
-- `AuthenticationFailed`, also when that is what every candidate gave.
pub initiate-Verdict :
    {E : Type 0} (mac : Blake2s) (cs : List Candidate) (packet : List ℕ)
    → (w : World E HolepunchSession) → IsLawful mac
    → length w.self.session_key ≡ 32
    → build_punch_packet mac w.self ≡ some packet
    → Verdict cs packet w.inbox (initiate mac cs w).0
unfolding initiate
initiate-Verdict mac [] packet w law size built = tt
initiate-Verdict mac (c ∷ cs) packet w law size built =
    after_probe (c ∷ cs) packet w.inbox (probe (c ∷ cs) w) (try_each mac (c ∷ cs))
      (probe-ne-authentication_failed (c ∷ cs) w)
      λ v e.
        let f = probe-SendFrame (c ∷ cs) w v e in
        subst (λ inbox. Verdict (c ∷ cs) packet inbox (try_each mac (c ∷ cs) v).0) f.inbox
          (try_each-Verdict mac law packet (c ∷ cs) v (rw f.self size) (rw f.self built))
