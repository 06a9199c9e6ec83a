-- ===== src/Holepunch/Session/Respond.antt =====
-- The responder answers only an authenticated packet.
use hyperswarm.Base.{
  ℕ, zero, suc, ◌+◌, ◌≡◌, ◌∙◌, subst, sym, true, false, Option, some, none, List, [], ◌∷◌, arith,
  length, take, Bool-cases, Option-cases, inl, inr, ap,
}
use hyperswarm.Net.{
  World, Outcome, done, fail, elapsed, pending, panicked, SocketAddr, Result, ok, send_to, timeout,
  close, earliest, within, lift, reflect,
}
use hyperswarm.Net.Receive.{
  convert-eq-done, recv_from-Took, send_to-sent, SendFrame, send_to-SendFrame,
}
use hyperswarm.Net.Invert.{continue-eq-done}
use hyperswarm.Net.Ends.{lift-eq-done}
use hyperswarm.Holepunch.Packet.{
  Blake2s, IsLawful, HolepunchSession, build_punch_packet, verify_punch_packet, probe_message,
}
use hyperswarm.Holepunch.Packet.Verify.{verify_decides, verify_punch_packet_iff}
use hyperswarm.Holepunch.Session.{
  HolepunchError, io, Candidate, punch_buffer_size, answer, respond_round, respond_loop,
  respond_within, recv_and_respond, listen, respond, settle_response, probe, probe_each,
  punch_timeout, tally, judge,
}
use hyperswarm.Holepunch.Session.Sound.{Heard}

pub some_inj : {x y : List ℕ} → some x ≡ some y → x ≡ y
some_inj e = ground arith

module _ {E : Type 0} where
  -- What is to be shown of a run that gave `a`: a packet had come from there and was answered.
  pub record Answered (packet : List ℕ) (a : SocketAddr) (w w' : World E HolepunchSession)
      : Type 0 where
    pub heard : Heard a packet w.inbox
    pub sent : w'.sent ≡ (a, packet) ∷ w.sent

module _ {E : Type 0} (mac : Blake2s) (law : IsLawful mac) where
  answer-sent :
      (packet : List ℕ) (from a : SocketAddr) (w w' : World E HolepunchSession)
      → answer packet from w ≡ (done a, w')
      → (a ≡ from) × (w'.sent ≡ (from, packet) ∷ w.sent)
  answer-sent packet from a w w' e =
      let (x, v, out, end) = continue-eq-done _ _ a w' e in
      let s = send_to-sent packet from w v (convert-eq-done io _ x v out) in
      (ground arith, ground arith)

  respond_loop-Answered :
      (rounds : ℕ) (packet : List ℕ) (a : SocketAddr) (w w' : World E HolepunchSession)
      → length w.self.session_key ≡ 32
      → build_punch_packet mac w.self ≡ some packet
      → respond_loop mac rounds packet w ≡ (done a, w')
      → Answered packet a w w'
  unfolding respond_loop respond_round
  respond_loop-Answered zero packet a w w' size built e = ground arith
  respond_loop-Answered (suc rounds) packet a w w' size built e =
      let ((from, bytes), v, got, k) = continue-eq-done _ _ a w' e in
      let t = recv_from-Took punch_buffer_size w v from bytes (convert-eq-done io _ _ v got) in
      elim (Option-cases (verify_punch_packet mac v.self bytes)) [
        | inl n ↦ absurd (verify_decides mac law v.self (rw t.self size) bytes n)
        | inr (true, valid) ↦
            let own = (verify_punch_packet_iff mac law v.self (rw t.self size) bytes).0 valid in
            let (same, sent) = answer-sent packet from a v w' (rw valid at k) in
            let packets = sym (rw t.self at own) ∙ built in
            let read : take punch_buffer_size t.raw ≡ packet = sym t.part ∙ some_inj packets in
            record { heard = rw t.inbox (inl (sym same, read)); sent = rw same (rw t.sent at sent) }
        | inr (false, valid) ↦
            let rest =
              respond_loop-Answered rounds packet a v w' (rw t.self size) (rw t.self built)
                (rw valid at k) in
            record { heard = rw t.inbox (inr rest.heard); sent = rw t.sent at rest.sent }
      ]

  recv_and_respond-Answered :
      (packet : List ℕ) (a : SocketAddr) (w w' : World E HolepunchSession)
      → length w.self.session_key ≡ 32
      → build_punch_packet mac w.self ≡ some packet
      → recv_and_respond mac w ≡ (done a, w')
      → Answered packet a w w'
  unfolding recv_and_respond respond_within
  recv_and_respond-Answered packet a w w' size built e =
      respond_loop-Answered _ packet a w w' size built (rw built at e)

module _ {E S : Type 0} where
  close-eq-done :
      {Err Err' X : Type 0} (outer : Option ℕ) (deadline : ℕ) (r : Outcome Err X × World E S)
      → (x : X) (w' : World E S) → close {Err' = Err'} outer deadline r ≡ (done (some (ok x)), w')
      → (u : World E S) × (r ≡ (done x, u)) × (w'.sent ≡ u.sent)
  close-eq-done outer deadline (done y, v) x w' e = (v, ground arith, ground arith)
  close-eq-done outer deadline (fail f, v) x w' e = ground arith
  close-eq-done outer deadline (elapsed, v) x w' e = elim (Bool-cases (within outer deadline)) [
    | inl inside ↦ ground arith
    | inr outside ↦ ground arith
  ]
  close-eq-done outer deadline (pending, v) x w' e = ground arith
  close-eq-done outer deadline (panicked, v) x w' e = ground arith

  pub reflect-eq-done :
      {Err Err' X : Type 0} (r : Outcome Err X × World E S) (x : Result Err X) (v : World E S)
      → reflect {Err' = Err'} r ≡ (done x, v)
      → r.1 ≡ v
  reflect-eq-done (done y, u) x v e = ground arith
  reflect-eq-done (fail f, u) x v e = ground arith
  reflect-eq-done (elapsed, u) x v e = ground arith
  reflect-eq-done (pending, u) x v e = ground arith
  reflect-eq-done (panicked, u) x v e = ground arith

module _ {E : Type 0} where
  probe_each-SendFrame :
      (candidates : List Candidate) (totals totals' : ℕ × Option E)
      → (w v : World E HolepunchSession) → probe_each candidates totals w ≡ (done totals', v)
      → SendFrame w v
  unfolding probe_each
  probe_each-SendFrame [] totals totals' w v e = ground arith
  probe_each-SendFrame (c ∷ cs) totals totals' w v e =
      let (r, u, sent, k) = continue-eq-done _ (λ r. probe_each cs (tally totals r)) totals' v e in
      let f : SendFrame w u =
        subst (SendFrame w) (reflect-eq-done (send_to probe_message c.addr w) r u sent)
          (send_to-SendFrame probe_message c.addr w) in
      let g = probe_each-SendFrame cs (tally totals r) totals' u v k in
      record {
        now = g.now ∙ f.now;
        limit = g.limit ∙ f.limit;
        inbox = g.inbox ∙ f.inbox;
        self = g.self ∙ f.self;
      }

  pub probe-SendFrame :
      (candidates : List Candidate) (w v : World E HolepunchSession)
      → probe candidates w ≡ (done tt, v)
      → SendFrame w v
  unfolding probe
  probe-SendFrame candidates w v e =
      let (totals, u, sent, k) = continue-eq-done _ _ tt v e in
      let f = probe_each-SendFrame candidates (0, none) totals w u sent in
      let (_, same) = lift-eq-done (judge totals) u tt v k in rw same f

settle_response-ok :
    {E : Type 0} (r : Option (Result (HolepunchError E) SocketAddr)) (a : SocketAddr)
    → settle_response r ≡ ok a
    → r ≡ some (ok a)
settle_response-ok none a e = ground arith
settle_response-ok (some r) a e = ap some e

-- With a lawful MAC and a session key of 32 bytes: when `respond` reports an address, a datagram
-- had come from there of which the buffer took exactly the packet that the session's own key
-- gives, and that packet was sent back to it last.
pub respond_sound :
    {E : Type 0} (mac : Blake2s) (candidates : List Candidate) (a : SocketAddr) (packet : List ℕ)
    → (w w' : World E HolepunchSession) → IsLawful mac
    → length w.self.session_key ≡ 32
    → build_punch_packet mac w.self ≡ some packet
    → respond mac candidates w ≡ (done a, w')
    → Heard a packet w.inbox
      × (older : List (SocketAddr × List ℕ)) × (w'.sent ≡ (a, packet) ∷ older)
unfolding respond listen timeout
respond_sound {E} mac [] a packet w w' law size built e = ground arith
respond_sound {E} mac (c ∷ cs) a packet w w' law size built e =
    let (_, v, probed, k) = continue-eq-done _ _ a w' e in
    let f = probe-SendFrame (c ∷ cs) w v probed in
    let (r, u, timed, settled) =
      continue-eq-done (timeout punch_timeout (recv_and_respond mac) v)
        (λ r. lift (settle_response r)) a w' k in
    let run =
      recv_and_respond mac (record v { limit = some (earliest v.limit (v.now + 10_000)) }) in
    let (given, same) = lift-eq-done (settle_response r) u a w' settled in
    let (x, ran, sent) =
      close-eq-done {Err' = HolepunchError E} v.limit (v.now + 10_000) run a u
        (rw (settle_response-ok r a given) at timed) in
    let found =
      recv_and_respond-Answered mac law packet a _ x (rw f.self size) (rw f.self built) ran in
    (rw f.inbox at found.heard, v.sent, rw same (sent ∙ found.sent))
