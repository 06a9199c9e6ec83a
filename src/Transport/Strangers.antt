-- ===== src/Transport/Strangers.antt =====
-- What strangers send has no influence on what `recv` gives.
use mathlib.Core.Path.{ap₂}
use hyperswarm.Base.{
  ℕ, zero, suc, max, ◌<◌, ◌≡◌, refl, ◌∙◌, sym, ap, none, List, [], ◌∷◌, arith, length, take,
  Bool-cases, inl, inr, if◌then◌else◌, String,
}
use hyperswarm.Net.{
  World, Outcome, done, fail, elapsed, pending, panicked, Event, datagram, recv_error, SocketAddr,
  same_addr, Result, ok, err, continue, lift, recv_from, take_event,
}
use hyperswarm.Net.Receive.{recv_from_next}
use hyperswarm.Protocol.{map_error}
use hyperswarm.Transport.{
  Noise, EncryptedStream, StreamState, handshaking, established, TransportError, io, noise,
  handshake_incomplete, max_message_size, recv, recv_rounds, receive_from, decrypt,
}

module _ {E : Type 0} where
  -- The events without the datagrams of strangers.
  abbrev pub without_strangers : SocketAddr → List (ℕ × Event E) → List (ℕ × Event E)
  without_strangers addr [] = []
  without_strangers addr ((t, datagram from raw) ∷ rest) =
      let others = without_strangers addr rest in
      if same_addr from addr then (t, datagram from raw) ∷ others else others
  without_strangers addr ((t, recv_error e) ∷ rest) =
      (t, recv_error e) ∷ without_strangers addr rest

  -- The first datagram of the peer, or what keeps it from being received.
  abbrev first_own : SocketAddr → List (ℕ × Event E) → Outcome (TransportError E) (List ℕ)
  first_own addr [] = pending
  first_own addr ((t, datagram from raw) ∷ rest) =
      let later = first_own addr rest in
      if same_addr from addr then done (take max_message_size raw) else later
  first_own addr ((t, recv_error e) ∷ rest) = fail (io e)

  first_own-without_strangers :
      (addr : SocketAddr) (inbox : List (ℕ × Event E))
      → first_own addr (without_strangers addr inbox) ≡ first_own addr inbox
  first_own-without_strangers addr [] = refl
  first_own-without_strangers addr ((t, recv_error e) ∷ rest) = refl
  first_own-without_strangers addr ((t, datagram from raw) ∷ rest) =
      let ih = first_own-without_strangers addr rest in
      elim (Bool-cases (same_addr from addr)) [ inl s ↦ rw (s, s) refl | inr s ↦ rw s ih ]

module _ {E S : Type 0} where
  recv_from-none :
      (size : ℕ) (w : World E S) → w.limit ≡ none → w.inbox ≡ [] → recv_from size w ≡ (pending, w)
  unfolding recv_from take_event
  recv_from-none size w l i = ground arith

  recv_from_broken :
      (size time : ℕ) (e : E) (rest : List (ℕ × Event E)) (w : World E S)
      → w.limit ≡ none
      → w.inbox ≡ (time, recv_error e) ∷ rest
      → recv_from size w ≡ (fail e, record w { now = max w.now time; inbox = rest })
  unfolding recv_from take_event
  recv_from_broken size time e rest w l i = ground arith

module _ (n : Noise) {E : Type 0} where
  recv_rounds-first_own :
      (rounds : ℕ) (inbox : List (ℕ × Event E)) (w : World E (EncryptedStream n))
      → w.limit ≡ none
      → w.inbox ≡ inbox
      → length inbox < rounds
      → ((recv_rounds n rounds w).0 ≡ first_own w.self.remote_addr inbox)
        × ((recv_rounds n rounds w).1.self ≡ w.self)
  unfolding recv_rounds
  recv_rounds-first_own zero inbox w l i room = absurd (omega arith)
  recv_rounds-first_own (suc rounds) [] w l i room =
      rw (recv_from-none max_message_size w l i) (refl, refl)
  recv_rounds-first_own (suc rounds) ((t, recv_error e) ∷ rest) w l i room =
      rw (recv_from_broken max_message_size t e rest w l i) (refl, refl)
  recv_rounds-first_own (suc rounds) ((t, datagram from raw) ∷ rest) w l i room =
      let next = recv_from_next max_message_size t from raw rest w l i in
      let v = record w { now = max w.now t; inbox = rest } in
      let ih = recv_rounds-first_own rounds rest v l refl (omega arith) in
      elim (Bool-cases (same_addr from w.self.remote_addr)) [
        | inl s ↦ rw (next, s) (refl, refl)
        | inr s ↦ rw (next, s) ih
      ]

  -- What is made of a first outcome, and of the stream.
  abbrev opened :
      n.TransportState
      → Outcome (TransportError E) (List ℕ)
      → EncryptedStream n
      → Outcome (TransportError E) (List ℕ) × EncryptedStream n
  opened t (done raw) s = (
    elim (n.read_message t raw).1 [ ok plaintext ↦ done plaintext | err text ↦ fail (noise text) ],
    record s { state = established (n.read_message t raw).0 },
  )
  opened t (fail e) s = (fail e, s)
  opened t elapsed s = (elapsed, s)
  opened t pending s = (pending, s)
  opened t panicked s = (panicked, s)

  -- What a caller can see of a run.
  abbrev seen :
      Outcome (TransportError E) (List ℕ) × World E (EncryptedStream n)
      → Outcome (TransportError E) (List ℕ) × EncryptedStream n
  seen r = (r.0, r.1.self)

  lift-seen :
      (r : Result String (List ℕ)) (w : World E (EncryptedStream n))
      → seen (lift (map_error noise r) w) ≡ (
        elim r as (λ _. Outcome (TransportError E) (List ℕ)) [
          | ok plaintext ↦ done plaintext
          | err text ↦ fail (noise text)
        ],
        w.self,
      )
  lift-seen (ok plaintext) w = refl
  lift-seen (err text) w = refl

  decrypt-seen :
      (t : n.TransportState) (r : Outcome (TransportError E) (List ℕ) × World E (EncryptedStream n))
      → seen (continue r (decrypt n t)) ≡ opened t r.0 r.1.self
  decrypt-seen t (done raw, w) = lift-seen (n.read_message t raw).1 _
  decrypt-seen t (fail e, w) = refl
  decrypt-seen t (elapsed, w) = refl
  decrypt-seen t (pending, w) = refl
  decrypt-seen t (panicked, w) = refl

  -- On every stream, what `recv` gives is a function of the first event that is not a stranger's.
  abbrev received :
      StreamState n
      → List (ℕ × Event E)
      → EncryptedStream n
      → Outcome (TransportError E) (List ℕ) × EncryptedStream n
  received (handshaking h) inbox s = (fail handshake_incomplete, s)
  received (established t) inbox s = opened t (first_own s.remote_addr inbox) s

  receive_from-received :
      (state : StreamState n) (w : World E (EncryptedStream n))
      → w.limit ≡ none
      → seen (receive_from n state w) ≡ received state w.inbox w.self
  receive_from-received (handshaking h) w l = refl
  receive_from-received (established t) w l =
      let (outcome, self) = recv_rounds-first_own _ w.inbox w l refl (omega arith) in
      decrypt-seen t (recv_rounds n (suc (length w.inbox)) w) ∙ ap₂ (opened t) outcome self

  received-without_strangers :
      (state : StreamState n) (inbox : List (ℕ × Event E)) (s : EncryptedStream n)
      → received state (without_strangers s.remote_addr inbox) s ≡ received state inbox s
  received-without_strangers (handshaking h) inbox s = refl
  received-without_strangers (established t) inbox s =
      ap (λ o. opened t o s) (first_own-without_strangers s.remote_addr inbox)

  -- With no timer around it, and whatever the stream's state, `recv` has the same outcome and
  -- leaves the same stream as on an inbox from which all datagrams of strangers are taken out.
  pub recv-without_strangers :
      (w : World E (EncryptedStream n))
      → w.limit ≡ none
      → ((recv n w).0
          ≡ (recv n (record w { inbox = without_strangers w.self.remote_addr w.inbox })).0)
        × ((recv n w).1.self
            ≡ (recv n (record w { inbox = without_strangers w.self.remote_addr w.inbox })).1.self)
  unfolding recv
  recv-without_strangers w l =
      let v = record w { inbox = without_strangers w.self.remote_addr w.inbox } in
      let same : seen (recv n w) ≡ seen (recv n v) =
        receive_from-received w.self.state w l
        ∙ sym (received-without_strangers w.self.state w.inbox w.self)
        ∙ sym (receive_from-received w.self.state v l) in
      (ap (λ r. r.0) same, ap (λ r. r.1) same)
