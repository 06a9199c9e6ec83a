-- ===== src/Holepunch/Session/Sends.antt =====
-- What `punch_to` sends: its packet, again and again.
use hyperswarm.Base.{
  ℕ, zero, suc, ◌+◌, ◌*◌, ◌≤◌, take, ◌≡◌, refl, ap, ◌∙◌, true, false, Option, none, some, List, [],
  ◌∷◌, ◌++◌, arith, length, length-append, leb, Bool-cases, Option-cases, inl, inr,
}
use hyperswarm.Net.{
  Outcome, done, fail, elapsed, pending, panicked, Result, World, M, SocketAddr, same_addr,
  continue, convert, send_as, send_to,
}
use hyperswarm.Net.Select.{select_recv-sent, select_recv-Received}
use hyperswarm.Net.Receive.{Received, late, heard, broken}
use hyperswarm.Holepunch.Packet.{
  Blake2s, HolepunchSession, has_punch_message, build_punch_packet, verify_punch_packet,
}
use hyperswarm.Holepunch.Session.{
  HolepunchError, io, punch_buffer_size, punch_duration, check_packet, on_select, punch_round,
  punch_loop, punch_within, punch_to,
}

-- So many copies of a datagram.
abbrev pub again : ℕ → SocketAddr × List ℕ → List (SocketAddr × List ℕ)
again zero d = []
again (suc k) d = d ∷ again k d

again-cons :
    (k : ℕ) (d : SocketAddr × List ℕ) (s : List (SocketAddr × List ℕ))
    → again k d ++ (d ∷ s) ≡ again (suc k) d ++ s
again-cons zero d s = refl
again-cons (suc k) d s = ap (d ∷◌) (again-cons k d s)

length-again : (k : ℕ) (d : SocketAddr × List ℕ) → length (again k d) ≡ k
length-again zero d = refl
length-again (suc k) d = ap suc (length-again k d)

module _ {x y : SocketAddr × List ℕ} {xs ys : List (SocketAddr × List ℕ)} where
  head_same : ◌≡◌ {A = List (SocketAddr × List ℕ)} (x ∷ xs) (y ∷ ys) → x ≡ y
  head_same e = ground arith

  tail_same : ◌≡◌ {A = List (SocketAddr × List ℕ)} (x ∷ xs) (y ∷ ys) → xs ≡ ys
  tail_same e = ground arith

-- What was sent in between is one of the copies.
pub one_of_again :
    (k : ℕ) (d x : SocketAddr × List ℕ) (later earlier s : List (SocketAddr × List ℕ))
    → later ++ x ∷ (earlier ++ s) ≡ again k d ++ s
    → x ≡ d
one_of_again zero d x later earlier s e =
    absurd (
      omega (arith, ap length e, length-append later (x ∷ (earlier ++ s)), length-append earlier s))
one_of_again (suc k) d x [] earlier s e = head_same e
one_of_again (suc k) d x (y ∷ later) earlier s e = one_of_again k d x later earlier s (tail_same e)

module _ {E S Err X : Type 0} (d : SocketAddr × List ℕ) (most : ℕ) where
  -- A run that sends that datagram alone, so many times at most.
  abbrev pub Repeats : List (SocketAddr × List ℕ) → Outcome Err X × World E S → Type 0
  Repeats s r = (k : ℕ) × (k ≤ most) × (r.1.sent ≡ again k d ++ s)

module _ {E S Err X Y : Type 0} (d : SocketAddr × List ℕ) (most : ℕ) where
  continue-Repeats :
      (s : List (SocketAddr × List ℕ)) (r : Outcome Err X × World E S) (f : X → M E S Err Y)
      → r.1.sent ≡ s
      → ((x : X) (v : World E S) → r ≡ (done x, v) → v.sent ≡ s → Repeats d most s (f x v))
      → Repeats d most s (continue r f)
  continue-Repeats s (done x, v) f e h = h x v refl e
  continue-Repeats s (fail x, v) f e h = (0, omega arith, e)
  continue-Repeats s (elapsed, v) f e h = (0, omega arith, e)
  continue-Repeats s (pending, v) f e h = (0, omega arith, e)
  continue-Repeats s (panicked, v) f e h = (0, omega arith, e)

module _ {E : Type 0} (mac : Blake2s) (addr : SocketAddr) (packet : List ℕ) where
  -- A send of the packet, and a rest of that kind.
  send-Repeats :
      (most : ℕ) (next : M E HolepunchSession (HolepunchError E) SocketAddr)
      → (fates : List (Option E)) (w : World E HolepunchSession)
      → ((v : World E HolepunchSession)
          → v.now ≡ w.now
          → Repeats (addr, packet) most v.sent (next v))
      → Repeats
          (addr, packet)
          (suc most)
          w.sent
          (continue (convert io (send_as fates packet addr w)) (λ _. next))
  send-Repeats most next [] w h =
      let (k, few, e) = h (record w { sent = (addr, packet) ∷ w.sent }) refl in
      (suc k, omega (arith, few), e ∙ again-cons k (addr, packet) w.sent)
  send-Repeats most next (none ∷ fates) w h =
      let (k, few, e) = h (record w { sends = fates; sent = (addr, packet) ∷ w.sent }) refl in
      (suc k, omega (arith, few), e ∙ again-cons k (addr, packet) w.sent)
  send-Repeats most next (some failure ∷ fates) w h = (0, omega arith, refl)

  check_packet-Repeats :
      (most : ℕ) (next : M E HolepunchSession (HolepunchError E) SocketAddr)
      → (bytes : List ℕ) (w : World E HolepunchSession)
      → Repeats (addr, packet) most w.sent (next w)
      → Repeats (addr, packet) most w.sent (check_packet mac addr next bytes w)
  unfolding check_packet
  check_packet-Repeats most next bytes w h =
      elim (Option-cases (verify_punch_packet mac w.self bytes)) [
        | inl e ↦ rw e (0, omega arith, refl)
        | inr (true, e) ↦ rw e (0, omega arith, refl)
        | inr (false, e) ↦ elim (Bool-cases (has_punch_message bytes)) [
          | inl p ↦ rw (e, p) (0, omega arith, refl)
          | inr p ↦ rw (e, p) h
        ]
      ]

  -- One turn of the loop, with one send less when the sleep was taken.
  on_select-Repeats :
      (most deadline : ℕ) (next : M E HolepunchSession (HolepunchError E) SocketAddr)
      → ((t : ℕ) (v : World E HolepunchSession)
          → deadline ≤ v.now + 200 * t
          → Repeats (addr, packet) t v.sent (next v))
      → (w : World E HolepunchSession) → deadline ≤ w.now + 200 * suc most
      → (x : Option (Result E (SocketAddr × List ℕ))) (v : World E HolepunchSession)
      → Received 200 punch_buffer_size w x v
      → Repeats (addr, packet) (suc most) v.sent (on_select mac packet addr next x v)
  unfolding on_select send_to
  on_select-Repeats most deadline next h w left x v (late e n i) =
      rw e (send-Repeats most next v.sends v λ u same. h most u (omega (arith, left, n, same)))
  on_select-Repeats most deadline next h w left x v (heard time from bytes e i n) =
      let rest = h (suc most) v (omega (arith, left, n)) in
      elim (Bool-cases (same_addr from addr)) [
        | inl s ↦
            rw (e, s) (check_packet-Repeats (suc most) next (take punch_buffer_size bytes) v rest)
        | inr s ↦ rw (e, s) rest
      ]
  on_select-Repeats most deadline next h w left x v (broken time failure e i n) =
      rw e (0, omega arith, refl)

  punch_loop-Repeats :
      (rounds most deadline : ℕ) (w : World E HolepunchSession)
      → deadline ≤ w.now + 200 * most
      → Repeats (addr, packet) most w.sent (punch_loop mac rounds packet deadline addr w)
  unfolding punch_loop punch_round
  punch_loop-Repeats zero most deadline w left = (0, omega arith, refl)
  punch_loop-Repeats (suc rounds) zero deadline w left =
      let past : leb deadline w.now ≡ true = ground arith in rw past (0, omega arith, refl)
  punch_loop-Repeats (suc rounds) (suc most) deadline w left =
      elim (Bool-cases (leb deadline w.now)) [
        | inl past ↦ rw past (0, omega arith, refl)
        | inr early ↦ rw early (
            continue-Repeats (addr, packet) (suc most) w.sent _ _
              (select_recv-sent (HolepunchError E) 200 _ w)
              λ x v e same.
                let (received, _) = select_recv-Received _ _ _ w x v e in
                let (k, few, more) =
                  on_select-Repeats most deadline (punch_loop mac rounds packet deadline addr)
                    (λ t u. punch_loop-Repeats rounds t deadline u) w left x v received in
                (k, few, more ∙ ap (again k (addr, packet) ++◌) same))
      ]

-- With a packet that can be built: whatever comes, whichever sends fail and however it ends,
-- `punch_to` sends the session's packet to the address that it is asked to punch to, eleven times
-- at most, and nothing else.
pub punch_to-Repeats :
    {E : Type 0} (mac : Blake2s) (addr : SocketAddr) (packet : List ℕ)
    → (w : World E HolepunchSession) → build_punch_packet mac w.self ≡ some packet
    → Repeats (addr, packet) 11 w.sent (punch_to mac addr w)
unfolding punch_to punch_within send_to
punch_to-Repeats mac addr packet w built = rw built (
    send-Repeats mac addr packet 10 _ w.sends w λ v same.
      punch_loop-Repeats mac addr packet _ 10 (w.now + punch_duration) v (omega (arith, same)))
