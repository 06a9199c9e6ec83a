-- ===== src/Dht/Client/Matching.antt =====
-- How `recv_response` matches responses to requests: by the transaction id alone.
use hyperswarm.Base.{
  ℕ, suc, ◌+◌, ◌-◌, ◌≤◌, ◌<◌, ◌≡◌, refl, ◌∙◌, ◌≢◌, max, Option, none, some, List, [], ◌∷◌, ◌++◌,
  String, arith, length, take, same_bytes, same_bytes_iff, Bool-cases, inl, inr,
}
use hyperswarm.Net.{
  World, Event, datagram, recv_error, SocketAddr, ok, err, done, fail, recv_from, take_event,
}
use hyperswarm.Protocol.{KrpcMessage, Bencode, bencode_decode, decode_krpc}
use hyperswarm.Dht.Client.{
  protocol, timed_out, DhtClient, recv_krpc, await_response, recv_response, max_krpc_message_size,
  max_response_attempts,
}

-- What comes at that time is received: it is there already, or comes before the nearest timer
-- fires.
abbrev pub IsDue : Option ℕ → ℕ → ℕ → Type 0
IsDue none now time = Unit
IsDue (some limit) now time = time ≤ max now limit

-- The time when the last of these events is there.
abbrev pub passes : {E : Type 0} → ℕ → List (ℕ × Event E) → ℕ
passes now [] = now
passes now ((time, event) ∷ rest) = passes (max now time) rest

module _ {E : Type 0} (codec : Bencode) where
  -- A datagram that is received and holds a message of another transaction.
  abbrev pub IsStray : List ℕ → Option ℕ → ℕ → ℕ × Event E → Type 0
  IsStray tx_id limit now (time, datagram from bytes) =
      (msg : KrpcMessage) × IsDue limit now time
      × (codec.from_bytes (take max_krpc_message_size bytes) ≡ ok msg)
      × (msg.t ≢ tx_id)
  IsStray tx_id limit now (time, recv_error e) = ⊥

  abbrev pub AllStray : List ℕ → Option ℕ → ℕ → List (ℕ × Event E) → Type 0
  AllStray tx_id limit now [] = Unit
  AllStray tx_id limit now (entry ∷ rest) =
      IsStray tx_id limit now entry × AllStray tx_id limit now rest

  -- A receive of what is due.
  recv_due :
      (limit : Option ℕ) (w : World E DhtClient) (start time : ℕ) (from : SocketAddr)
      → (bytes : List ℕ) (rest : List (ℕ × Event E)) → w.limit ≡ limit
      → w.inbox ≡ (time, datagram from bytes) ∷ rest
      → start ≤ w.now
      → IsDue limit start time
      → recv_from max_krpc_message_size w ≡ (
        done (from, take max_krpc_message_size bytes),
        record w { now = max w.now time; inbox = rest },
      )
  unfolding recv_from take_event
  recv_due none w start time from bytes rest l e b h = ground arith
  recv_due (some limit) w start time from bytes rest l e b h = ground arith

  recv_krpc_ready :
      (w : World E DhtClient) (start time : ℕ) (from : SocketAddr) (bytes : List ℕ)
      → (rest : List (ℕ × Event E)) (msg : KrpcMessage)
      → w.inbox ≡ (time, datagram from bytes) ∷ rest
      → start ≤ w.now
      → IsDue w.limit start time
      → codec.from_bytes (take max_krpc_message_size bytes) ≡ ok msg
      → recv_krpc codec w ≡ (done (from, msg), record w { now = max w.now time; inbox = rest })
  unfolding recv_krpc decode_krpc
  recv_krpc_ready w start time from bytes rest msg e b h d =
      rw (recv_due w.limit w start time from bytes rest refl e b h, d) refl

  recv_krpc_garbage :
      (w : World E DhtClient) (start time : ℕ) (from : SocketAddr) (bytes : List ℕ)
      → (rest : List (ℕ × Event E)) (text : String) → w.inbox ≡ (time, datagram from bytes) ∷ rest
      → start ≤ w.now
      → IsDue w.limit start time
      → codec.from_bytes (take max_krpc_message_size bytes) ≡ err text
      → recv_krpc codec w
        ≡ (fail (protocol (bencode_decode text)), record w { now = max w.now time; inbox = rest })
  unfolding recv_krpc decode_krpc
  recv_krpc_garbage w start time from bytes rest text e b h d =
      rw (recv_due w.limit w start time from bytes rest refl e b h, d) refl

  await_response_hit :
      (n : ℕ) (tx_id : List ℕ) (w : World E DhtClient) (start time : ℕ) (from : SocketAddr)
      → (bytes : List ℕ) (rest : List (ℕ × Event E)) (msg : KrpcMessage)
      → w.inbox ≡ (time, datagram from bytes) ∷ rest
      → start ≤ w.now
      → IsDue w.limit start time
      → codec.from_bytes (take max_krpc_message_size bytes) ≡ ok msg
      → msg.t ≡ tx_id
      → await_response codec (suc n) tx_id w
        ≡ (done msg, record w { now = max w.now time; inbox = rest })
  unfolding await_response
  await_response_hit n tx_id w start time from bytes rest msg e b h d m =
      rw
        (recv_krpc_ready w start time from bytes rest msg e b h d, (same_bytes_iff msg.t tx_id).1 m)

  await_response_miss :
      (n : ℕ) (tx_id : List ℕ) (w : World E DhtClient) (start time : ℕ) (from : SocketAddr)
      → (bytes : List ℕ) (rest : List (ℕ × Event E)) (msg : KrpcMessage)
      → w.inbox ≡ (time, datagram from bytes) ∷ rest
      → start ≤ w.now
      → IsDue w.limit start time
      → codec.from_bytes (take max_krpc_message_size bytes) ≡ ok msg
      → msg.t ≢ tx_id
      → await_response codec (suc n) tx_id w
        ≡ await_response codec n tx_id (record w { now = max w.now time; inbox = rest })
  unfolding await_response
  await_response_miss n tx_id w start time from bytes rest msg e b h d m =
      elim (Bool-cases (same_bytes msg.t tx_id)) [
        | inl same ↦ absurd (m ((same_bytes_iff msg.t tx_id).0 same))
        | inr other ↦ rw (recv_krpc_ready w start time from bytes rest msg e b h d, other)
      ]

  await_response_garbage :
      (n : ℕ) (tx_id : List ℕ) (w : World E DhtClient) (start time : ℕ) (from : SocketAddr)
      → (bytes : List ℕ) (rest : List (ℕ × Event E)) (text : String)
      → w.inbox ≡ (time, datagram from bytes) ∷ rest
      → start ≤ w.now
      → IsDue w.limit start time
      → codec.from_bytes (take max_krpc_message_size bytes) ≡ err text
      → await_response codec (suc n) tx_id w
        ≡ (fail (protocol (bencode_decode text)), record w { now = max w.now time; inbox = rest })
  unfolding await_response
  await_response_garbage n tx_id w start time from bytes rest text e b h d =
      rw (recv_krpc_garbage w start time from bytes rest text e b h d)

  await_response-zero :
      (tx_id : List ℕ) (w : World E DhtClient)
      → await_response codec 0 tx_id w ≡ (fail timed_out, w)
  unfolding await_response
  await_response-zero tx_id w = refl

  -- Strays are skipped, one attempt each.
  pub await_response_strays :
      (n start : ℕ) (tx_id : List ℕ) (strays rest : List (ℕ × Event E)) (w : World E DhtClient)
      → start ≤ w.now
      → AllStray tx_id w.limit start strays
      → w.inbox ≡ strays ++ rest
      → await_response codec (length strays + n) tx_id w
        ≡ await_response codec n tx_id (record w { now = passes w.now strays; inbox = rest })
  await_response_strays n start tx_id [] rest w b h e =
      let count : 0 + n ≡ n = omega arith in rw (count, ← e)
  await_response_strays n start tx_id ((time, datagram from bytes) ∷ strays) rest w b h e =
      let (msg, due, decoded, other) = h.0 in
      let count : suc (length strays) + n ≡ suc (length strays + n) = omega arith in
      rw count (
        await_response_miss _ tx_id w start time from bytes (strays ++ rest) msg e b due decoded
          other
        ∙ await_response_strays n start tx_id strays rest
            (record w { now = max w.now time; inbox = strays ++ rest }) (omega (arith, b)) h.1 refl)
  await_response_strays n start tx_id ((time, recv_error failure) ∷ strays) rest w b h e =
      absurd h.0

  passes-later : (now : ℕ) (events : List (ℕ × Event E)) → now ≤ passes now events
  passes-later now [] = omega arith
  passes-later now ((time, event) ∷ rest) = omega (arith, passes-later (max now time) rest)

  module _ (tx_id : List ℕ) (w : World E DhtClient) (strays rest : List (ℕ × Event E)) (time : ℕ)
      (from : SocketAddr) (bytes : List ℕ)
      (queued : w.inbox ≡ strays ++ ((time, datagram from bytes) ∷ rest))
      (stray : AllStray tx_id w.limit w.now strays) (few : length strays < max_response_attempts)
      (due : IsDue w.limit w.now time) where
    -- Of messages that are there at the call or come before the nearest timer around it fires, if
    -- there is one: behind fewer than ten messages of other transactions, the first message that
    -- carries the transaction id is the response, from whatever address it comes and whatever its
    -- type is. It is returned when it and those before it have come; the messages before it are
    -- dropped, and what is behind it stays.
    pub recv_response_first :
        (msg : KrpcMessage)
        → codec.from_bytes (take max_krpc_message_size bytes) ≡ ok msg
        → msg.t ≡ tx_id
        → recv_response codec tx_id w
          ≡ (done msg, record w { now = max (passes w.now strays) time; inbox = rest })
    unfolding recv_response
    recv_response_first msg decoded same =
        let left : max_response_attempts ≡ length strays + suc (9 - length strays) = omega arith in
        rw left (
          await_response_strays (suc (9 - length strays)) w.now tx_id strays _ w (omega arith) stray
            queued
          ∙ await_response_hit (9 - length strays) tx_id _ w.now time from bytes rest msg refl
              (passes-later w.now strays) due decoded same)

    -- Behind fewer than ten messages of other transactions, and all of them there at the call or
    -- come before the nearest timer around it fires, if there is one: a datagram that is no message
    -- ends the wait with an error when it has come, whether or not attempts and time are left.
    pub recv_response_garbage :
        (text : String)
        → codec.from_bytes (take max_krpc_message_size bytes) ≡ err text
        → recv_response codec tx_id w ≡ (
          fail (protocol (bencode_decode text)),
          record w { now = max (passes w.now strays) time; inbox = rest },
        )
    unfolding recv_response
    recv_response_garbage text garbage =
        let left : max_response_attempts ≡ length strays + suc (9 - length strays) = omega arith in
        rw left (
          await_response_strays (suc (9 - length strays)) w.now tx_id strays _ w (omega arith) stray
            queued
          ∙ await_response_garbage (9 - length strays) tx_id _ w.now time from bytes rest text refl
              (passes-later w.now strays) due garbage)

  -- Ten messages of other transactions use up the attempts.
  pub recv_response_exhausted :
      (tx_id : List ℕ) (w : World E DhtClient) (strays rest : List (ℕ × Event E))
      → w.inbox ≡ strays ++ rest
      → AllStray tx_id w.limit w.now strays
      → length strays ≡ max_response_attempts
      → recv_response codec tx_id w
        ≡ (fail timed_out, record w { now = passes w.now strays; inbox = rest })
  unfolding recv_response
  recv_response_exhausted tx_id w strays rest queued stray many =
      let left : max_response_attempts ≡ length strays + 0 = omega arith in
      rw left (
        await_response_strays 0 w.now tx_id strays rest w (omega arith) stray queued
        ∙ await_response-zero tx_id _)
