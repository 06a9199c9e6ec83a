-- ===== src/Dht/Query/Answers.antt =====
-- Queries that are answered in time.
use hyperswarm.Base.{
  ℕ, zero, suc, ◌+◌, ◌≤◌, ◌<◌, max, ◌≡◌, refl, ◌≢◌, none, some, List, [], ◌∷◌, ◌++◌, arith, length,
  take, same_bytes, same_bytes_iff, Bool-cases, inl, inr,
}
use hyperswarm.Net.{
  World, Event, datagram, recv_error, SocketAddr, ok, done, recv_from, take_event, timeout,
  timeout_or, send_to,
}
use hyperswarm.Protocol.{KrpcMessage, KrpcQueryKind, KrpcArgs, Bencode, encode_krpc, decode_krpc}
use hyperswarm.Dht.Client.{
  DhtClient, advance, transaction_id, get_transaction_id, send_krpc, recv_krpc, await_response,
  recv_response, max_krpc_message_size, max_response_attempts, timed_out,
}
use hyperswarm.Dht.Query.{exchange, query_message, response_timeout}

module _ {E : Type 0} (codec : Bencode) where
  -- Datagrams that come by the time `last` and hold messages of other transactions.
  abbrev pub AllStrayBy : List ℕ → ℕ → List (ℕ × Event E) → Type 0
  AllStrayBy tx_id last [] = Unit
  AllStrayBy tx_id last ((time, datagram from bytes) ∷ rest) =
      ((msg : KrpcMessage) × (time ≤ last)
        × (codec.from_bytes (take max_krpc_message_size bytes) ≡ ok msg)
        × (msg.t ≢ tx_id))
      × AllStrayBy tx_id last rest
  AllStrayBy tx_id last ((time, recv_error e) ∷ rest) = ⊥

  -- An inbox with an answer: behind fewer than ten strays, a datagram by the time `last` with a
  -- message of the transaction. `rest` is left behind it.
  pub record Answer (tx_id : List ℕ) (last : ℕ) (inbox rest : List (ℕ × Event E))
      (response : KrpcMessage) : Type 0 where
    pub strays : List (ℕ × Event E)
    pub time : ℕ
    pub from : SocketAddr
    pub bytes : List ℕ
    pub queue : inbox ≡ strays ++ (time, datagram from bytes) ∷ rest
    pub stray : AllStrayBy tx_id last strays
    pub few : length strays < max_response_attempts
    pub soon : time ≤ last
    pub decoded : codec.from_bytes (take max_krpc_message_size bytes) ≡ ok response
    pub own : response.t ≡ tx_id

  recv_krpc_within :
      (w : World E DhtClient) (last time : ℕ) (from : SocketAddr) (bytes : List ℕ)
      → (rest : List (ℕ × Event E)) (msg : KrpcMessage) → w.limit ≡ some last
      → w.inbox ≡ (time, datagram from bytes) ∷ rest
      → time ≤ last
      → codec.from_bytes (take max_krpc_message_size bytes) ≡ ok msg
      → recv_krpc codec w ≡ (done (from, msg), record w { now = max w.now time; inbox = rest })
  unfolding recv_krpc recv_from take_event decode_krpc
  recv_krpc_within w last time from bytes rest msg l i h d = ground arith

  -- Under a timer that fires at `last`.
  await_response_within :
      (n last : ℕ) (tx_id : List ℕ) (strays rest : List (ℕ × Event E)) (time : ℕ)
      → (from : SocketAddr) (bytes : List ℕ) (msg : KrpcMessage) (w : World E DhtClient)
      → w.limit ≡ some last
      → w.inbox ≡ strays ++ (time, datagram from bytes) ∷ rest
      → AllStrayBy tx_id last strays
      → time ≤ last
      → codec.from_bytes (take max_krpc_message_size bytes) ≡ ok msg
      → msg.t ≡ tx_id
      → length strays < n
      → (now : ℕ) × (w.now ≤ now)
        × (await_response codec n tx_id w ≡ (done msg, record w { now = now; inbox = rest }))
  unfolding await_response
  await_response_within zero last tx_id strays rest time from bytes msg w l i stray soon d m few =
      absurd (omega arith)
  await_response_within (suc n) last tx_id [] rest time from bytes msg w l i stray soon d m few = (
    max w.now time,
    omega arith,
    rw
        (
          recv_krpc_within w last time from bytes rest msg l i soon d,
          (same_bytes_iff msg.t tx_id).1 m,
        )
        refl,
  )
  await_response_within (suc n) last tx_id ((t, recv_error e) ∷ strays) rest time from bytes msg w l
        i stray soon d m few =
      absurd stray
  await_response_within (suc n) last tx_id ((t, datagram a b) ∷ strays) rest time from bytes msg w l
        i stray soon d m few =
      let (other, came, decoded, differs) = stray.0 in
      let behind = strays ++ (time, datagram from bytes) ∷ rest in
      let v = record w { now = max w.now t; inbox = behind } in
      let (now, later, e) =
        await_response_within n last tx_id strays rest time from bytes msg v l refl stray.1 soon d m
          (omega arith) in
      elim (Bool-cases (same_bytes other.t tx_id)) [
        | inl same ↦ absurd (differs ((same_bytes_iff other.t tx_id).0 same))
        | inr not ↦ (
          now,
          omega arith,
          rw (recv_krpc_within w last t a b behind other l i came decoded, not) e,
        )
      ]

  -- With no timer around it.
  wait-Answer :
      (tx_id : List ℕ) (w : World E DhtClient) (rest : List (ℕ × Event E)) (response : KrpcMessage)
      → w.limit ≡ none
      → Answer tx_id (w.now + 5000) w.inbox rest response
      → (now : ℕ) × (w.now ≤ now)
        × (timeout_or response_timeout timed_out (recv_response codec tx_id) w
            ≡ (done response, record w { now = now; inbox = rest }))
  unfolding timeout_or timeout recv_response
  wait-Answer tx_id w rest response l a =
      let limited = record w { limit = some (w.now + 5000) } in
      let (now, later, e) =
        await_response_within 10 (w.now + 5000) tx_id a.strays rest a.time a.from a.bytes response
          limited refl a.queue a.stray a.soon a.decoded a.own a.few in
      (now, later, rw (l, e) refl)

  -- The client after a query has gone out and its answer has come in.
  abbrev pub after_query :
      World E DhtClient → ℕ → List (ℕ × Event E) → SocketAddr → List ℕ → World E DhtClient
  after_query w now rest addr bytes = record w {
    now = now;
    inbox = rest;
    sends = [];
    sent = (addr, bytes) ∷ w.sent;
    self = advance w.self;
  }

  -- A query that can be sent and is answered within five seconds, behind fewer than ten strays.
  pub exchange_answered :
      (addr : SocketAddr) (kind : KrpcQueryKind) (args : KrpcArgs) (bytes : List ℕ)
      → (rest : List (ℕ × Event E)) (response : KrpcMessage) (w : World E DhtClient)
      → w.limit ≡ none
      → w.sends ≡ []
      → codec.to_bytes
          (query_message (transaction_id w.self) kind (record args { id = some w.self.node_id }))
        ≡ ok bytes
      → Answer (transaction_id w.self) (w.now + 5000) w.inbox rest response
      → (now : ℕ) × (w.now ≤ now)
        × (exchange codec addr kind args w ≡ (done response, after_query w now rest addr bytes))
  unfolding exchange get_transaction_id send_krpc send_to encode_krpc advance
  exchange_answered addr kind args bytes rest response w l s encoded a =
      let u = record w { sends = []; sent = (addr, bytes) ∷ w.sent; self = advance w.self } in
      let (now, later, e) = wait-Answer (transaction_id w.self) u rest response l a in
      (now, later, rw (encoded, s, e) refl)
