-- ===== src/Suite/Discovery/Waits.antt =====
-- What a query meets on a socket with nothing in it, or with one message.
use hyperswarm.Base.{
  ℕ, suc, ◌+◌, ◌≤◌, ◌<◌, ◌≡◌, refl, ap, leb, is_empty, ◌≢◌, max, false, Option, none, some, List,
  [], ◌∷◌, arith, take,
}
use hyperswarm.Net.{
  Outcome, M, continue, close, reflect, World, Event, datagram, SocketAddr, Result, ok, done, fail,
  elapsed, earliest, timeout, timeout_or, recv_from, take_event, send_to,
}
use hyperswarm.Protocol.{KrpcMessage, KrpcQueryKind, KrpcArgs, Bencode, default_args, encode_krpc}
use hyperswarm.Dht.Table.{NodeInfo}
use hyperswarm.Dht.Client.{
  DhtClient, timed_out, advance, transaction_id, get_transaction_id, send_krpc, recv_krpc,
  await_response, recv_response, max_krpc_message_size,
}
use hyperswarm.Dht.Client.Matching.{await_response_strays, recv_response_first}
use hyperswarm.Dht.Query.Answers.{after_query}
use hyperswarm.Dht.Query.{response_peers, exchange, query_message, get_peers}
use hyperswarm.Dht.Topics.{
  topic_nodes, announce, announce_to, announce_with, bootstrap_if_empty, lookup, gather,
}

-- The query for a topic that a client sends next.
abbrev pub next_get_peers : DhtClient → List ℕ → KrpcMessage
next_get_peers c topic =
    query_message (transaction_id c) KrpcQueryKind.get_peers
      (record default_args { id = some c.node_id; info_hash = some topic })

module _ {E S Err X Y : Type 0} where
  -- An outer timer that fires before an inner one ends the function.
  outer_elapses :
      (outer : Option ℕ) (deadline last : ℕ) (r : Outcome Err X × World E S)
      → (f : Option (Result Err X) → M E S Err Y) → outer ≡ some last
      → last < deadline
      → r.0 ≡ elapsed
      → (continue (close outer deadline r) f).0 ≡ elapsed
  outer_elapses outer deadline last (o, v) f l h e =
      let late : leb deadline last ≡ false = ground arith in rw (e, l, late) refl

  continue-elapsed :
      (r : Outcome Err X × World E S) (f : X → M E S Err Y)
      → r.0 ≡ elapsed
      → (continue r f).0 ≡ elapsed
  continue-elapsed (o, v) f e = rw e refl

  attempt-elapsed :
      (r : Outcome Err X × World E S) (f : Result Err X → M E S Err Y)
      → r.0 ≡ elapsed
      → (continue (reflect r) f).0 ≡ elapsed
  attempt-elapsed (o, v) f e = rw e refl

module _ {E : Type 0} (codec : Bencode) where
  -- The client after a query has gone out and five seconds have passed.
  abbrev pub unanswered : World E DhtClient → SocketAddr → List ℕ → World E DhtClient
  unanswered w addr bytes = record w {
    now = max w.now (w.now + 5000);
    inbox = [];
    sends = [];
    sent = (addr, bytes) ∷ w.sent;
    self = advance w.self;
  }

  exchange-unanswered :
      (addr : SocketAddr) (kind : KrpcQueryKind) (args : KrpcArgs) (bytes : List ℕ)
      → (w : World E DhtClient) → w.limit ≡ none
      → w.inbox ≡ []
      → w.sends ≡ []
      → codec.to_bytes
          (query_message (transaction_id w.self) kind (record args { id = some w.self.node_id }))
        ≡ ok bytes
      → exchange codec addr kind args w ≡ (fail timed_out, unanswered w addr bytes)
  unfolding exchange get_transaction_id send_krpc send_to encode_krpc timeout_or timeout
      recv_response await_response recv_krpc recv_from take_event advance
  exchange-unanswered addr kind args bytes w free empty sends encoded =
      rw (encoded, sends, empty, free) refl

  -- A message with the transaction id is there already. Whatever timer runs.
  exchange_heard :
      (addr : SocketAddr) (kind : KrpcQueryKind) (args : KrpcArgs) (bytes : List ℕ) (time : ℕ)
      → (from : SocketAddr) (heard : List ℕ) (rest : List (ℕ × Event E)) (msg : KrpcMessage)
      → (w : World E DhtClient) → w.inbox ≡ (time, datagram from heard) ∷ rest
      → time ≤ w.now
      → w.sends ≡ []
      → codec.to_bytes
          (query_message (transaction_id w.self) kind (record args { id = some w.self.node_id }))
        ≡ ok bytes
      → codec.from_bytes (take max_krpc_message_size heard) ≡ ok msg
      → msg.t ≡ transaction_id w.self
      → exchange codec addr kind args w ≡ (done msg, after_query codec w w.now rest addr bytes)
  unfolding exchange get_transaction_id send_krpc send_to encode_krpc timeout_or timeout advance
  exchange_heard addr kind args bytes time from heard rest msg w queue arrived sends encoded decoded
        same =
      let u = record w {
        limit = some (earliest w.limit (w.now + 5000));
        sends = [];
        sent = (addr, bytes) ∷ w.sent;
        self = advance w.self;
      } in
      let came =
        recv_response_first codec (transaction_id w.self) u [] rest time from heard queue tt
          (omega arith) (omega (arith, arrived)) msg decoded same in
      let at_once : max w.now time ≡ w.now = omega (arith, arrived) in
      rw (encoded, sends, came, at_once) refl

  await_elapses :
      (n last : ℕ) (tx_id : List ℕ) (w : World E DhtClient)
      → w.limit ≡ some last
      → w.inbox ≡ []
      → (await_response codec (suc n) tx_id w).0 ≡ elapsed
  unfolding await_response recv_krpc recv_from take_event
  await_elapses n last tx_id w l i = rw (i, l) refl

  -- The one message that is there has another id, and a timer fires before the query's own.
  exchange_elapses :
      (addr : SocketAddr) (kind : KrpcQueryKind) (args : KrpcArgs) (bytes : List ℕ) (time last : ℕ)
      → (from : SocketAddr) (heard : List ℕ) (msg : KrpcMessage) (w : World E DhtClient)
      → w.inbox ≡ (time, datagram from heard) ∷ []
      → time ≤ w.now
      → w.sends ≡ []
      → codec.to_bytes
          (query_message (transaction_id w.self) kind (record args { id = some w.self.node_id }))
        ≡ ok bytes
      → codec.from_bytes (take max_krpc_message_size heard) ≡ ok msg
      → msg.t ≢ transaction_id w.self
      → w.limit ≡ some last
      → last < w.now + 5000
      → (exchange codec addr kind args w).0 ≡ elapsed
  unfolding exchange get_transaction_id send_krpc send_to encode_krpc timeout_or timeout advance
      recv_response
  exchange_elapses addr kind args bytes time last from heard msg w queue arrived sends encoded
        decoded other limited soon =
      let u = record w {
        limit = some (earliest w.limit (w.now + 5000));
        sends = [];
        sent = (addr, bytes) ∷ w.sent;
        self = advance w.self;
      } in
      let passed =
        await_response_strays codec 9 w.now (transaction_id w.self)
          ((time, datagram from heard) ∷ []) [] u (omega arith)
          ((msg, omega (arith, arrived), decoded, other), tt) queue in
      let spent =
        await_elapses 8 _ (transaction_id w.self) (record u { now = max w.now time; inbox = [] })
          refl refl in
      rw (encoded, sends, passed) (outer_elapses w.limit (w.now + 5000) last _ _ limited soon spent)

module _ {E : Type 0} (codec : Bencode) (topic : List ℕ) (node : NodeInfo) (raw : List ℕ)
    (w : World E DhtClient) (known : topic_nodes w.self ≡ node ∷ [])
    (encoded : codec.to_bytes (next_get_peers w.self topic) ≡ ok raw) (sends : w.sends ≡ []) where
  known_first : bootstrap_if_empty codec w ≡ (done tt, w)
  unfolding bootstrap_if_empty
  known_first = rw (ap is_empty known) refl

  -- Nobody answers.
  pub announce-unanswered :
      (port : ℕ)
      → w.limit ≡ none
      → w.inbox ≡ []
      → announce codec topic port w ≡ (done tt, unanswered codec w node.addr raw)
  unfolding announce announce_to announce_with get_peers
  announce-unanswered port free empty =
      rw
        (
          known_first,
          known,
          exchange-unanswered codec node.addr KrpcQueryKind.get_peers
              (record default_args { info_hash = some topic }) raw w free empty sends encoded,
        )
        refl

  -- A message with the next transaction id is there already. Whatever timer runs.
  pub lookup_heard :
      (time : ℕ) (from : SocketAddr) (bytes : List ℕ) (rest : List (ℕ × Event E))
      (msg : KrpcMessage)
      → w.inbox ≡ (time, datagram from bytes) ∷ rest
      → time ≤ w.now
      → codec.from_bytes (take max_krpc_message_size bytes) ≡ ok msg
      → msg.t ≡ transaction_id w.self
      → (lookup codec topic w).0 ≡ done (response_peers msg.r).0
  unfolding lookup gather get_peers
  lookup_heard time from bytes rest msg queue arrived decoded same =
      let came =
        exchange_heard codec node.addr KrpcQueryKind.get_peers
          (record default_args { info_hash = some topic }) raw time from bytes rest msg w queue
          arrived sends encoded decoded same in
      rw (known_first, known, came) refl

  pub lookup_elapses :
      (time last : ℕ) (from : SocketAddr) (bytes : List ℕ) (msg : KrpcMessage)
      → w.inbox ≡ (time, datagram from bytes) ∷ []
      → time ≤ w.now
      → codec.from_bytes (take max_krpc_message_size bytes) ≡ ok msg
      → msg.t ≢ transaction_id w.self
      → w.limit ≡ some last
      → last < w.now + 5000
      → (lookup codec topic w).0 ≡ elapsed
  unfolding lookup gather get_peers
  lookup_elapses time last from bytes msg queue arrived decoded other limited soon =
      let waited =
        exchange_elapses codec node.addr KrpcQueryKind.get_peers
          (record default_args { info_hash = some topic }) raw time last from bytes msg w queue
          arrived sends encoded decoded other limited soon in
      rw (known_first, known) (attempt-elapsed _ _ (continue-elapsed _ _ waited))
