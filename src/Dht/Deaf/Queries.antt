-- ===== src/Dht/Deaf/Queries.antt =====
-- The queries of a deaf client: none is answered.
use hyperswarm.Base.{
  ℕ, zero, suc, ◌+◌, refl, ◌≢◌, Option, none, some, String, List, same_bytes, Bool-cases, inl, inr,
}
use hyperswarm.Net.{
  World, M, Outcome, done, fail, elapsed, pending, panicked, SocketAddr, Result, ok, err, continue,
  close, lift, settle, timeout, timeout_or, pure, within,
}
use hyperswarm.Net.Drains.{
  Drains, stays-Drains, continue-Drains, convert-Drains, timeout-Drains, lift-Drains, if-Drains,
  recv_from-Drains, send_to-Drains,
}
use hyperswarm.Net.Receive.{recv_from-Took, convert-eq-done}
use hyperswarm.Protocol.{
  KrpcMessage, KrpcQueryKind, KrpcArgs, Bencode, decode_krpc, map_error, bencode_decode,
}
use hyperswarm.Dht.Table.{RoutingTable}
use hyperswarm.Dht.Client.{
  DhtError, io, protocol, timed_out, DhtClient, advance, transaction_id, get_transaction_id,
  send_krpc, recv_krpc, await_response, recv_response, max_krpc_message_size, max_response_attempts,
}
use hyperswarm.Dht.Query.{
  response_timeout, query_message, exchange, ping, find_node, get_peers, announce_peer,
}
use hyperswarm.Dht.Deaf.{
  Deaf, StaysDeaf, NotDone, of_Drains-StaysDeaf, continue-never, continue-NotDone,
}

module _ {E : Type 0} where
  settle-Drains :
      (o : Option (Result (DhtError E) KrpcMessage)) (w : World E DhtClient)
      → Drains w (settle timed_out o w)
  settle-Drains none w = stays-Drains w _ refl refl
  settle-Drains (some r) w = lift-Drains r w

  -- A timer does not make an unfinished wait a response.
  close-NotDone :
      (outer : Option ℕ) (deadline : ℕ)
      → (r : Outcome (DhtError E) KrpcMessage × World E DhtClient) → NotDone r.0
      → NotDone (continue (close {Err' = DhtError E} outer deadline r) (settle timed_out)).0
  close-NotDone outer deadline (done x, v) h = absurd h
  close-NotDone outer deadline (fail e, v) h = tt
  close-NotDone outer deadline (elapsed, v) h = elim (Bool-cases (within outer deadline)) [
    | inl fires ↦ rw fires tt
    | inr outer_fires ↦ rw outer_fires tt
  ]
  close-NotDone outer deadline (pending, v) h = tt
  close-NotDone outer deadline (panicked, v) h = tt

  unread-NotDone :
      (r : Result String KrpcMessage) (w : World E DhtClient)
      → ((msg : KrpcMessage) → r ≢ ok msg)
      → NotDone
          (lift {E = E} {S = DhtClient} {Err = DhtError E}
            (map_error protocol (map_error bencode_decode r))
            w).0
  unread-NotDone (ok msg) w h = absurd (h msg refl)
  unread-NotDone (err text) w h = tt

module _ {E : Type 0} (codec : Bencode) where
  send_krpc-Drains :
      (to : SocketAddr) (msg : KrpcMessage) (w : World E DhtClient)
      → Drains w (send_krpc codec to msg w)
  unfolding send_krpc
  send_krpc-Drains to msg w =
      continue-Drains w _ _ (lift-Drains _ w)
        λ bytes v _. convert-Drains v _ io (send_to-Drains bytes to v)

  recv_krpc-Drains : (w : World E DhtClient) → Drains w (recv_krpc codec w)
  unfolding recv_krpc
  recv_krpc-Drains w =
      continue-Drains w _ _ (convert-Drains w _ io (recv_from-Drains max_krpc_message_size w))
        λ p v _.
          continue-Drains {X = KrpcMessage} v (lift (map_error protocol (decode_krpc codec p.1)) v)
            (λ msg. pure (p.0, msg)) (lift-Drains _ v) λ msg u _. stays-Drains u _ refl refl

  await_response-Drains :
      (n : ℕ) (tx_id : List ℕ) (w : World E DhtClient) → Drains w (await_response codec n tx_id w)
  unfolding await_response
  await_response-Drains zero tx_id w = stays-Drains w _ refl refl
  await_response-Drains (suc n) tx_id w = continue-Drains w _ _ (recv_krpc-Drains w) λ p v _.
      if-Drains (same_bytes p.1.t tx_id) _ _ v (stays-Drains v _ refl refl)
        (await_response-Drains n tx_id v)

  timed_response-Drains :
      (tx_id : List ℕ) (w : World E DhtClient)
      → Drains w (timeout_or response_timeout timed_out (recv_response codec tx_id) w)
  unfolding timeout_or recv_response
  timed_response-Drains tx_id w =
      continue-Drains w _ _
        (timeout-Drains response_timeout (await_response codec max_response_attempts tx_id)
          (await_response-Drains max_response_attempts tx_id) w)
        λ o v _. settle-Drains o v

module _ {E : Type 0} (codec : Bencode) (table : RoutingTable) where
  recv_krpc-NotDone : (w : World E DhtClient) → Deaf codec table w → NotDone (recv_krpc codec w).0
  unfolding recv_krpc decode_krpc
  recv_krpc-NotDone w d = continue-NotDone _ _ λ p v e.
      let took = recv_from-Took max_krpc_message_size w v p.0 p.1 (convert-eq-done io _ p v e) in
      let unread = (rw took.inbox at d.unread).0 in
      (continue-never _ _
        (unread-NotDone (codec.from_bytes p.1) v (λ msg. rw took.part (unread msg)))).0

  await_response-NotDone :
      (n : ℕ) (tx_id : List ℕ) (w : World E DhtClient)
      → Deaf codec table w
      → NotDone (await_response codec n tx_id w).0
  unfolding await_response
  await_response-NotDone zero tx_id w d = tt
  await_response-NotDone (suc n) tx_id w d =
      (continue-never (recv_krpc codec w) _ (recv_krpc-NotDone w d)).0

  timed_response-NotDone :
      (tx_id : List ℕ) (w : World E DhtClient)
      → Deaf codec table w
      → NotDone (timeout_or response_timeout timed_out (recv_response codec tx_id) w).0
  unfolding timeout_or timeout recv_response
  timed_response-NotDone tx_id w d = close-NotDone w.limit (w.now + response_timeout) _ (
      await_response-NotDone max_response_attempts tx_id _
        (record { unread = d.unread; same = d.same }))

  -- A query leaves the client deaf, and gives no response.
  exchange-StaysDeaf :
      (addr : SocketAddr) (kind : KrpcQueryKind) (args : KrpcArgs) (w : World E DhtClient)
      → Deaf codec table w
      → StaysDeaf codec table (exchange codec addr kind args w)
        × NotDone (exchange codec addr kind args w).0
  unfolding exchange get_transaction_id advance
  exchange-StaysDeaf addr kind args w d =
      let v = record w { self = advance w.self } in
      let deaf : Deaf codec table v = record { unread = d.unread; same = d.same } in
      let sends =
        send_krpc-Drains codec addr
          (query_message (transaction_id w.self) kind (record args { id = some w.self.node_id }))
          v in
      (
        of_Drains-StaysDeaf codec table v _
            (continue-Drains v _ _ sends
              λ _ u _. timed_response-Drains codec (transaction_id w.self) u)
            deaf,
        continue-NotDone _ _ λ x u e.
            timed_response-NotDone (transaction_id w.self) u
              (StaysDeaf.deaf (rw e at (of_Drains-StaysDeaf codec table v _ sends deaf))),
      )

  -- What a query does with its response is not done.
  after_exchange :
      {X : Type 0} (addr : SocketAddr) (kind : KrpcQueryKind) (args : KrpcArgs)
      → (f : KrpcMessage → M E DhtClient (DhtError E) X) (w : World E DhtClient)
      → Deaf codec table w
      → StaysDeaf codec table (continue (exchange codec addr kind args w) f)
        × NotDone (continue (exchange codec addr kind args w) f).0
  after_exchange addr kind args f w d =
      let (deaf, never) = exchange-StaysDeaf addr kind args w d in
      let (unfinished, same) = continue-never _ f never in
      (record { deaf = rw same deaf.deaf }, unfinished)

  pub ping-StaysDeaf :
      (addr : SocketAddr) (w : World E DhtClient)
      → Deaf codec table w
      → StaysDeaf codec table (ping codec addr w) × NotDone (ping codec addr w).0
  unfolding ping
  ping-StaysDeaf addr w d = after_exchange addr _ _ _ w d

  pub find_node-StaysDeaf :
      (addr : SocketAddr) (target : List ℕ) (w : World E DhtClient)
      → Deaf codec table w
      → StaysDeaf codec table (find_node codec addr target w)
        × NotDone (find_node codec addr target w).0
  unfolding find_node
  find_node-StaysDeaf addr target w d = after_exchange addr _ _ _ w d

  pub get_peers-StaysDeaf :
      (addr : SocketAddr) (info_hash : List ℕ) (w : World E DhtClient)
      → Deaf codec table w
      → StaysDeaf codec table (get_peers codec addr info_hash w)
        × NotDone (get_peers codec addr info_hash w).0
  unfolding get_peers
  get_peers-StaysDeaf addr info_hash w d = after_exchange addr _ _ _ w d

  pub announce_peer-StaysDeaf :
      (addr : SocketAddr) (info_hash : List ℕ) (port : ℕ) (token : List ℕ) (w : World E DhtClient)
      → Deaf codec table w
      → StaysDeaf codec table (announce_peer codec addr info_hash port token w)
        × NotDone (announce_peer codec addr info_hash port token w).0
  unfolding announce_peer
  announce_peer-StaysDeaf addr info_hash port token w d = after_exchange addr _ _ _ w d
