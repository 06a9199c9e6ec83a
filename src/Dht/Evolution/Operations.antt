-- ===== src/Dht/Evolution/Operations.antt =====
-- Every operation of the client takes steps of `Evolution` only.
use hyperswarm.Base.{
  ℕ, zero, suc, ◌≡◌, Option, none, some, List, arith, length, length-take, take, same_bytes, inl,
  inr, Bool-cases, ◌==◌,
}
use hyperswarm.Net.{SocketAddr}
use hyperswarm.Net.Moves.{
  Moves, IsMove, continue-Moves, convert-Moves, timeout_or-Moves, if-Moves, done-Moves, fail-Moves,
  lift-Moves, recv_from-Moves, send_to-Moves,
}
use hyperswarm.Protocol.{
  KrpcMessage, KrpcQueryKind, KrpcArgs, Bencode, encode_krpc, decode_krpc, map_error,
}
use hyperswarm.Dht.Client.{
  io, protocol, timed_out, DhtClient, advance, get_transaction_id, send_krpc, recv_krpc,
  await_response, recv_response, max_krpc_message_size, max_response_attempts,
}
use hyperswarm.Dht.Query.{
  response_timeout, learn, exchange, ping, find_node, get_peers, announce_peer, response_id,
}
use hyperswarm.Dht.Evolution.{take_id, store, Reach, here, next, Reach-trans, Reach-IsPreorder}

learn-Reach : (id : Option (List ℕ)) (addr : SocketAddr) (c : DhtClient) → Reach c (learn id addr c)
learn-Reach none addr c = here
learn-Reach (some id) addr c = elim (Bool-cases (length id == 20)) [
  | inl e ↦
      let fits : length (take 20 id) ≡ 20 = ground (arith, length-take 20 id) in
      rw e (next here (store c (take 20 id) addr fits))
  | inr e ↦ rw e here
]

module _ {E : Type 0} (codec : Bencode) where
  send_krpc-Reach :
      (to : SocketAddr) (msg : KrpcMessage) → IsMove Reach (send_krpc {E = E} codec to msg)
  unfolding send_krpc
  send_krpc-Reach to msg w =
      continue-Moves Reach-IsPreorder w _ _
        (lift-Moves Reach-IsPreorder (map_error protocol (encode_krpc codec msg)) w)
        λ bytes w'. convert-Moves w' _ io (send_to-Moves Reach-IsPreorder bytes to w')

  recv_krpc-Reach : IsMove Reach (recv_krpc {E = E} codec)
  unfolding recv_krpc
  recv_krpc-Reach w =
      continue-Moves Reach-IsPreorder w _ _
        (convert-Moves w _ io (recv_from-Moves Reach-IsPreorder max_krpc_message_size w))
        λ p w'.
          continue-Moves Reach-IsPreorder w' _ _
            (lift-Moves Reach-IsPreorder (map_error protocol (decode_krpc codec p.1)) w')
            λ msg w''. done-Moves Reach-IsPreorder (p.0, msg) w''

  await_response-Reach :
      (n : ℕ) (tx_id : List ℕ) → IsMove Reach (await_response {E = E} codec n tx_id)
  unfolding await_response
  await_response-Reach zero tx_id w = fail-Moves Reach-IsPreorder timed_out w
  await_response-Reach (suc n) tx_id w =
      continue-Moves Reach-IsPreorder w _ _ (recv_krpc-Reach w) λ p w'.
        if-Moves (same_bytes p.1.t tx_id) _ _ w' (done-Moves Reach-IsPreorder p.1 w')
          (await_response-Reach n tx_id w')

  exchange-Reach :
      (addr : SocketAddr) (kind : KrpcQueryKind) (args : KrpcArgs)
      → IsMove Reach (exchange {E = E} codec addr kind args)
  unfolding exchange get_transaction_id recv_response
  exchange-Reach addr kind args w =
      let took = record w { self = advance w.self } in
      let r = continue-Moves Reach-IsPreorder took _ _ (send_krpc-Reach addr _ took) λ _ w'.
        timeout_or-Moves Reach-IsPreorder response_timeout timed_out _
          (await_response-Reach max_response_attempts _) w' in
      record { moved = Reach-trans (next here (take_id w.self)) (Moves.moved r) }

  pub ping-Reach : (addr : SocketAddr) → IsMove Reach (ping {E = E} codec addr)
  unfolding ping
  ping-Reach addr w =
      continue-Moves Reach-IsPreorder w _ _ (exchange-Reach addr _ _ w)
        λ x w'. record { moved = learn-Reach (response_id x.r) addr w'.self }

  pub find_node-Reach :
      (addr : SocketAddr) (target : List ℕ) → IsMove Reach (find_node {E = E} codec addr target)
  unfolding find_node
  find_node-Reach addr target w =
      continue-Moves Reach-IsPreorder w _ _ (exchange-Reach addr _ _ w)
        λ x w'. done-Moves Reach-IsPreorder _ w'

  pub get_peers-Reach :
      (addr : SocketAddr) (info_hash : List ℕ)
      → IsMove Reach (get_peers {E = E} codec addr info_hash)
  unfolding get_peers
  get_peers-Reach addr info_hash w =
      continue-Moves Reach-IsPreorder w _ _ (exchange-Reach addr _ _ w)
        λ x w'. done-Moves Reach-IsPreorder _ w'

  pub announce_peer-Reach :
      (addr : SocketAddr) (info_hash : List ℕ) (port : ℕ) (token : List ℕ)
      → IsMove Reach (announce_peer {E = E} codec addr info_hash port token)
  unfolding announce_peer
  announce_peer-Reach addr info_hash port token w =
      continue-Moves Reach-IsPreorder w _ _ (exchange-Reach addr _ _ w)
        λ x w'. done-Moves Reach-IsPreorder _ w'
