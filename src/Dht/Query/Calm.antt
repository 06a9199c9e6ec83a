-- ===== src/Dht/Query/Calm.antt =====
-- The queries are calm, end within their timeouts, and `bootstrap` cannot fail.
use hyperswarm.Base.{ℕ, ◌+◌, ◌*◌, Option, some, List, [], ◌∷◌, String, arith, length}
use hyperswarm.Net.{World, SocketAddr, Result, ok, map_err, lookup_host}
use hyperswarm.Net.Calm.{
  Swift, IsTame, done-Calm, done-Swift, continue-Calm, convert-Calm, continue-Swift, self-Calm,
  self-Swift, Swift-mono,
}
use hyperswarm.Net.Io.{
  lookup_host-Calm, timeout-Calm, timeout-Swift, timeout_or-Calm, timeout_or-Swift,
}
use hyperswarm.Net.Success.{IsSuccess, continue-IsSuccess, timeout-IsSuccess}
use hyperswarm.Protocol.{KrpcQueryKind, KrpcArgs, Bencode}
use hyperswarm.Dht.Client.{DhtError, io, timed_out, DhtClient, get_transaction_id}
use hyperswarm.Dht.Client.Calm.{send_krpc-Calm, send_krpc-Swift, recv_response-Calm}
use hyperswarm.Dht.Query.{
  response_timeout, resolve_timeout, bootstrap_ping_timeout, bootstrap_names, exchange, ping,
  find_node, get_peers, announce_peer, ping_first, bootstrap_from, bootstrap,
}

module _ {E : Type 0} (codec : Bencode) where
  pub exchange-Calm :
      (addr : SocketAddr) (kind : KrpcQueryKind) (args : KrpcArgs)
      → IsTame (exchange {E = E} codec addr kind args)
  unfolding exchange get_transaction_id
  exchange-Calm addr kind args w = self-Calm _ w _ (
      continue-Calm _ _ _ (send_krpc-Calm codec addr _ _)
        λ _. timeout_or-Calm response_timeout timed_out _ (recv_response-Calm codec _))

  pub exchange-Swift :
      (addr : SocketAddr) (kind : KrpcQueryKind) (args : KrpcArgs) (w : World E DhtClient)
      → Swift response_timeout w (exchange codec addr kind args w)
  unfolding exchange get_transaction_id
  exchange-Swift addr kind args w = self-Swift response_timeout _ w _ (
      continue-Swift 0 response_timeout _ _ _ (send_krpc-Swift codec addr _ _)
        λ _. timeout_or-Swift response_timeout timed_out _ (recv_response-Calm codec _))

  pub ping-Calm : (addr : SocketAddr) → IsTame (ping {E = E} codec addr)
  unfolding ping
  ping-Calm addr w =
      continue-Calm w _ _ (exchange-Calm addr _ _ w) λ x w'. self-Calm _ w' _ (done-Calm _ _)

  pub get_peers-Calm :
      (addr : SocketAddr) (info_hash : List ℕ) → IsTame (get_peers {E = E} codec addr info_hash)
  unfolding get_peers
  get_peers-Calm addr info_hash w =
      continue-Calm w _ _ (exchange-Calm addr _ _ w) λ x w'. done-Calm _ w'

  pub get_peers-Swift :
      (addr : SocketAddr) (info_hash : List ℕ) (w : World E DhtClient)
      → Swift response_timeout w (get_peers codec addr info_hash w)
  unfolding get_peers
  get_peers-Swift addr info_hash w =
      continue-Swift response_timeout 0 w _ _ (exchange-Swift addr _ _ w) λ x w'. done-Swift _ w'

  pub find_node-Calm :
      (addr : SocketAddr) (target : List ℕ) → IsTame (find_node {E = E} codec addr target)
  unfolding find_node
  find_node-Calm addr target w =
      continue-Calm w _ _ (exchange-Calm addr _ _ w) λ x w'. done-Calm _ w'

  pub announce_peer-Calm :
      (addr : SocketAddr) (info_hash : List ℕ) (port : ℕ) (token : List ℕ)
      → IsTame (announce_peer {E = E} codec addr info_hash port token)
  unfolding announce_peer
  announce_peer-Calm addr info_hash port token w =
      continue-Calm w _ _ (exchange-Calm addr _ _ w) λ x w'. done-Calm _ w'

  pub announce_peer-Swift :
      (addr : SocketAddr) (info_hash : List ℕ) (port : ℕ) (token : List ℕ) (w : World E DhtClient)
      → Swift response_timeout w (announce_peer codec addr info_hash port token w)
  unfolding announce_peer
  announce_peer-Swift addr info_hash port token w =
      continue-Swift response_timeout 0 w _ _ (exchange-Swift addr _ _ w) λ x w'. done-Swift _ w'

  ping_first-Calm :
      (found : Option (Result (DhtError E) (List SocketAddr))) → IsTame (ping_first codec found)
  unfolding ping_first
  ping_first-Calm (some (ok (addr ∷ _))) w =
      continue-Calm w _ _ (timeout-Calm bootstrap_ping_timeout _ (ping-Calm addr) w)
        λ x w'. done-Calm tt w'
  ping_first-Calm _ w = done-Calm tt w

  ping_first-Swift :
      (found : Option (Result (DhtError E) (List SocketAddr))) (w : World E DhtClient)
      → Swift bootstrap_ping_timeout w (ping_first codec found w)
  unfolding ping_first
  ping_first-Swift (some (ok (addr ∷ _))) w =
      continue-Swift bootstrap_ping_timeout 0 w _ _
        (timeout-Swift bootstrap_ping_timeout _ (ping-Calm addr) w) λ x w'. done-Swift tt w'
  ping_first-Swift _ w = Swift-mono w _ (omega arith) (done-Swift tt w)

  ping_first-IsSuccess :
      (found : Option (Result (DhtError E) (List SocketAddr))) (w : World E DhtClient)
      → IsSuccess (ping_first codec found w).0
  unfolding ping_first
  ping_first-IsSuccess (some (ok (addr ∷ _))) w =
      continue-IsSuccess _ _ (timeout-IsSuccess _ bootstrap_ping_timeout (ping codec addr) w)
        λ _ _. tt
  ping_first-IsSuccess _ w = tt

  resolve_host-Calm :
      (name : String) → IsTame {S = DhtClient} {Err = DhtError E} (map_err io (lookup_host name))
  resolve_host-Calm name w = convert-Calm w _ io (lookup_host-Calm name w)

  bootstrap_from-Calm : (names : List String) → IsTame (bootstrap_from {E = E} codec names)
  unfolding bootstrap_from
  bootstrap_from-Calm [] w = done-Calm tt w
  bootstrap_from-Calm (name ∷ names) w =
      continue-Calm w _ _ (timeout-Calm resolve_timeout _ (resolve_host-Calm name) w) λ found w₁.
        continue-Calm w₁ _ _ (ping_first-Calm found w₁) λ _ w₂. bootstrap_from-Calm names w₂

  bootstrap_from-Swift :
      (names : List String) (w : World E DhtClient)
      → Swift (2500 * length names) w (bootstrap_from codec names w)
  unfolding bootstrap_from
  bootstrap_from-Swift [] w = Swift-mono w _ (omega arith) (done-Swift tt w)
  bootstrap_from-Swift (name ∷ names) w = Swift-mono w _ (omega arith) (
      continue-Swift resolve_timeout (bootstrap_ping_timeout + 2500 * length names) w _ _
        (timeout-Swift resolve_timeout _ (resolve_host-Calm name) w)
        λ found w₁.
          continue-Swift bootstrap_ping_timeout (2500 * length names) w₁ _ _
            (ping_first-Swift found w₁) λ _ w₂. bootstrap_from-Swift names w₂)

  bootstrap_from-IsSuccess :
      (names : List String) (w : World E DhtClient) → IsSuccess (bootstrap_from codec names w).0
  unfolding bootstrap_from
  bootstrap_from-IsSuccess [] w = tt
  bootstrap_from-IsSuccess (name ∷ names) w =
      continue-IsSuccess _ _
        (timeout-IsSuccess (DhtError E) resolve_timeout (map_err io (lookup_host name)) w)
        λ found w₁.
          continue-IsSuccess _ _ (ping_first-IsSuccess found w₁)
            λ _ w₂. bootstrap_from-IsSuccess names w₂

  pub bootstrap-Calm : IsTame (bootstrap {E = E} codec)
  unfolding bootstrap
  bootstrap-Calm w = bootstrap_from-Calm _ w

  pub bootstrap-Swift :
      (w : World E DhtClient) → Swift (2500 * length (bootstrap_names w.self)) w (bootstrap codec w)
  unfolding bootstrap
  bootstrap-Swift w = bootstrap_from-Swift _ w

  pub bootstrap-IsSuccess : (w : World E DhtClient) → IsSuccess (bootstrap codec w).0
  unfolding bootstrap
  bootstrap-IsSuccess w = bootstrap_from-IsSuccess _ w
