-- ===== src/Dht/Client/Calm.antt =====
-- Sending and receiving messages is calm.
use hyperswarm.Base.{ℕ, zero, suc, List, arith, same_bytes}
use hyperswarm.Net.{World, SocketAddr}
use hyperswarm.Net.Calm.{
  Swift, IsTame, done-Calm, if-Calm, continue-Calm, convert-Calm, continue-Swift, convert-Swift,
}
use hyperswarm.Net.Io.{recv_from-Calm, send_to-Calm, send_to-Swift, lift-Calm, lift-Swift}
use hyperswarm.Protocol.{KrpcMessage, Bencode, encode_krpc, decode_krpc, map_error}
use hyperswarm.Dht.Client.{
  io, protocol, DhtClient, send_krpc, recv_krpc, await_response, recv_response,
  max_krpc_message_size,
}

module _ {E : Type 0} (codec : Bencode) where
  pub send_krpc-Calm :
      (to : SocketAddr) (msg : KrpcMessage) → IsTame (send_krpc {E = E} codec to msg)
  unfolding send_krpc
  send_krpc-Calm to msg w =
      continue-Calm w _ _ (lift-Calm (map_error protocol (encode_krpc codec msg)) w)
        λ bytes w'. convert-Calm w' _ io (send_to-Calm bytes to w')

  pub recv_krpc-Calm : IsTame (recv_krpc {E = E} codec)
  unfolding recv_krpc
  recv_krpc-Calm w =
      continue-Calm w _ _ (convert-Calm w _ io (recv_from-Calm max_krpc_message_size w)) λ p w'.
        continue-Calm w' _ _ (lift-Calm (map_error protocol (decode_krpc codec p.1)) w')
          λ msg. done-Calm (p.0, msg)

  pub await_response-Calm : (n : ℕ) (tx_id : List ℕ) → IsTame (await_response {E = E} codec n tx_id)
  unfolding await_response
  await_response-Calm zero tx_id w = ground arith
  await_response-Calm (suc n) tx_id w = continue-Calm w _ _ (recv_krpc-Calm w) λ p w'.
      if-Calm (same_bytes p.1.t tx_id) _ _ w' (done-Calm p.1 w') (await_response-Calm n tx_id w')

  pub recv_response-Calm : (tx_id : List ℕ) → IsTame (recv_response {E = E} codec tx_id)
  unfolding recv_response
  recv_response-Calm tx_id w = await_response-Calm _ tx_id w

  pub send_krpc-Swift :
      (to : SocketAddr) (msg : KrpcMessage) (w : World E DhtClient)
      → Swift 0 w (send_krpc codec to msg w)
  unfolding send_krpc
  send_krpc-Swift to msg w =
      continue-Swift 0 0 w _ _ (lift-Swift (map_error protocol (encode_krpc codec msg)) w)
        λ bytes w'. convert-Swift 0 w' _ io (send_to-Swift bytes to w')
