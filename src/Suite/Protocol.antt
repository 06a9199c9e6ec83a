-- ===== src/Suite/Protocol.antt =====
-- The tests in crates/hyperswarm-rs/src/protocol.rs.
use hyperswarm.Base.{
  ℕ, zero, suc, ◌≡◌, refl, Bool, true, false, not, ◌&&◌, none, some, List, [], ◌∷◌, same_bytes,
  is_empty,
}
use hyperswarm.Net.{ok}
use hyperswarm.Protocol.{
  KrpcMessage, KrpcMessageType, KrpcQueryKind, Bencode, IsFaithful, default_args, default_response,
  encode_krpc, decode_krpc,
}
use hyperswarm.Suite.{unwrap, is_some}

-- `vec![byte; size]`
abbrev pub repeated : ℕ → ℕ → List ℕ
repeated byte zero = []
repeated byte (suc size) = byte ∷ repeated byte size

abbrev pub is_query : KrpcMessageType → Bool
is_query KrpcMessageType.query = true
is_query _ = false

abbrev pub is_response : KrpcMessageType → Bool
is_response KrpcMessageType.response = true
is_response _ = false

abbrev ping_message : KrpcMessage
ping_message = record {
  t = 1 ∷ 2 ∷ [];
  y = KrpcMessageType.query;
  q = some KrpcQueryKind.ping;
  a = some (record default_args { id = some (repeated 0 20) });
  r = none;
  e = none;
}

abbrev response_message : KrpcMessage
response_message = record {
  t = 3 ∷ 4 ∷ [];
  y = KrpcMessageType.response;
  q = none;
  a = none;
  r = some (record default_response { id = some (repeated 1 20) });
  e = none;
}

module _ (codec : Bencode) where
  unfoldable test_krpc_ping_encode_decode : Bool
  test_krpc_ping_encode_decode = unwrap (encode_krpc codec ping_message) λ encoded.
      not (is_empty encoded)
      && unwrap (decode_krpc codec encoded)
          λ decoded. same_bytes decoded.t ping_message.t && is_query decoded.y && is_some decoded.q

  unfoldable test_krpc_response_encode_decode : Bool
  test_krpc_response_encode_decode = unwrap (encode_krpc codec response_message) λ encoded.
      unwrap (decode_krpc codec encoded) λ decoded.
        same_bytes decoded.t response_message.t && is_response decoded.y && is_some decoded.r

-- Over a codec that reads what it has written, and writes some bytes for the test's message.
module _ (codec : Bencode) (faithful : IsFaithful codec) (byte : ℕ) (bytes : List ℕ) where
  test_krpc_ping_encode_decode_passes :
      codec.to_bytes ping_message ≡ ok (byte ∷ bytes) → test_krpc_ping_encode_decode codec ≡ true
  unfolding test_krpc_ping_encode_decode encode_krpc decode_krpc same_bytes
  test_krpc_ping_encode_decode_passes written =
      rw (written, faithful ping_message (byte ∷ bytes) written) refl

  test_krpc_response_encode_decode_passes :
      codec.to_bytes response_message ≡ ok (byte ∷ bytes)
      → test_krpc_response_encode_decode codec ≡ true
  unfolding test_krpc_response_encode_decode encode_krpc decode_krpc same_bytes
  test_krpc_response_encode_decode_passes written =
      rw (written, faithful response_message (byte ∷ bytes) written) refl
