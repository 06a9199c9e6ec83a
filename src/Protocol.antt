-- ===== src/Protocol.antt =====
-- crates/hyperswarm-rs/src/protocol.rs: the KRPC messages and their encoding. The bencode codec
-- that serde derives and `serde_bencode` runs is the parameter `Bencode`.
pub mod Wire
use hyperswarm.Base.{ℕ, Option, none, List, String, ◌≡◌}
use hyperswarm.Base.Int.{ℤ}
use hyperswarm.Net.{Result, ok, err}

pub data KrpcMessageType : Type 0 where
  query response error : KrpcMessageType

pub data KrpcQueryKind : Type 0 where
  ping find_node get_peers announce_peer : KrpcQueryKind

pub record KrpcArgs : Type 0 where
  pub id : Option (List ℕ)
  pub target : Option (List ℕ)
  pub info_hash : Option (List ℕ)
  pub port : Option ℕ
  pub token : Option (List ℕ)

pub record KrpcResponse : Type 0 where
  pub id : Option (List ℕ)
  pub nodes : Option (List ℕ)
  pub values : Option (List (List ℕ))
  pub token : Option (List ℕ)

pub record KrpcMessage : Type 0 where
  pub t : List ℕ
  pub y : KrpcMessageType
  pub q : Option KrpcQueryKind
  pub a : Option KrpcArgs
  pub r : Option KrpcResponse
  pub e : Option (ℤ × String)

-- `KrpcArgs::default()` and `KrpcResponse::default()`.
abbrev pub default_args : KrpcArgs
default_args = record { id = none; target = none; info_hash = none; port = none; token = none }

abbrev pub default_response : KrpcResponse
default_response = record { id = none; nodes = none; values = none; token = none }

pub data ProtocolError : Type 0 where
  unimplemented : ProtocolError
  bencode_encode bencode_decode : String → ProtocolError

-- `serde_bencode::ser::to_bytes` and `de::from_bytes`, an error given by its text.
pub record Bencode : Type 0 where
  pub to_bytes : KrpcMessage → Result String (List ℕ)
  pub from_bytes : List ℕ → Result String KrpcMessage

-- What was encoded can be decoded.
abbrev pub IsFaithful : Bencode → Type 0
IsFaithful codec =
    (msg : KrpcMessage) (bytes : List ℕ)
    → codec.to_bytes msg ≡ ok bytes
    → codec.from_bytes bytes ≡ ok msg

abbrev pub map_error : {A B X : Type 0} → (A → B) → Result A X → Result B X
map_error f (ok x) = ok x
map_error f (err e) = err (f e)

module _ (codec : Bencode) where
  unfoldable pub encode_krpc : KrpcMessage → Result ProtocolError (List ℕ)
  encode_krpc msg = map_error bencode_encode (codec.to_bytes msg)

  unfoldable pub decode_krpc : List ℕ → Result ProtocolError KrpcMessage
  decode_krpc bytes = map_error bencode_decode (codec.from_bytes bytes)
