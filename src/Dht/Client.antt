-- ===== src/Dht/Client.antt =====
-- crates/hyperswarm-rs/src/dht.rs: the client's state, its transaction ids, and the sending and
-- receiving of messages.
pub mod Calm
pub mod Matching
pub mod Ids
use hyperswarm.Base.{ℕ, zero, suc, ◌+◌, ◌%◌, ◌^◌, List, String, if◌then◌else◌, same_bytes}
use hyperswarm.Net.{
  SocketAddr, Result, ok, err, World, M, ◌>>=◌, ◌>>◌, pure, throw, lift, map_err, get_self,
  put_self, recv_from, send_to,
}
use hyperswarm.Protocol.{KrpcMessage, ProtocolError, Bencode, encode_krpc, decode_krpc, map_error}
use hyperswarm.Dht.Table.{RoutingTable, new_table, add_node}
use hyperswarm.Dht.Compact.{to_be_bytes}

pub record DhtConfig : Type 0 where
  pub bootstrap : List String
  pub bind_port : ℕ

pub data DhtError (E : Type 0) : Type 0 where
  io : E → DhtError E
  protocol : ProtocolError → DhtError E
  timed_out unimplemented : DhtError E

-- The socket is the world's.
pub record DhtClient : Type 0 where
  pub node_id : List ℕ
  pub routing_table : RoutingTable
  pub next_transaction_id : ℕ
  pub bootstrap_nodes : List String

abbrev pub max_krpc_message_size : ℕ
max_krpc_message_size = 2048

abbrev pub max_response_attempts : ℕ
max_response_attempts = 10

-- `DhtClient::new`, with the binding of the socket and the random node id given.
unfoldable pub new_client :
    {E : Type 0} → (ℕ → Result E (Unit {0})) → List ℕ → DhtConfig → Result (DhtError E) DhtClient
new_client bind random_id config = elim (bind config.bind_port) [
  | err e ↦ err (io e)
  | ok _ ↦ ok (record {
    node_id = random_id;
    routing_table = new_table;
    next_transaction_id = 0;
    bootstrap_nodes = config.bootstrap;
  })
]

-- The two parts of `get_transaction_id`: `tx.wrapping_add(1)` on a `u16`, and the id.
unfoldable pub advance : DhtClient → DhtClient
advance c = record c { next_transaction_id = (c.next_transaction_id + 1) % 2 ^ 16 }

unfoldable pub transaction_id : DhtClient → List ℕ
transaction_id c = to_be_bytes c.next_transaction_id

-- `add_node` on the table behind the client's lock.
unfoldable pub add_node_to_routing_table : List ℕ → SocketAddr → DhtClient → DhtClient
add_node_to_routing_table node_id addr c = record c {
  routing_table = add_node node_id addr c.routing_table;
}

module _ {E : Type 0} where
  unfoldable pub get_transaction_id : M E DhtClient (DhtError E) (List ℕ)
  get_transaction_id = do client ← get_self; put_self (advance client); pure (transaction_id client)

module _ {E : Type 0} (codec : Bencode) where
  unfoldable pub send_krpc : SocketAddr → KrpcMessage → M E DhtClient (DhtError E) (Unit {0})
  send_krpc to msg = do
    bytes ← lift (map_error protocol (encode_krpc codec msg))
    map_err io (send_to bytes to)

  unfoldable pub recv_krpc : M E DhtClient (DhtError E) (SocketAddr × KrpcMessage)
  recv_krpc = do
    (addr, bytes) ← map_err io (recv_from max_krpc_message_size)
    msg ← lift (map_error protocol (decode_krpc codec bytes))
    pure (addr, msg)

  -- The loop of `recv_response`, by the attempts left.
  unfoldable pub await_response : ℕ → List ℕ → M E DhtClient (DhtError E) KrpcMessage
  await_response zero tx_id = throw timed_out
  await_response (suc attempts) tx_id = do
    (_, msg) ← recv_krpc
    let rest = await_response attempts tx_id
    if same_bytes msg.t tx_id then pure msg else rest

  unfoldable pub recv_response : List ℕ → M E DhtClient (DhtError E) KrpcMessage
  recv_response tx_id = await_response max_response_attempts tx_id
