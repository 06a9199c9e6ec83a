-- ===== src/Suite/Dht.antt =====
-- The tests in crates/hyperswarm-rs/src/dht.rs, but the one of concurrent calls.
use hyperswarm.Base.{
  ℕ, ◌≡◌, refl, ◌≢◌, Bool, true, not, none, List, [], arith, length, ◌==◌, same_bytes,
  same_bytes_iff, Bool-cases, inl, inr, String, take, get_or, ◌&&◌, ◌∷◌,
}
use text.Mathlib.Text.{◌==◌ as is_text}
use hyperswarm.Dht.Compact.{compact_peer_info_size_ipv4, compact_peer_info_size_ipv6, from_be_bytes}
use hyperswarm.Net.{
  IpAddr, v6, Result, ok, World, v4, Outcome, done, fail, elapsed, pending, panicked,
}
use hyperswarm.Net.Success.{IsDone}
use hyperswarm.Net.Zoom.{with_self}
use hyperswarm.Protocol.{Bencode}
use hyperswarm.Dht.Table.{add_node, new_table}
use hyperswarm.Dht.Client.{
  DhtConfig, DhtError, DhtClient, new_client, get_transaction_id, advance, transaction_id,
}
use hyperswarm.Dht.Topics.{announce, lookup}
use hyperswarm.Dht.Topics.Total.{announce_total, lookup_total}
use hyperswarm.Suite.{unwrap, is_ok, awaited}
use hyperswarm.Suite.Protocol.{repeated}

abbrev pub empty_config : DhtConfig
empty_config = record { bootstrap = []; bind_port = 0 }

unfoldable test_routing_table : Bool
test_routing_table =
    length (add_node (repeated 1 20) (record { ip = v4 127 0 0 1; port = 8080 }) new_table).nodes
    == 1

abbrev ipv4_peer : List ℕ
ipv4_peer = 127 ∷ 0 ∷ 0 ∷ 1 ∷ 0x1f ∷ 0x90 ∷ []

abbrev ipv6_peer : List ℕ
ipv6_peer =
    0x20 ∷ 0x01 ∷ 0x0d ∷ 0xb8 ∷ 0 ∷ 0 ∷ 0 ∷ 0 ∷ 0 ∷ 0 ∷ 0 ∷ 0 ∷ 0 ∷ 0 ∷ 0 ∷ 1 ∷ 0x1f ∷ 0x90 ∷ []

-- `to_string` is that of `std::net::IpAddr`.
unfoldable test_compact_peer_parsing_ipv4 : (IpAddr → String) → Bool
test_compact_peer_parsing_ipv4 to_string =
    let byte = get_or ipv4_peer in
    length ipv4_peer == compact_peer_info_size_ipv4
    && is_text (to_string (v4 (byte 0 0) (byte 1 0) (byte 2 0) (byte 3 0))) "127.0.0.1"
    && from_be_bytes (byte 4 0) (byte 5 0) == 8080

unfoldable test_compact_peer_parsing_ipv6 : (IpAddr → String) → Bool
test_compact_peer_parsing_ipv6 to_string =
    let byte = get_or ipv6_peer in
    length ipv6_peer == compact_peer_info_size_ipv6
    && is_text (to_string (v6 (take 16 ipv6_peer))) "2001:db8::1"
    && from_be_bytes (byte 16 0) (byte 17 0) == 8080

-- With the binding of the socket and the random node id given.
module _ {E : Type 0} (bind : ℕ → Result E (Unit {0})) (random_id : List ℕ) where
  abbrev pub test_client : Result (DhtError E) DhtClient
  test_client = new_client bind random_id empty_config

  unfoldable test_dht_client_creation : Bool
  test_dht_client_creation =
      unwrap test_client λ client. not (same_bytes client.node_id (repeated 0 20))

  unfoldable test_announce_with_empty_routing_table : Bencode → World E (Unit {0}) → Bool
  test_announce_with_empty_routing_table codec w = unwrap test_client λ client.
      awaited (announce codec (repeated 1 32) 8080 (with_self client w))
        λ result after. is_ok result

  unfoldable test_lookup_with_empty_routing_table : Bencode → World E (Unit {0}) → Bool
  test_lookup_with_empty_routing_table codec w = unwrap test_client λ client.
      awaited (lookup codec (repeated 1 32) (with_self client w)) λ result after. is_ok result

  unfoldable test_transaction_id_generation : World E (Unit {0}) → Bool
  test_transaction_id_generation w = unwrap test_client λ client.
      awaited (get_transaction_id (with_self client w)) λ tx1 after1.
        awaited (get_transaction_id after1)
          λ tx2 after2. unwrap tx1 λ id1. unwrap tx2 λ id2. not (same_bytes id1 id2)

test_routing_table_passes : test_routing_table ≡ true
unfolding test_routing_table add_node
test_routing_table_passes = refl

-- When the standard library writes addresses as its documentation says.
test_compact_peer_parsing_ipv4_passes :
    (to_string : IpAddr → String)
    → to_string (v4 127 0 0 1) ≡ "127.0.0.1"
    → test_compact_peer_parsing_ipv4 to_string ≡ true
unfolding test_compact_peer_parsing_ipv4
test_compact_peer_parsing_ipv4_passes to_string written = rw written refl

test_compact_peer_parsing_ipv6_passes :
    (to_string : IpAddr → String)
    → to_string
        (v6 (0x20 ∷ 0x01 ∷ 0x0d ∷ 0xb8 ∷ 0 ∷ 0 ∷ 0 ∷ 0 ∷ 0 ∷ 0 ∷ 0 ∷ 0 ∷ 0 ∷ 0 ∷ 0 ∷ 1 ∷ []))
      ≡ "2001:db8::1"
    → test_compact_peer_parsing_ipv6 to_string ≡ true
unfolding test_compact_peer_parsing_ipv6 take
test_compact_peer_parsing_ipv6_passes to_string written = rw written refl

awaited-done :
    {E S Err X : Type 0} (r : Outcome Err X × World E S)
    → IsDone r.0
    → awaited r (λ result after. is_ok result) ≡ true
awaited-done (done x, w) d = refl
awaited-done (fail e, w) d = absurd d
awaited-done (elapsed, w) d = absurd d
awaited-done (pending, w) d = absurd d
awaited-done (panicked, w) d = absurd d

-- On a machine on which a socket can be bound.
module _ {E : Type 0} (bind : ℕ → Result E (Unit {0})) (random_id : List ℕ)
    (bound : bind 0 ≡ ok tt) where
  abbrev pub client : DhtClient
  client = record {
    node_id = random_id;
    routing_table = new_table;
    next_transaction_id = 0;
    bootstrap_nodes = [];
  }

  pub bound_client : test_client bind random_id ≡ ok client
  unfolding new_client
  bound_client = ground arith

  -- When the random id is not zero.
  test_dht_client_creation_passes :
      random_id ≢ repeated 0 20 → test_dht_client_creation bind random_id ≡ true
  unfolding test_dht_client_creation
  test_dht_client_creation_passes other = elim (Bool-cases (same_bytes random_id (repeated 0 20))) [
    | inl e ↦ absurd (other ((same_bytes_iff random_id (repeated 0 20)).0 e))
    | inr e ↦ rw (bound_client, e) refl
  ]

  test_transaction_id_generation_passes :
      (w : World E (Unit {0})) → test_transaction_id_generation bind random_id w ≡ true
  unfolding test_transaction_id_generation get_transaction_id advance transaction_id same_bytes
  test_transaction_id_generation_passes w = rw bound_client refl

  -- Whatever the network, the resolver and the sends do.
  module _ (codec : Bencode) (w : World E (Unit {0})) (free : w.limit ≡ none) where
    test_announce_with_empty_routing_table_passes :
        test_announce_with_empty_routing_table bind random_id codec w ≡ true
    unfolding test_announce_with_empty_routing_table
    test_announce_with_empty_routing_table_passes =
        rw bound_client
          (awaited-done _ (announce_total codec (with_self client w) free (repeated 1 32) 8080).0)

    test_lookup_with_empty_routing_table_passes :
        test_lookup_with_empty_routing_table bind random_id codec w ≡ true
    unfolding test_lookup_with_empty_routing_table
    test_lookup_with_empty_routing_table_passes =
        rw bound_client
          (awaited-done _ (lookup_total codec (with_self client w) free (repeated 1 32)).0)
