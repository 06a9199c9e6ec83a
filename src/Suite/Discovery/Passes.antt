-- ===== src/Suite/Discovery/Passes.antt =====
-- What the second client finds.
use hyperswarm.Base.{
  ◌/◌, ◌%◌, ℕ, ◌+◌, ◌≤◌, ◌≡◌, refl, ◌≢◌, sym, ap, ◌∙◌, Bool-cases, inl, inr, true, Option, none,
  some, List, [], ◌∷◌, arith, length, take, take_of_le, get_or, ◌==◌, if◌then◌else◌,
}
use hyperswarm.Net.{
  World, Outcome, done, elapsed, datagram, ok, Result, SocketAddr, same_addr_iff, timeout, close,
}
use hyperswarm.Net.Zoom.{with_self}
use hyperswarm.Protocol.{Bencode}
use hyperswarm.Dht.Table.{new_table, add_node, get_nodes}
use hyperswarm.Dht.Client.{DhtError, DhtClient, add_node_to_routing_table, transaction_id}
use hyperswarm.Dht.Topics.{topic_nodes, announce, lookup}
use hyperswarm.Swarm.{from_key}
use hyperswarm.Suite.{awaited_of_done, in_time_of_done}
use hyperswarm.Suite.Dht.{bound_client}
use hyperswarm.Suite.Discovery.{
  discovery_key, test_two_node_localhost_discovery, second_socket, delivered,
}
use hyperswarm.Suite.Discovery.Waits.{
  next_get_peers, unanswered, announce-unanswered, lookup_heard, lookup_elapses,
}

-- A client that knows one node, and draws `k` as its next transaction id.
abbrev pub client_knowing : List ℕ → ℕ → List ℕ → SocketAddr → DhtClient
client_knowing id k other addr = add_node_to_routing_table other addr (record {
  node_id = id;
  routing_table = new_table;
  next_transaction_id = k;
  bootstrap_nodes = [];
})

one_node :
    (id other : List ℕ) (k : ℕ) (addr : SocketAddr)
    → topic_nodes (client_knowing id k other addr) ≡ record { node_id = other; addr = addr } ∷ []
unfolding add_node_to_routing_table add_node get_nodes take
one_node id other k addr = refl

id_of :
    (id other : List ℕ) (k : ℕ) (addr : SocketAddr)
    → transaction_id (client_knowing id k other addr) ≡ (k / 256) ∷ (k % 256) ∷ []
unfolding add_node_to_routing_table transaction_id
id_of id other k addr = refl

module _ {E S Err X : Type 0} where
  close-done :
      (outer : Option ℕ) (deadline : ℕ) (r : Outcome Err X × World E S) (x : X)
      → r.0 ≡ done x
      → (close {Err' = Err} outer deadline r).0 ≡ done (some (ok x))
  close-done outer deadline (o, v) x e = rw e refl

  close-elapsed :
      (deadline : ℕ) (r : Outcome Err X × World E S)
      → r.0 ≡ elapsed
      → (close {Err' = Err} none deadline r).0 ≡ done none
  close-elapsed deadline (o, v) e = rw e refl

ids_agree : (k : ℕ) → (0 ∷ 0 ∷ []) ≡ (k / 256) ∷ (k % 256) ∷ [] → k ≡ 0
ids_agree k e = omega (arith, ap (λ l. get_or l 0 7) e, ap (λ l. get_or l 1 7) e)

-- Two clients that know one another, and a topic. The first draws its first transaction id, and its
-- query for the topic can be read back and fits the buffer.
module _ {E : Type 0} (codec : Bencode) (topic id1 id2 : List ℕ) (addr1 addr2 : SocketAddr)
    (raw1 : List ℕ)
    (encoded1 : codec.to_bytes (next_get_peers (client_knowing id1 0 id2 addr2) topic) ≡ ok raw1)
    (decoded1 : codec.from_bytes raw1 ≡ ok (next_get_peers (client_knowing id1 0 id2 addr2) topic))
    (fits : length raw1 ≤ 2048) (w : World E (Unit {0})) (free : w.limit ≡ none)
    (sends : w.sends ≡ []) (sent : w.sent ≡ []) (empty : w.inbox ≡ []) where
  abbrev pub first_socket : World E DhtClient
  first_socket = with_self (client_knowing id1 0 id2 addr2) w

  announced :
      (port : ℕ)
      → announce codec topic port first_socket ≡ (done tt, unanswered codec first_socket addr2 raw1)
  announced port =
      announce-unanswered codec topic (record { node_id = id2; addr = addr2 }) raw1 first_socket
        (one_node id1 id2 0 addr2) encoded1 sends port free empty

  abbrev pub announced_world : ℕ → World E DhtClient
  announced_world port = (announce codec topic port first_socket).1

  -- The second socket after the announcement, whose client draws `k`.
  abbrev pub later_socket : ℕ → ℕ → World E DhtClient
  later_socket port k =
      second_socket addr1 addr2 (client_knowing id2 k id1 addr1) (announced_world port)

  -- The first client's query lies there.
  waiting_query :
      (port k : ℕ)
      → (later_socket port k).inbox ≡ ((announced_world port).now, datagram addr1 raw1) ∷ []
  waiting_query port k =
      let own = (same_addr_iff addr2 addr2).1 refl in
      let out = ap (λ r. r.1.sent) (announced port) ∙ ap ((addr2, raw1) ∷◌) sent in
      ap (delivered {E = E} addr1 addr2 (announced_world port).now) out ∙ rw own refl

  query_decoded :
      codec.from_bytes (take 2048 raw1) ≡ ok (next_get_peers (client_knowing id1 0 id2 addr2) topic)
  query_decoded = rw (take_of_le 2048 raw1 fits) decoded1

  module _ (port k : ℕ) (raw2 : List ℕ)
      (encoded2 : codec.to_bytes (next_get_peers (client_knowing id2 k id1 addr1) topic)
        ≡ ok raw2) where
    looks_up_heard :
        k ≡ 0
        → (timeout {Err' = DhtError E} 2000 (lookup codec topic) (later_socket port k)).0
          ≡ done (some (ok []))
    unfolding timeout
    looks_up_heard same =
        let v = record (later_socket port k) { limit = some ((later_socket port k).now + 2000) } in
        let first = id_of id1 id2 0 addr2 in
        let found =
          lookup_heard codec topic (record { node_id = id1; addr = addr1 }) raw2 v
            (one_node id2 id1 k addr1) encoded2 refl (announced_world port).now addr1 raw1 [] _
            (waiting_query port k) (omega arith) query_decoded
            (first ∙ rw same refl ∙ sym (id_of id2 id1 k addr1)) in
        close-done none ((later_socket port k).now + 2000) (lookup codec topic v) [] found

    looks_up_late :
        k ≢ 0
        → (timeout {Err' = DhtError E} 2000 (lookup codec topic) (later_socket port k)).0
          ≡ done none
    unfolding timeout
    looks_up_late other =
        let v = record (later_socket port k) { limit = some ((later_socket port k).now + 2000) } in
        let first = id_of id1 id2 0 addr2 in
        let waited =
          lookup_elapses codec topic (record { node_id = id1; addr = addr1 }) raw2 v
            (one_node id2 id1 k addr1) encoded2 refl (announced_world port).now
            ((later_socket port k).now + 2000) addr1 raw1 _ (waiting_query port k) (omega arith)
            query_decoded (λ same. other (ids_agree k (sym first ∙ same ∙ id_of id2 id1 k addr1)))
            refl (omega arith) in
        close-elapsed ((later_socket port k).now + 2000) (lookup codec topic v) waited

    -- Two clients know one another alone, and the first draws the transaction id 0. The codec
    -- writes the queries of both for a topic, and reads the first one's, which fits the buffer,
    -- back as it was. Nothing else comes to either socket, no timer is around the first and no
    -- send fails. Then the first client's announcement returns `Ok` after five seconds, and all
    -- that it has done is to send that query and to draw an id. A lookup at the second client,
    -- begun a tenth of a second later with a timer of two seconds, takes the query for the
    -- response to its own when it draws the id 0 as well, and returns no peers; with any other id
    -- the timer ends it.
    pub two_node_discovery :
        (announce codec topic port first_socket
          ≡ (done tt, unanswered codec first_socket addr2 raw1))
        × ((timeout {Err' = DhtError E} 2000 (lookup codec topic) (later_socket port k)).0
            ≡ (if k == 0 then done (some (ok [])) else done none))
    two_node_discovery = elim (Bool-cases (k == 0)) [
      | inl e ↦ (announced port, looks_up_heard (ground arith) ∙ rw e refl)
      | inr e ↦ (announced port, looks_up_late (λ same. ground arith) ∙ rw e refl)
    ]

  -- So the test passes, with fresh clients on sockets that can be bound, and no peer found.
  test_two_node_localhost_discovery_passes :
      (blake2b512 : List ℕ → List ℕ) (bind1 bind2 : ℕ → Result E (Unit {0})) (raw2 : List ℕ)
      → bind1 0 ≡ ok tt
      → bind2 0 ≡ ok tt
      → from_key blake2b512 discovery_key ≡ some (record { bytes = topic })
      → codec.to_bytes (next_get_peers (client_knowing id2 0 id1 addr1) topic) ≡ ok raw2
      → test_two_node_localhost_discovery codec blake2b512 bind1 bind2 id1 id2
          (ok addr1)
          (ok addr2)
          w
        ≡ true
  unfolding test_two_node_localhost_discovery
  test_two_node_localhost_discovery_passes blake2b512 bind1 bind2 raw2 bound1 bound2 hashed
        encoded2 =
      rw
        (
          bound_client bind1 id1 bound1,
          bound_client bind2 id2 bound2,
          hashed,
          awaited_of_done (announce codec topic addr1.port first_socket) tt _
              (ap (λ r. r.0) (announced addr1.port)),
        )
        (in_time_of_done _ (ok []) _ (looks_up_heard addr1.port 0 raw2 encoded2 refl))
