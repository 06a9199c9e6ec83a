-- ===== src/Dht/Deaf/Isolated.antt =====
-- A client among nodes that speak BEP 5.
use hyperswarm.Base.{ℕ, ◌≡◌, refl, ap, ◌≤◌, ◌∙◌, List, [], ◌∷◌, take_of_le, length, String, none}
use hyperswarm.Net.{
  World, Event, datagram, recv_error, Result, ok, done, Outcome, fail, elapsed, pending, panicked,
}
use hyperswarm.Protocol.{Bencode}
use hyperswarm.Protocol.Wire.{Value, Utf8}
use hyperswarm.Protocol.Wire.Bep5.{IsBep5, IsDerived, from_bytes-IsBep5}
use hyperswarm.Net.Calm.{Calm}
use hyperswarm.Net.Success.{IsDone}
use hyperswarm.Dht.Query.Calm.{
  bootstrap-Calm, ping-Calm, find_node-Calm, get_peers-Calm, announce_peer-Calm,
}
use hyperswarm.Dht.Topics.Announce.{announce-Calm}
use hyperswarm.Dht.Topics.Lookup.{lookup-Calm}
use hyperswarm.Dht.Topics.Total.{lookup_total}
use hyperswarm.Dht.Table
use hyperswarm.Dht.Table.{NodeInfo, RoutingTable}
use hyperswarm.Dht.Table.Window.{add_all}
use hyperswarm.Dht.Compact.{PeerAddress}
use hyperswarm.Dht.Client.{DhtClient, DhtError, add_node_to_routing_table, max_krpc_message_size}
use hyperswarm.Dht.Topics
use hyperswarm.Dht.Evolution.History.{
  Call, bootstrap, ping, find_node, get_peers, announce_peer, announce, lookup, add_node, call, run,
}
use hyperswarm.Dht.Deaf.{AllUnread, Deaf, StaysDeaf}
use hyperswarm.Dht.Deaf.Queries.{
  ping-StaysDeaf, find_node-StaysDeaf, get_peers-StaysDeaf, announce_peer-StaysDeaf,
}
use hyperswarm.Dht.Deaf.Topics.{
  bootstrap-StaysDeaf, announce-StaysDeaf, Yields, lookup-Yields, Gives,
}

-- The nodes that calls add by hand, in their order.
abbrev pub added : List Call → List NodeInfo
added [] = []
added (add_node node_id addr _ ∷ calls) = record { node_id = node_id; addr = addr } ∷ added calls
added (_ ∷ calls) = added calls

-- The table after one call.
abbrev table_after : Call → RoutingTable → RoutingTable
table_after c table = add_all (added (c ∷ [])) table

add_all-added :
    (c : Call) (calls : List Call) (table : RoutingTable)
    → add_all (added (c ∷ calls)) table ≡ add_all (added calls) (table_after c table)
unfolding add_all
add_all-added bootstrap calls table = refl
add_all-added (ping addr) calls table = refl
add_all-added (find_node addr target) calls table = refl
add_all-added (get_peers addr info_hash) calls table = refl
add_all-added (announce_peer addr info_hash port token) calls table = refl
add_all-added (announce topic port) calls table = refl
add_all-added (lookup topic) calls table = refl
add_all-added (add_node node_id addr e) calls table = refl

module _ {E : Type 0} (codec : Bencode) where
  call-limit : (c : Call) (w : World E DhtClient) → (call codec c w).limit ≡ w.limit
  unfolding call
  call-limit bootstrap w = Calm.kept (bootstrap-Calm codec w)
  call-limit (ping addr) w = Calm.kept (ping-Calm codec addr w)
  call-limit (find_node addr target) w = Calm.kept (find_node-Calm codec addr target w)
  call-limit (get_peers addr info_hash) w = Calm.kept (get_peers-Calm codec addr info_hash w)
  call-limit (announce_peer addr info_hash port token) w =
      Calm.kept (announce_peer-Calm codec addr info_hash port token w)
  call-limit (announce topic port) w = Calm.kept (announce-Calm codec topic port w)
  call-limit (lookup topic) w = Calm.kept (lookup-Calm codec topic w)
  call-limit (add_node node_id addr e) w = refl

  run-limit : (calls : List Call) (w : World E DhtClient) → (run codec calls w).limit ≡ w.limit
  unfolding run
  run-limit [] w = refl
  run-limit (c ∷ calls) w = run-limit calls (call codec c w) ∙ call-limit c w

  call-Deaf :
      (c : Call) (table : RoutingTable) (w : World E DhtClient)
      → Deaf codec table w
      → Deaf codec (table_after c table) (call codec c w)
  unfolding call add_all add_node_to_routing_table
  call-Deaf bootstrap table w d = StaysDeaf.deaf (bootstrap-StaysDeaf codec table w d)
  call-Deaf (ping addr) table w d = StaysDeaf.deaf (ping-StaysDeaf codec table addr w d).0
  call-Deaf (find_node addr target) table w d =
      StaysDeaf.deaf (find_node-StaysDeaf codec table addr target w d).0
  call-Deaf (get_peers addr info_hash) table w d =
      StaysDeaf.deaf (get_peers-StaysDeaf codec table addr info_hash w d).0
  call-Deaf (announce_peer addr info_hash port token) table w d =
      StaysDeaf.deaf (announce_peer-StaysDeaf codec table addr info_hash port token w d).0
  call-Deaf (announce topic port) table w d =
      StaysDeaf.deaf (announce-StaysDeaf codec table topic port w d)
  call-Deaf (lookup topic) table w d = Yields.deaf (lookup-Yields codec table topic w d)
  call-Deaf (add_node node_id addr e) table w d = record {
    unread = d.unread;
    same = ap (Table.add_node node_id addr) d.same;
  }

  run-Deaf :
      (calls : List Call) (table : RoutingTable) (w : World E DhtClient)
      → Deaf codec table w
      → Deaf codec (add_all (added calls) table) (run codec calls w)
  unfolding run add_all
  run-Deaf [] table w d = d
  run-Deaf (c ∷ calls) table w d =
      rw (add_all-added c calls table)
        (run-Deaf calls (table_after c table) (call codec c w) (call-Deaf c table w d))

IsDone-Gives :
    {E : Type 0} (peers : List PeerAddress) (r : Outcome (DhtError E) (List PeerAddress))
    → IsDone r
    → Gives peers r
    → r ≡ done peers
IsDone-Gives peers (done found) n h = ap done h
IsDone-Gives peers (fail e) n h = absurd n
IsDone-Gives peers elapsed n h = absurd n
IsDone-Gives peers pending n h = absurd n
IsDone-Gives peers panicked n h = absurd n

module _ {E : Type 0} where
  -- Every datagram is a message of BEP 5, and fits the buffer.
  abbrev pub AllMainline : (Value → Result String (List ℕ)) → List (ℕ × Event E) → Type 0
  AllMainline write [] = Unit
  AllMainline write ((time, datagram from bytes) ∷ rest) =
      ((v : Value) × IsBep5 v × (write v ≡ ok bytes) × (length bytes ≤ 2048))
      × AllMainline write rest
  AllMainline write ((time, recv_error e) ∷ rest) = AllMainline write rest

module _ (utf8 : Utf8) (write : Value → Result String (List ℕ)) (codec : Bencode)
    (derived : IsDerived utf8 write codec) {E : Type 0} where
  mainline-AllUnread :
      (inbox : List (ℕ × Event E)) → AllMainline write inbox → AllUnread codec inbox
  mainline-AllUnread [] h = tt
  mainline-AllUnread ((time, datagram from bytes) ∷ rest) ((v, b, written, fits), more) = (
    λ msg.
        rw (take_of_le max_krpc_message_size bytes fits)
          (from_bytes-IsBep5 utf8 write codec derived v bytes msg b written),
    mainline-AllUnread rest more,
  )
  mainline-AllUnread ((time, recv_error e) ∷ rest) h = mainline-AllUnread rest h

  -- With no timer around the client: when all that comes are messages of BEP 5, no call adds a
  -- node to the table but the ones that add it by hand, whatever the calls are, and whatever the
  -- resolver and the sends do; and a `lookup` after them returns `Ok` with no peers.
  pub mainline_isolates :
      (calls : List Call) (topic : List ℕ) (w : World E DhtClient)
      → w.limit ≡ none
      → AllMainline write w.inbox
      → ((run codec calls w).self.routing_table ≡ add_all (added calls) w.self.routing_table)
        × ((Topics.lookup codec topic (run codec calls w)).0 ≡ done [])
  mainline_isolates calls topic w free h =
      let unread : Deaf codec w.self.routing_table w = record {
        unread = mainline-AllUnread w.inbox h;
        same = refl;
      } in
      let d = run-Deaf codec calls w.self.routing_table w unread in
      let yields = lookup-Yields codec _ topic (run codec calls w) d in
      let total = lookup_total codec (run codec calls w) (run-limit codec calls w ∙ free) topic in
      (d.same, IsDone-Gives [] _ total.0 (Yields.gives yields))
