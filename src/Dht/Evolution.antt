-- ===== src/Dht/Evolution.antt =====
-- What the operations of crates/hyperswarm-rs/src/dht.rs do to the client: each takes some steps,
-- and each step is atomic in the source, under one of the client's two locks. So a history of
-- several tasks that share the client is a sequence of steps too.
pub mod Operations
pub mod Topics
pub mod History
use hyperswarm.Base.{
  ℕ, ◌+◌, ◌≤◌, ◌<◌, ◌-◌, ◌^◌, ◌≡◌, refl, ◌∙◌, subst, sym, List, [], ◌∷◌, ◌++◌, arith, length,
  length-append, length-take, drop,
}
use hyperswarm.Net.{SocketAddr}
use hyperswarm.Net.Moves.{IsPreorder}
use hyperswarm.Dht.Table.{NodeInfo, RoutingTable, add_node, max_routing_table_size}
use hyperswarm.Dht.Client.{DhtClient, advance, add_node_to_routing_table}

pub data Step : DhtClient → DhtClient → Type 0 where
  take_id : (c : DhtClient) → Step c (advance c)
  store :
      (c : DhtClient) (node_id : List ℕ) (addr : SocketAddr)
      → length node_id ≡ 20
      → Step c (add_node_to_routing_table node_id addr c)

pub data Reach (c : DhtClient) : DhtClient → Type 0 where
  here : Reach c c
  next : {d e : DhtClient} → Reach c d → Step d e → Reach c e

pub Reach-trans : {c d e : DhtClient} → Reach c d → Reach d e → Reach c e
Reach-trans r here = r
Reach-trans r (next q s) = next (Reach-trans r q) s

pub Reach-IsPreorder : IsPreorder Reach
Reach-IsPreorder = record {
  stays = λ s t e. subst (Reach s) (sym e) here;
  trans = λ _ _ _ r q. Reach-trans r q;
}

-- Every id in the table has 20 bytes.
abbrev pub AllIds : List NodeInfo → Type 0
AllIds [] = Unit
AllIds (n ∷ ns) = (length n.node_id ≡ 20) × AllIds ns

pub record IsValid (c : DhtClient) : Type 0 where
  pub own_id : length c.node_id ≡ 20
  pub bounded : length c.routing_table.nodes ≤ max_routing_table_size
  pub ids : AllIds c.routing_table.nodes
  pub word : c.next_transaction_id < 2 ^ 16

AllIds-append :
    (ns : List NodeInfo) (n : NodeInfo)
    → AllIds ns
    → length n.node_id ≡ 20
    → AllIds (ns ++ (n ∷ []))
AllIds-append [] n h e = (e, tt)
AllIds-append (m ∷ ns) n h e = (h.0, AllIds-append ns n h.1 e)

AllIds-drop : (ns : List NodeInfo) → AllIds ns → AllIds (drop 1 ns)
unfolding drop
AllIds-drop [] h = tt
AllIds-drop (n ∷ ns) h = h.1

length-drop_one : (ns : List NodeInfo) → length (drop 1 ns) ≤ length ns - 1
unfolding drop
length-drop_one [] = omega arith
length-drop_one (n ∷ ns) = omega arith

Step-IsValid : {c d : DhtClient} → Step c d → IsValid c → IsValid d
unfolding advance add_node_to_routing_table add_node
Step-IsValid (take_id c) v = ground arith
Step-IsValid (store c node_id addr e) v =
    let n : NodeInfo = record { node_id = node_id; addr = addr } in
    let ns = c.routing_table.nodes in
    ground (
      arith,
      length-append ns (n ∷ []),
      length-drop_one (ns ++ (n ∷ [])),
      AllIds-append ns n v.ids e,
      AllIds-drop (ns ++ (n ∷ [])),
    )

pub Reach-IsValid : {c d : DhtClient} → Reach c d → IsValid c → IsValid d
Reach-IsValid here v = v
Reach-IsValid (next r s) v = Step-IsValid s (Reach-IsValid r v)

Step-bootstrap_nodes : {c d : DhtClient} → Step c d → d.bootstrap_nodes ≡ c.bootstrap_nodes
unfolding advance add_node_to_routing_table
Step-bootstrap_nodes (take_id c) = refl
Step-bootstrap_nodes (store c node_id addr e) = refl

pub Reach-bootstrap_nodes : {c d : DhtClient} → Reach c d → d.bootstrap_nodes ≡ c.bootstrap_nodes
Reach-bootstrap_nodes here = refl
Reach-bootstrap_nodes (next r s) = Step-bootstrap_nodes s ∙ Reach-bootstrap_nodes r
