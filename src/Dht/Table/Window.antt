-- ===== src/Dht/Table/Window.antt =====
-- The routing table against its specification: the window of the last hundred additions.
use hyperswarm.Base.{
  ℕ, suc, ◌-◌, ◌≡◌, refl, List, [], ◌∷◌, ◌++◌, arith, length, drop, ltb, length-append, length-drop,
  drop_one-drop, drop-append_of_le, Bool-cases, inl, inr,
}
use mathlib.Core.List.{append-nil, append_assoc}
use hyperswarm.Dht.Table.{
  NodeInfo, RoutingTable, max_routing_table_size, new_table, evict, add_node,
}

-- `add_node` for each of the nodes in turn.
unfoldable pub add_all : List NodeInfo → RoutingTable → RoutingTable
add_all [] rt = rt
add_all (n ∷ ns) rt = add_all ns (add_node n.node_id n.addr rt)

-- The last hundred of a history, oldest first.
pub window : List NodeInfo → List NodeInfo
window history = drop (length history - max_routing_table_size) history

-- `l` is one less than the length, so that the list is `window` of a history and one node more.
evict-drop :
    (l : ℕ) (ns : List NodeInfo)
    → length ns ≡ suc l
    → evict (drop (l - max_routing_table_size) ns) ≡ drop (suc l - max_routing_table_size) ns
evict-drop l ns e =
    let size = length-drop (l - 100) ns in
    elim (Bool-cases (ltb max_routing_table_size (length (drop (l - 100) ns)))) [
      | inl full ↦
          let next : suc l - 100 ≡ suc (l - 100) = ground arith in
          rw (full, next) (drop_one-drop (l - 100) ns)
      | inr room ↦
          let short : l - 100 ≡ 0 = ground arith in
          let none_yet : suc l - 100 ≡ 0 = ground arith in rw (room, short, none_yet)
    ]

add_node-window :
    (history : List NodeInfo) (n : NodeInfo) (rt : RoutingTable)
    → rt.nodes ≡ window history
    → (add_node n.node_id n.addr rt).nodes ≡ window (history ++ (n ∷ []))
unfolding add_node window
add_node-window history n rt e =
    let l = length history in
    let size : length (history ++ (n ∷ [])) ≡ suc l =
      omega (arith, length-append history (n ∷ [])) in
    rw (e, size, ← drop-append_of_le (l - 100) history (n ∷ []) (omega arith))
      (evict-drop l (history ++ (n ∷ [])) size)

add_all-window :
    (ns history : List NodeInfo) (rt : RoutingTable)
    → rt.nodes ≡ window history
    → (add_all ns rt).nodes ≡ window (history ++ ns)
unfolding add_all
add_all-window [] history rt e = rw append-nil e
add_all-window (n ∷ ns) history rt e =
    rw (← append_assoc history (n ∷ []) ns)
      (add_all-window ns (history ++ (n ∷ [])) _ (add_node-window history n rt e))

-- After any additions to a new table, the table holds exactly the last hundred of them, in order.
pub add_all-eq-window : (ns : List NodeInfo) → (add_all ns new_table).nodes ≡ window ns
unfolding window drop
add_all-eq-window ns = add_all-window ns [] new_table refl
