-- ===== src/Dht/Compact/Nodes.antt =====
-- `find_node` reads back the compact node infos of BEP 5.
use hyperswarm.Base.{
  ℕ, zero, suc, ◌+◌, ◌^◌, ◌≤◌, ◌<◌, ◌≡◌, refl, ap, List, [], ◌∷◌, ◌++◌, arith, length, take, drop,
  length-append, length-take, drop_of_le, take-append_eq, drop-append_eq, get_or-append,
}
use mathlib.Core.List.{append_assoc}
use hyperswarm.Net.{v4}
use hyperswarm.Dht.Table.{NodeInfo}
use hyperswarm.Dht.Compact.{compact_node_info_size, to_be_bytes, chunks, parse_chunks, parse_nodes}

-- A node at an IPv4 address, as the format describes it.
pub record Node : Type 0 where
  pub id : List ℕ
  pub a : ℕ
  pub b : ℕ
  pub c : ℕ
  pub d : ℕ
  pub port : ℕ

abbrev pub node_info : Node → NodeInfo
node_info n = record { node_id = n.id; addr = record { ip = v4 n.a n.b n.c n.d; port = n.port } }

abbrev pub node_infos : List Node → List NodeInfo
node_infos [] = []
node_infos (n ∷ ns) = node_info n ∷ node_infos ns

-- 20 bytes of id, 4 of address, 2 of port in network order.
abbrev pub compact : Node → List ℕ
compact n = n.id ++ (n.a ∷ n.b ∷ n.c ∷ n.d ∷ to_be_bytes n.port)

abbrev pub compact_all : List Node → List ℕ
compact_all [] = []
compact_all (n ∷ ns) = compact n ++ compact_all ns

abbrev pub AllEncodable : List Node → Type 0
AllEncodable [] = Unit
AllEncodable (n ∷ ns) = (length n.id ≡ 20) × (n.port < 2 ^ 16) × AllEncodable ns

chunks-cons :
    (r size : ℕ) (bytes : List ℕ)
    → 0 < length bytes
    → chunks (suc r) size bytes ≡ take size bytes ∷ chunks r size (drop size bytes)
unfolding chunks
chunks-cons r size [] h = absurd (omega arith)
chunks-cons r size (b ∷ bytes) h = refl

length-compact : (n : Node) → length n.id ≡ 20 → length (compact n) ≡ 26
length-compact n e = omega (arith, length-append n.id (n.a ∷ n.b ∷ n.c ∷ n.d ∷ to_be_bytes n.port))

parse_chunk :
    (n : Node) (rest : List (List ℕ))
    → length n.id ≡ 20
    → n.port < 2 ^ 16
    → parse_chunks (compact n ∷ rest) ≡ node_info n ∷ parse_chunks rest
unfolding parse_chunks
parse_chunk n rest e p =
    let tail = n.a ∷ n.b ∷ n.c ∷ n.d ∷ to_be_bytes n.port in
    let size = length-compact n e in
    ground (
      arith,
      take-append_eq 20 n.id tail e,
      get_or-append n.id tail 20 0 0,
      get_or-append n.id tail 21 1 0,
      get_or-append n.id tail 22 2 0,
      get_or-append n.id tail 23 3 0,
      get_or-append n.id tail 24 4 0,
      get_or-append n.id tail 25 5 0,
    )

parse_rest :
    (r : ℕ) (rest : List ℕ)
    → length rest < compact_node_info_size
    → parse_chunks (chunks r compact_node_info_size rest) ≡ []
unfolding parse_chunks chunks
parse_rest zero rest h = refl
parse_rest (suc r) [] h = refl
parse_rest (suc zero) (x ∷ rest) h = ground (arith, length-take compact_node_info_size (x ∷ rest))
parse_rest (suc (suc r)) (x ∷ rest) h =
    rw (drop_of_le compact_node_info_size (x ∷ rest) (omega arith))
      (ground (arith, length-take compact_node_info_size (x ∷ rest)))

length-compact_all :
    (n : Node) (ns : List Node) (rest : List ℕ)
    → length n.id ≡ 20
    → length (compact_all (n ∷ ns) ++ rest) ≡ 26 + length (compact_all ns ++ rest)
length-compact_all n ns rest e =
    rw (append_assoc (compact n) (compact_all ns) rest)
      (omega (arith, length-append (compact n) (compact_all ns ++ rest), length-compact n e))

parse_rounds :
    (r : ℕ) (ns : List Node) (rest : List ℕ)
    → AllEncodable ns
    → length (compact_all ns ++ rest) ≤ r
    → length rest < compact_node_info_size
    → parse_chunks (chunks r compact_node_info_size (compact_all ns ++ rest)) ≡ node_infos ns
parse_rounds r [] rest v h short = parse_rest r rest short
parse_rounds zero (n ∷ ns) rest v h short = absurd (omega (arith, length-compact_all n ns rest v.0))
parse_rounds (suc r) (n ∷ ns) rest v h short =
    let more = compact_all ns ++ rest in
    let size = length-compact n v.0 in
    let total = length-compact_all n ns rest v.0 in
    rw
      (
        append_assoc (compact n) (compact_all ns) rest,
        chunks-cons r 26 (compact n ++ more) (omega (arith, length-append (compact n) more)),
        take-append_eq 26 (compact n) more size,
        drop-append_eq 26 (compact n) more size,
        parse_chunk n _ v.0 v.1,
      )
      (ap (◌∷◌ (node_info n)) (parse_rounds r ns rest v.2 (omega arith) short))

-- The nodes that were written in the compact format are read back, in order and exactly, and bytes
-- behind them that are too few for a node are dropped.
pub parse_nodes-compact_all :
    (ns : List Node) (rest : List ℕ)
    → AllEncodable ns
    → length rest < compact_node_info_size
    → parse_nodes (compact_all ns ++ rest) ≡ node_infos ns
unfolding parse_nodes
parse_nodes-compact_all ns rest v short = parse_rounds _ ns rest v (omega arith) short
