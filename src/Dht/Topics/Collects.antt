-- ===== src/Dht/Topics/Collects.antt =====
-- `lookup` over nodes that answer.
use mathlib.Core.List.{append_assoc, append-nil}
use hyperswarm.Base.{
  ℕ, ◌+◌, ◌≤◌, ◌≡◌, refl, ap, ◌∙◌, sym, false, none, some, List, [], ◌∷◌, ◌++◌, arith, is_empty,
}
use hyperswarm.Net.{World, Event, datagram, recv_error, ok, done}
use hyperswarm.Protocol.{KrpcMessage, KrpcQueryKind, default_args, Bencode}
use hyperswarm.Dht.Table.{NodeInfo}
use hyperswarm.Dht.Compact.{PeerAddress}
use hyperswarm.Dht.Client.{DhtClient, advance, transaction_id}
use hyperswarm.Dht.Query.{query_message, response_peers, get_peers}
use hyperswarm.Dht.Query.Answers.{AllStrayBy, Answer, exchange_answered, after_query}
use hyperswarm.Dht.Topics.{gather, lookup, topic_nodes, bootstrap_if_empty}

-- The peers in some responses, in their order.
abbrev pub peers_of : List KrpcMessage → List PeerAddress
peers_of [] = []
peers_of (m ∷ ms) = (response_peers m.r).0 ++ peers_of ms

module _ (codec : Bencode) where
  -- The message of a query for peers can be encoded, under any transaction id.
  abbrev pub CanAsk : List ℕ → List ℕ → Type 0
  CanAsk node_id info_hash =
      (tx_id : List ℕ)
      → (bytes : List ℕ) × (codec.to_bytes (
            query_message tx_id KrpcQueryKind.get_peers
              (record default_args { info_hash = some info_hash; id = some node_id }))
          ≡ ok bytes)

module _ {E : Type 0} (codec : Bencode) where
  AllStrayBy-later :
      (tx_id : List ℕ) (a b : ℕ) (strays : List (ℕ × Event E))
      → a ≤ b
      → AllStrayBy codec tx_id a strays
      → AllStrayBy codec tx_id b strays
  AllStrayBy-later tx_id a b [] h s = tt
  AllStrayBy-later tx_id a b ((t, datagram from bytes) ∷ rest) h s =
      let (msg, soon, decoded, other) = s.0 in
      ((msg, omega arith, decoded, other), AllStrayBy-later tx_id a b rest h s.1)
  AllStrayBy-later tx_id a b ((t, recv_error e) ∷ rest) h s = s

  Answer-later :
      (tx_id : List ℕ) (a b : ℕ) (inbox rest : List (ℕ × Event E)) (m : KrpcMessage)
      → a ≤ b
      → Answer codec tx_id a inbox rest m
      → Answer codec tx_id b inbox rest m
  Answer-later tx_id a b inbox rest m h x = record {
    strays = x.strays;
    time = x.time;
    from = x.from;
    bytes = x.bytes;
    queue = x.queue;
    stray = AllStrayBy-later tx_id a b x.strays h x.stray;
    few = x.few;
    soon = omega (arith, x.soon);
    decoded = x.decoded;
    own = x.own;
  }

  -- The nodes answer one after the other, all by the time `last`, each to the transaction id that
  -- it was asked with.
  abbrev pub AllAnswer :
      ℕ
      → List NodeInfo
      → DhtClient
      → List (ℕ × Event E)
      → List KrpcMessage
      → List (ℕ × Event E)
      → Type 0
  AllAnswer last [] c inbox [] rest = inbox ≡ rest
  AllAnswer last [] c inbox (_ ∷ _) rest = ⊥
  AllAnswer last (node ∷ nodes) c inbox [] rest = ⊥
  AllAnswer last (node ∷ nodes) c inbox (m ∷ ms) rest =
      (behind : List (ℕ × Event E)) × Answer codec (transaction_id c) last inbox behind m
      × AllAnswer last nodes (advance c) behind ms rest

  get_peers_answered :
      (node : NodeInfo) (info_hash : List ℕ) (rest : List (ℕ × Event E)) (m : KrpcMessage)
      → (w : World E DhtClient) → w.limit ≡ none
      → w.sends ≡ []
      → CanAsk codec w.self.node_id info_hash
      → Answer codec (transaction_id w.self) (w.now + 5000) w.inbox rest m
      → (now : ℕ) × (w.now ≤ now)
        × (bytes : List ℕ) × (get_peers codec node.addr info_hash w
            ≡ (done (response_peers m.r), after_query codec w now rest node.addr bytes))
  unfolding get_peers
  get_peers_answered node info_hash rest m w l s ask a =
      let (bytes, encoded) = ask (transaction_id w.self) in
      let (now, later, e) =
        exchange_answered codec node.addr KrpcQueryKind.get_peers
          (record default_args { info_hash = some info_hash }) bytes rest m w l s encoded a in
      (now, later, bytes, rw e refl)

  gather-collects :
      (last : ℕ) (nodes : List NodeInfo) (info_hash : List ℕ) (found : List PeerAddress)
      → (ms : List KrpcMessage) (rest : List (ℕ × Event E)) (w : World E DhtClient) → w.limit ≡ none
      → w.sends ≡ []
      → CanAsk codec w.self.node_id info_hash
      → last ≤ w.now + 5000
      → AllAnswer last nodes w.self w.inbox ms rest
      → ((gather codec nodes info_hash found w).0 ≡ done (found ++ peers_of ms))
        × ((gather codec nodes info_hash found w).1.inbox ≡ rest)
  unfolding gather advance
  gather-collects last [] info_hash found [] rest w l s ask h a =
      (ap done (sym (append-nil found)), a)
  gather-collects last [] info_hash found (m ∷ ms) rest w l s ask h a = absurd a
  gather-collects last (node ∷ nodes) info_hash found [] rest w l s ask h a = absurd a
  gather-collects last (node ∷ nodes) info_hash found (m ∷ ms) rest w l s ask h a =
      let (behind, first, others) = a in
      let answer =
        Answer-later (transaction_id w.self) last (w.now + 5000) w.inbox behind m h first in
      let (now, later, bytes, e) = get_peers_answered node info_hash behind m w l s ask answer in
      let v = after_query codec w now behind node.addr bytes in
      let (value, left) =
        gather-collects last nodes info_hash (found ++ (response_peers m.r).0) ms rest v l refl ask
          (omega arith) others in
      rw e (value ∙ ap done (append_assoc found (response_peers m.r).0 (peers_of ms)), left)

  -- With no timer around it and sends that succeed, on a client that knows some nodes: when the
  -- nodes that it asks, ten at most, answer one after the other within five seconds of the call,
  -- each behind fewer than ten messages of other transactions, `lookup` gives the peers of all the
  -- answers, in the order of the table, and it takes nothing more from the inbox.
  pub lookup_collects :
      (topic : List ℕ) (ms : List KrpcMessage) (rest : List (ℕ × Event E))
      → (w : World E DhtClient) → w.limit ≡ none
      → w.sends ≡ []
      → is_empty (topic_nodes w.self) ≡ false
      → CanAsk codec w.self.node_id topic
      → AllAnswer (w.now + 5000) (topic_nodes w.self) w.self w.inbox ms rest
      → ((lookup codec topic w).0 ≡ done (peers_of ms)) × ((lookup codec topic w).1.inbox ≡ rest)
  unfolding lookup bootstrap_if_empty
  lookup_collects topic ms rest w l s known ask answers = rw known (
      gather-collects (w.now + 5000) (topic_nodes w.self) topic [] ms rest w l s ask (omega arith)
        answers)
