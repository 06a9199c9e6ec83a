-- ===== src/Tests/Concurrent.antt =====
-- Two queries that wait on one socket.
use hyperswarm.Base.{
  true, ℕ, ◌≡◌, ◌≢◌, refl, ap, ◌∙◌, none, List, [], ◌∷◌, arith, take, get_or, same_bytes,
}
use hyperswarm.Net.{World, Event, datagram, Result, ok, err, done, silent}
use hyperswarm.Protocol.{KrpcMessage, ProtocolError, decode_krpc}
use hyperswarm.Dht.Client.{DhtClient, recv_response}
use hyperswarm.Dht.Concurrent.{Shared, begin, returned, turn, receive, run}
use hyperswarm.Dht.Concurrent.Interleaved.{interleaved}
use hyperswarm.Dht.Concurrent.Stolen.{receive_stolen}
use hyperswarm.Tests.Lookup.{plain, message, client, node}

abbrev first : List ℕ
first = 0 ∷ 0 ∷ 10 ∷ 0 ∷ 0 ∷ 1 ∷ 0 ∷ 80 ∷ []

abbrev second : List ℕ
second = 0 ∷ 1 ∷ 10 ∷ 0 ∷ 0 ∷ 2 ∷ 0 ∷ 80 ∷ []

abbrev tx_of : ℕ → List ℕ
tx_of i = 0 ∷ i ∷ []

abbrev waiting_for : List (Event ℕ) → Shared ℕ
waiting_for queue = record { queue = queue; waiters = λ i. begin (tx_of i) }

-- The responses in the order in which the queries receive, and the other way around.
abbrev in_order : Shared ℕ
in_order = waiting_for (datagram (node 1).addr first ∷ datagram (node 2).addr second ∷ [])

abbrev swapped : Shared ℕ
swapped = waiting_for (datagram (node 2).addr second ∷ datagram (node 1).addr first ∷ [])

abbrev second_message : KrpcMessage
second_message = message 0 1 (10 ∷ 0 ∷ 0 ∷ 2 ∷ 0 ∷ 80 ∷ [])

abbrev tx_id_of : Result ProtocolError KrpcMessage → List ℕ
tx_id_of (err _) = []
tx_id_of (ok msg) = msg.t

abbrev alone : World ℕ DhtClient
alone = record {
  now = 0;
  limit = none;
  inbox = (3, datagram (node 2).addr second) ∷ [];
  sends = [];
  sent = [];
  dns = λ _ _. silent;
  ties = λ _. true;
  self = client;
}

interleaved_example :
    ((recv_response plain (tx_of 1) alone).0 ≡ done second_message)
    × ((recv_response plain (tx_of 1) alone).1.inbox ≡ [])
unfolding run receive turn decode_krpc take same_bytes
interleaved_example = interleaved plain (0 ∷ 1 ∷ []) 1 (tx_of 1) in_order alone refl refl refl

-- The first query receives the response of the second, and the second that of the first.
receive_stolen_example :
    (((receive plain 1 swapped).waiters 1).phase ≡ returned second_message)
    × (((run plain (1 ∷ 0 ∷ []) (receive plain 0 swapped)).waiters 1).phase
        ≢ returned second_message)
unfolding decode_krpc take
receive_stolen_example =
    receive_stolen plain (1 ∷ 0 ∷ []) 0 1 9 9 (tx_of 0) (node 2).addr second
      (datagram (node 1).addr first ∷ []) second_message second_message swapped
      (λ e. omega (arith, e)) refl refl refl refl
      ((λ msg d e. omega (arith, ap (λ l. get_or l 1 0) (ap tx_id_of d ∙ e))), tt)
