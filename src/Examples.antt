-- ===== src/Examples.antt =====
-- crates/hyperswarm-rs/examples: the three programs, which put the parts of the crate together.
-- What a program prints is its result, where it prints how a call has ended.
pub mod Explore
pub mod Connect
pub mod Connection
pub mod Programs
use hyperswarm.Base.{ℕ, Option, none, some, List, [], ◌∷◌, String}
use hyperswarm.Net.{
  SocketAddr, v4, Result, ok, err, M, ◌>>=◌, ◌>>◌, pure, lift, expect, map_err, attempt, timeout,
}
use hyperswarm.Net.Zoom.{zoom}
use hyperswarm.Protocol.{Bencode, map_error}
use hyperswarm.Dht.Compact.{PeerAddress}
use hyperswarm.Dht.Client.{DhtConfig, DhtError, DhtClient, new_client}
use hyperswarm.Dht.Query.{bootstrap}
use hyperswarm.Dht.Topics.{announce, lookup}
use hyperswarm.Holepunch.Session.{Candidate, CandidateKind, HolepunchError, new_session, probe}
use hyperswarm.Transport.{Noise, Keypair, TransportError, new_stream, send}
use hyperswarm.Discovery.{Topic, Hyperswarm}
use hyperswarm.Swarm.{
  SwarmError, Display, default_config, from_key, new_swarm, join, flush_swarm, destroy,
}

-- `Box<dyn Error>`.
pub data ExampleError (E : Type 0) : Type 0 where
  io : E → ExampleError E
  dht : DhtError E → ExampleError E
  swarm_error : SwarmError → ExampleError E
  holepunch : HolepunchError E → ExampleError E
  transport : TransportError E → ExampleError E

-- What the programs get from their surroundings: how the binding of each socket ends, by the
-- number of sockets before it, the address of the session's socket, and random values.
pub record Machine (E : Type 0) : Type 0 where
  pub bind : ℕ → SocketAddr → Result E (Unit {0})
  pub local_addr : Result E SocketAddr
  pub random_id : List ℕ
  pub keypair : Result String Keypair
  pub blake2b512 : List ℕ → List ℕ

abbrev pub example_nodes : List String
example_nodes = "router.bittorrent.com:6881" ∷ "dht.transmissionbt.com:6881" ∷ []

abbrev pub localhost : ℕ → SocketAddr
localhost port = record { ip = v4 127 0 0 1; port = port }

-- `format!("0.0.0.0:{}", port)`.
abbrev pub any_address : ℕ → SocketAddr
any_address port = record { ip = v4 0 0 0 0; port = port }

-- b"example-topic-12345" and b"example-p2p-connection".
abbrev pub announce_key : List ℕ
announce_key =
    101 ∷ 120 ∷ 97 ∷ 109 ∷ 112 ∷ 108 ∷ 101 ∷ 45 ∷ 116 ∷ 111 ∷ 112 ∷ 105 ∷ 99 ∷ 45 ∷ 49 ∷ 50 ∷ 51
    ∷ 52 ∷ 53 ∷ []

abbrev pub connection_key : List ℕ
connection_key =
    101 ∷ 120 ∷ 97 ∷ 109 ∷ 112 ∷ 108 ∷ 101 ∷ 45 ∷ 112 ∷ 50 ∷ 112 ∷ 45 ∷ 99 ∷ 111 ∷ 110 ∷ 110 ∷ 101
    ∷ 99 ∷ 116 ∷ 105 ∷ 111 ∷ 110 ∷ []

abbrev pub candidates : List Candidate
candidates =
    (record { addr = localhost 9001; kind = CandidateKind.lan })
    ∷ (record { addr = localhost 9002; kind = CandidateKind.wan })
    ∷ []

-- What `p2p_connection` prints.
pub record Report (E : Type 0) : Type 0 where
  pub bootstrapped : Result (DhtError E) (Unit {0})
  pub announced : Result (DhtError E) (Unit {0})
  pub found : Option (Result (DhtError E) (List PeerAddress))
  pub sent : Result (TransportError E) (Unit {0})

-- What its first three steps leave.
pub record Explored (E : Type 0) : Type 0 where
  pub topic : Topic
  pub bootstrapped : Result (DhtError E) (Unit {0})
  pub announced : Result (DhtError E) (Unit {0})
  pub found : Option (Result (DhtError E) (List PeerAddress))

module _ {E : Type 0} where
  -- A call on an object that the program owns.
  abbrev pub run_with : {S Err X : Type 0} → S → M E S Err X → M E (Unit {0}) Err X
  run_with s m = zoom (λ _. s) (λ _ u. u) m

  abbrev pub example_client : Machine E → Result (ExampleError E) DhtClient
  example_client machine = map_error ExampleError.dht (
      new_client (λ port. machine.bind 0 (any_address port)) machine.random_id
        (record { bootstrap = example_nodes; bind_port = 0 }))

module _ {E : Type 0} (codec : Bencode) (machine : Machine E) where
  -- `main` of dht_bootstrap.rs.
  unfoldable pub dht_bootstrap : M E (Unit {0}) (ExampleError E) (Result (DhtError E) (Unit {0}))
  dht_bootstrap = do
    client ← lift (example_client machine)
    run_with client (attempt (bootstrap codec))

  -- `main` of topic_announce.rs: from the join on.
  unfoldable pub announce_on :
      Display E → Topic → M E Hyperswarm SwarmError (Result SwarmError (Unit {0}))
  announce_on display topic = do
    joined ← attempt (join display codec topic)
    flush_swarm display
    destroy display
    pure joined

  unfoldable pub topic_announce :
      Display E → M E (Unit {0}) (ExampleError E) (Result SwarmError (Unit {0}))
  topic_announce display = do
    node ← lift (
        map_error ExampleError.swarm_error (
          new_swarm display (λ port. machine.bind 0 (any_address port)) machine.random_id
            default_config))
    topic ← expect (from_key machine.blake2b512 announce_key)
    run_with node (map_err ExampleError.swarm_error (announce_on display topic))

  -- `main` of p2p_connection.rs: up to the peers of the topic.
  unfoldable pub explore : M E DhtClient (ExampleError E) (Explored E)
  explore = do
    bootstrapped ← attempt (bootstrap codec)
    topic ← expect (from_key machine.blake2b512 connection_key)
    announced ← attempt (announce codec topic.bytes 0)
    found ← timeout 5000 (lookup codec topic.bytes)
    pure (record {
      topic = topic;
      bootstrapped = bootstrapped;
      announced = announced;
      found = found;
    })

module _ (n : Noise) {E : Type 0} (machine : Machine E) where
  -- Step 5: an encrypted stream, which is not established.
  unfoldable pub open_stream :
      M E (Unit {0}) (ExampleError E) (Result (TransportError E) (Unit {0}))
  open_stream = do
    lift (map_error ExampleError.io (machine.bind 2 (localhost 0)))
    stream ←
        map_err ExampleError.transport (λ w. (new_stream n machine.keypair (localhost 8080), w))
    run_with stream (attempt (send n (116 ∷ 101 ∷ 115 ∷ 116 ∷ [])))

  -- Step 4, the probes under the session's key, and step 5.
  unfoldable pub connect :
      Topic → M E (Unit {0}) (ExampleError E) (Result (TransportError E) (Unit {0}))
  connect topic = do
    session ←
        lift (
          map_error ExampleError.holepunch (new_session (machine.bind 1) (localhost 0) topic.bytes))
    _ ← lift (map_error (λ e. ExampleError.holepunch (HolepunchError.io e)) machine.local_addr)
    run_with session (map_err ExampleError.holepunch (probe candidates))
    open_stream

module _ (n : Noise) {E : Type 0} (codec : Bencode) (machine : Machine E) where
  unfoldable pub p2p_connection : M E (Unit {0}) (ExampleError E) (Report E)
  p2p_connection = do
    client ← lift (example_client machine)
    explored ← run_with client (explore codec machine)
    sent ← connect n machine explored.topic
    pure (record {
      bootstrapped = explored.bootstrapped;
      announced = explored.announced;
      found = explored.found;
      sent = sent;
    })
