-- ===== src/Lib.antt =====
-- A model of the Rust crate crates/hyperswarm-rs: peer discovery over a DHT, UDP hole punching
-- and their wire formats.
--
-- The program's parts. A `DhtClient` (src/dht.rs below crates/hyperswarm-rs) keeps a routing
-- table and a transaction counter and sends KRPC messages (src/protocol.rs) over one UDP
-- socket: queries, a bootstrap, and `announce` and `lookup` for topics. A `HolepunchSession`
-- (src/holepunch.rs) opens a way between two peers behind NATs with authenticated packets. An
-- `EncryptedStream` (src/transport.rs) runs a Noise XX handshake with one peer and then
-- encrypts what it sends. A `Hyperswarm` (src/lib.rs) has a client and a `DiscoveryManager`
-- (src/discovery.rs), which joins and leaves topics by calls on the client.
--
-- The files. Net.antt is what the async functions run against: a `World` has the time in
-- milliseconds, the datagrams and errors that the socket will see with their times of arrival,
-- the fates of the sends to come, what was sent, the resolver, and the object whose methods
-- run. An async function is a function from a world to an outcome and a world. `timeout`,
-- `recv_from`, `send_to` and `lookup_host` stand for tokio's. Time passes only while a function
-- waits; a receive takes the next datagram, waits for it, or is ended by the nearest timer;
-- when two timers fire at once the inner one is seen first, and a datagram that arrives with a
-- timer is received. Its children have the rules: Calm (timers are kept and obeyed, no panic),
-- Success, Ends (bounds in time), Moves (what happens to the object), Receive, Invert, Drains
-- (loops that drain the inbox) and Select (the `select!` of a receive and a sleep; which of the
-- two it takes when both become ready together is up to the world, by a function of the time
-- that every theorem leaves open). Protocol.antt is src/protocol.rs; below it, Wire is the form
-- of a message as a bencode value, which serde derives from the attributes, Read reads it back,
-- and Bep5 compares it with the mainline DHT's. Dht/Table, Dht/Compact, Dht/Client, Dht/Query
-- and Dht/Topics are src/dht.rs: the routing table, the compact formats of BEP 5, the client
-- with its ids and the matching of responses, the four queries with the bootstrap (Answers:
-- queries that are answered), and the operations on topics (Collects: `lookup` over nodes that
-- answer). Dht/Concurrent has the waits of several tasks on the client's socket, with a
-- schedule of their receives. Dht/Evolution has the atomic steps of the client, one for each
-- section under one of its locks. Dht/Deaf is about a client that can read nothing of what
-- comes (Queries, Topics), as one among mainline nodes (Isolated). Holepunch/Packet and
-- Holepunch/Session are src/holepunch.rs; the session's children are its phases, Choice (the
-- candidate that `initiate` reports), Hears, Sends (what `punch_to` sends) and Pair (two
-- sessions against one another). Transport is src/transport.rs; its children are Bounded (the
-- handshakes end), Auth and Sound (what a successful handshake has read), Progress and History
-- (how calls change a stream), Channel and Strangers (sending and receiving), Awaits, Pattern,
-- Pair and Mismatch (two parties against one another) and Conversation (what they say after the
-- handshake). Discovery is src/discovery.rs and Swarm is src/lib.rs, with Membership (the set
-- of topics), Joining (`join` returns) and Validity (what calls keep). Examples is the programs
-- below crates/hyperswarm-rs/examples: Explore and Connect are the steps of p2p_connection.rs,
-- Connection its run, and Programs the other two. Net/Zoom runs a call on a part of an object,
-- and Net/Reached is about calls that cannot fail. Suite has tests, each as a Boolean, with the
-- theorems that they pass: those of the source files (Handshakes: two streams, each with a
-- socket), and of those below crates/hyperswarm-rs/tests two clients in dht_discovery.rs
-- (Discovery) and encrypted_transport.rs (Streams). Tests has runs and instances. Functions
-- keep the names of the source; a loop is a function of its own beside its function.
--
-- Bounds and fuel. Loops over a list recur on it. `chunks` has as many rounds as there are
-- bytes. The loop of `punch_to` has one round for each datagram in the inbox and twelve more: a
-- round takes a datagram or ends a retry interval, of which ten fit into the two seconds. The
-- loop of `recv_and_respond` has one round more than there are datagrams; when they are used up
-- the receive itself waits for ever or is ended by the timer. So for the loops of the
-- handshakes and of `recv`: a round takes a datagram or ends the loop. A byte is a number below
-- 256 and a port or a transaction id below 2 ^ 16, where a statement needs it.
--
-- What is a parameter. The bencode codec of serde_bencode (`Bencode`; where its relation to the
-- wire form matters, `IsDerived` says that it writes the wire form, and reads "y" by its name),
-- the MAC of the crate blake2 (`Blake2s`, with its documented laws), the crate snow (`Noise`),
-- BLAKE2b, the texts of errors (`Display`), `std::io::Error` (a type), the binding of a socket
-- and its address, the random node id and the random key pair.
--
-- What is not modelled. Logging; the scope and flow of an IPv6 socket address; the time that a
-- computation or a send takes; the lock around the state of a stream, which only the holder of
-- a `&mut` takes. The JavaScript library (index.js and lib) with its tests is not modelled, nor
-- are holepunch_flow.rs, bootstrap_resilience.rs and the second test of dht_discovery.rs among
-- the integration tests. Left out is also the unit test of concurrent bootstraps, whose tasks
-- interleave inside one call, where a call is here one function from a world to a world
-- (Dht/Concurrent has the waits of such tasks alone); of what the examples print, only how
-- their calls have ended.
pub mod Base
pub mod Net
pub mod Protocol
pub mod Dht
pub mod Holepunch
pub mod Transport
pub mod Discovery
pub mod Swarm
pub mod Examples
pub mod Suite
mod Tests
