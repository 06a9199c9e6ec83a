-- ===== src/Dht/Concurrent.antt =====
-- crates/hyperswarm-rs/src/dht.rs, `recv_krpc` and `recv_response`: queries of several tasks that
-- wait on the client's one socket at once. A datagram goes to the task that receives first, and a
-- schedule is the order of the tasks' receives. A task whose timer has fired receives no more.
pub mod Interleaved
pub mod Stolen
use hyperswarm.Base.{
  ap, ℕ, zero, suc, ◌≡◌, List, [], ◌∷◌, if◌then◌else◌, ◌==◌, same_bytes, take, true, false,
}
use hyperswarm.Net.{Event, datagram, recv_error, Result, ok, err}
use hyperswarm.Protocol.{KrpcMessage, ProtocolError, Bencode, decode_krpc}
use hyperswarm.Dht.Client.{
  DhtError, io, protocol, timed_out, max_krpc_message_size, max_response_attempts,
}

-- Where a `recv_response` is: in a receive, with that many attempts after it, or at its end.
pub data Phase (E : Type 0) : Type 0 where
  waiting : ℕ → Phase E
  returned : KrpcMessage → Phase E
  failed : DhtError E → Phase E

pub record Waiter (E : Type 0) : Type 0 where
  pub tx_id : List ℕ
  pub phase : Phase E

-- The socket's queue, and the tasks by number.
pub record Shared (E : Type 0) : Type 0 where
  pub queue : List (Event E)
  pub waiters : ℕ → Waiter E

module _ {E : Type 0} where
  -- The head of the loop, by the attempts left.
  abbrev pub next_attempt : ℕ → Phase E
  next_attempt zero = failed timed_out
  next_attempt (suc attempts) = waiting attempts

  -- `DhtClient::recv_response` is called.
  abbrev pub begin : List ℕ → Waiter E
  begin tx_id = record { tx_id = tx_id; phase = next_attempt max_response_attempts }

  abbrev pub set_waiter : ℕ → Waiter E → (ℕ → Waiter E) → ℕ → Waiter E
  set_waiter i x waiters j = if i == j then x else waiters j

  abbrev pub on_decoded : Result ProtocolError KrpcMessage → List ℕ → ℕ → Phase E
  on_decoded (err e) tx_id attempts = failed (protocol e)
  on_decoded (ok msg) tx_id attempts =
      if same_bytes msg.t tx_id then returned msg else next_attempt attempts

module _ {E : Type 0} (codec : Bencode) where
  -- What a task does with what it received, up to its next receive.
  abbrev pub on_event : Event E → List ℕ → ℕ → Phase E
  on_event (recv_error e) tx_id attempts = failed (io e)
  on_event (datagram from bytes) tx_id attempts =
      on_decoded (decode_krpc codec (take max_krpc_message_size bytes)) tx_id attempts

  -- The task `i` is in the phase `phase`, and the socket's queue is given.
  unfoldable pub turn : ℕ → Phase E → List (Event E) → Shared E → Shared E
  turn i (waiting attempts) (event ∷ rest) s =
      let tx_id = (s.waiters i).tx_id in
      record {
        queue = rest;
        waiters =
            set_waiter i (record { tx_id = tx_id; phase = on_event event tx_id attempts })
              s.waiters;
      }
  turn i (waiting attempts) [] s = s
  turn i (returned msg) queue s = s
  turn i (failed e) queue s = s

  unfoldable pub receive : ℕ → Shared E → Shared E
  receive i s = turn i (s.waiters i).phase s.queue s

  unfoldable pub run : List ℕ → Shared E → Shared E
  run [] s = s
  run (i ∷ schedule) s = run schedule (receive i s)

  pub receive_own :
      (i : ℕ) (phase : Phase E) (tx_id : List ℕ) (s : Shared E)
      → s.waiters i ≡ record { tx_id = tx_id; phase = phase }
      → receive i s ≡ turn i phase s.queue s
  unfolding receive
  receive_own i phase tx_id s p = ap (λ (x : Waiter E). turn i x.phase s.queue s) p
