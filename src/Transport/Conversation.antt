-- ===== src/Transport/Conversation.antt =====
-- A handshake, and the messages that follow it.
pub mod Exchange
use hyperswarm.Base.{
  ℕ, zero, suc, ◌≤◌, ◌≡◌, refl, ◌≢◌, ◌∙◌, ap, Option, none, some, List, [], ◌∷◌, ◌++◌, arith,
  length, ◌⊎◌,
}
use hyperswarm.Net.{
  World, M, Outcome, done, Event, datagram, SocketAddr, ok, continue, ◌>>=◌, ◌>>◌, pure,
}
use hyperswarm.Transport.{
  Noise, EncryptedStream, StreamState, handshaking, established, TransportError,
  handshake_initiator, handshake_responder, send, send_from, recv,
}
use hyperswarm.Transport.Channel.{AllStrangers, recv_delivers}
use hyperswarm.Transport.Pattern.{Xx, send_peer-sent}
use hyperswarm.Transport.Pair.{InitiatorReady, ResponderReady, Agrees, handshake_pair}

module _ (n : Noise) {E : Type 0} where
  -- One call of `send` for each message.
  abbrev pub send_all : List (List ℕ) → M E (EncryptedStream n) (TransportError E) (Unit {0})
  send_all [] = pure tt
  send_all (message ∷ messages) = send n message >> send_all messages

  -- So many calls of `recv`.
  abbrev pub recv_all : ℕ → M E (EncryptedStream n) (TransportError E) (List (List ℕ))
  recv_all zero = pure []
  recv_all (suc count) = do message ← recv n; messages ← recv_all count; pure (message ∷ messages)

module _ (n : Noise) {E : Type 0} where
  -- The calls of a program at either end: the one speaks first, and hears as many answers.
  abbrev pub speak :
      Option (List ℕ)
      → List (List ℕ)
      → ℕ
      → M E (EncryptedStream n) (TransportError E) (List (List ℕ))
  speak expected messages count =
      handshake_initiator n expected >> (send_all n messages >> recv_all n count)

  abbrev pub reply : ℕ → List (List ℕ) → M E (EncryptedStream n) (TransportError E) (List (List ℕ))
  reply count answers = do
    handshake_responder n
    heard ← recv_all n count
    send_all n answers
    pure heard

module _ (n : Noise) where
  -- What snow documents of two transports in step: the messages are encrypted to these datagrams,
  -- in their order, each fits, and the other end decrypts it.
  abbrev pub Flow : n.TransportState → n.TransportState → List (List ℕ) → List (List ℕ) → Type 0
  Flow t1 t2 [] [] = Unit
  Flow t1 t2 [] (c ∷ cs) = ⊥
  Flow t1 t2 (m ∷ ms) [] = ⊥
  Flow t1 t2 (m ∷ ms) (c ∷ cs) =
      ((n.write_message t1 m).1 ≡ ok c)
      × (length c ≤ 65_535)
      × ((n.read_message t2 c).1 ≡ ok m)
      × Flow (n.write_message t1 m).0 (n.read_message t2 c).0 ms cs

  -- The transports after the messages.
  abbrev pub wrote : n.TransportState → List (List ℕ) → n.TransportState
  wrote t [] = t
  wrote t (m ∷ ms) = wrote (n.write_message t m).0 ms

  abbrev pub was_read : n.TransportState → List (List ℕ) → n.TransportState
  was_read t [] = t
  was_read t (c ∷ cs) = was_read (n.read_message t c).0 cs

-- The datagrams from the address begin with these, in this order; strangers' may come among them.
pub data Carries {E : Type 0} (addr : SocketAddr)
    : List (List ℕ) → List (ℕ × Event E) → Type 0 where
  over : (rest : List (ℕ × Event E)) → Carries addr [] rest
  foreign :
      {cs : List (List ℕ)} {rest : List (ℕ × Event E)} (time : ℕ) (from : SocketAddr)
      → (bytes : List ℕ) → from ≢ addr
      → Carries addr cs rest
      → Carries addr cs ((time, datagram from bytes) ∷ rest)
  own :
      {cs : List (List ℕ)} {rest : List (ℕ × Event E)} (time : ℕ) (c : List ℕ)
      → Carries addr cs rest
      → Carries addr (c ∷ cs) ((time, datagram addr c) ∷ rest)

-- What was sent, with these datagrams to the address on top.
abbrev pub sent_after :
    SocketAddr → List (List ℕ) → List (SocketAddr × List ℕ) → List (SocketAddr × List ℕ)
sent_after addr [] sent = sent
sent_after addr (c ∷ cs) sent = sent_after addr cs ((addr, c) ∷ sent)
