-- ===== src/Holepunch/Session/Pair.antt =====
-- Two sessions with one key: one calls `punch_to`, the other `recv_and_respond`.
use hyperswarm.Base.{ℕ, ◌≢◌, List, [], ◌∷◌, take}
use hyperswarm.Net.{Event, datagram, recv_error}
use hyperswarm.Holepunch.Session.{punch_buffer_size}

-- Datagrams of which the buffer does not take just the packet.
abbrev pub AllOther : {E : Type 0} → List ℕ → List (ℕ × Event E) → Type 0
AllOther packet [] = Unit
AllOther packet ((_, datagram _ bytes) ∷ rest) =
    (take punch_buffer_size bytes ≢ packet) × AllOther packet rest
AllOther packet ((_, recv_error e) ∷ rest) = ⊥
