-- ===== src/Tests/Holepunch.antt =====
-- Hole punching with a MAC whose tag repeats the first byte of the key.
use mathlib.Core.Bool.{Bool}
use hyperswarm.Base.{
  true, ℕ, zero, suc, ◌+◌, ◌*◌, ◌≡◌, refl, ap, ◌↔◌, ◌≢◌, none, some, List, [], ◌∷◌, ◌++◌, arith,
  length, get_or, take, drop, ℕ_discrete, same_bytes, same_bytes_iff, ◌==◌, if◌then◌else◌,
}
use hyperswarm.Net.{
  v4, SocketAddr, done, fail, World, Event, datagram, silent, timeout, recv_from, take_event,
  send_to, same_addr,
}
use hyperswarm.Net.Ends.{Ends}
use hyperswarm.Net.Select.{select_recv}
use hyperswarm.Holepunch.Packet.{
  Blake2s, IsLawful, HolepunchSession, punch_message, probe_message, build_punch_packet,
  verify_punch_packet, compute_punch_mac, has_punch_message,
}
use hyperswarm.Holepunch.Packet.Verify.{verify_punch_packet_iff}
use hyperswarm.Holepunch.Session.{
  Candidate, lan, respond, listen, probe, probe_each, recv_and_respond, respond_within,
  respond_loop, respond_round, initiate, timed_out, punch_to, punch_within, punch_loop, punch_round,
  on_select, check_packet,
}
use hyperswarm.Holepunch.Session.Respond.{respond_sound}
use hyperswarm.Holepunch.Session.Listen.{session-Ends}
use hyperswarm.Holepunch.Session.Sends.{Repeats, punch_to-Repeats}
use hyperswarm.Holepunch.Session.Choice.{Verdict, initiate-Verdict}
use hyperswarm.Holepunch.Session.Punch.{punch_to-Ends}
use hyperswarm.Holepunch.Session.Sound.{Heard, punch_to_sound}
use hyperswarm.Holepunch.Session.Flood.{IsFlood, punch_to_flooded}

abbrev copies : ℕ → ℕ → List ℕ
copies zero b = []
copies (suc n) b = b ∷ copies n b

length-copies : (n b : ℕ) → length (copies n b) ≡ n
length-copies zero b = refl
length-copies (suc n) b = ap suc (length-copies n b)

abbrev toy : Blake2s
toy = record {
  State = List ℕ;
  new_from_slice = λ key. if length key == 32 then some key else none;
  update = λ state _. state;
  finalize = λ state. copies 32 (get_or state 0 0);
  verify_slice = λ state tag. same_bytes tag (copies 32 (get_or state 0 0));
}

toy-IsLawful : IsLawful toy
toy-IsLawful = record {
  keyed = λ key h. ground arith;
  size = λ state. length-copies 32 (get_or state 0 0);
  verify_iff = λ state tag. same_bytes_iff tag (copies 32 (get_or state 0 0));
}

abbrev session : ℕ → HolepunchSession
session b = record { session_key = copies 32 b }

abbrev packet : ℕ → List ℕ
packet b = punch_message ++ copies 32 b

abbrev peer : SocketAddr
peer = record { ip = v4 127 0 0 1; port = 8001 }

abbrev stranger : SocketAddr
stranger = record { ip = v4 127 0 0 1; port = 9 }

abbrev world_with : List (ℕ × Event ℕ) → World ℕ HolepunchSession
world_with inbox = record {
  now = 7;
  limit = none;
  inbox = inbox;
  sends = [];
  sent = [];
  dns = λ _ _. silent;
  ties = λ _. true;
  self = session 66;
}

-- A stranger's copy of the packet, then the peer's.
abbrev greeted : World ℕ HolepunchSession
greeted = world_with ((150, datagram stranger (packet 66)) ∷ (300, datagram peer (packet 66)) ∷ [])

built : build_punch_packet toy (session 66) ≡ some (packet 66)
unfolding build_punch_packet compute_punch_mac
built = refl

verify_punch_packet_iff_example :
    (verify_punch_packet toy (session 66) (packet 66) ≡ some Bool.true)
    ↔ (build_punch_packet toy (session 66) ≡ some (packet 66))
verify_punch_packet_iff_example =
    verify_punch_packet_iff toy toy-IsLawful (session 66) (length-copies 32 66) (packet 66)

punch_to-Ends_example : Ends (7 + 2199) greeted (punch_to toy peer greeted)
punch_to-Ends_example = punch_to-Ends toy toy-IsLawful peer greeted (length-copies 32 66)

-- The world in which `punch_to` has heard the peer.
abbrev heard_peer : World ℕ HolepunchSession
heard_peer = record greeted { now = 300; inbox = []; sent = (peer, packet 66) ∷ [] }

punch_to-greeted : punch_to toy peer greeted ≡ (done peer, heard_peer)
unfolding punch_to punch_within punch_loop punch_round on_select check_packet select_recv timeout
    recv_from take_event send_to build_punch_packet compute_punch_mac verify_punch_packet
    has_punch_message same_addr same_bytes take drop ℕ_discrete
punch_to-greeted = refl

punch_to_sound_example : (peer ≡ peer) × Heard peer (packet 66) greeted.inbox
punch_to_sound_example =
    punch_to_sound toy peer peer (packet 66) greeted heard_peer toy-IsLawful (length-copies 32 66)
      built punch_to-greeted

stranger-ne-peer : stranger ≢ peer
stranger-ne-peer e = omega (arith, ap (λ (a : SocketAddr). a.port) e)

abbrev junk : ℕ → ℕ × Event ℕ
junk time = (time, datagram stranger (0 ∷ []))

abbrev flooded : World ℕ HolepunchSession
flooded = world_with (
    junk 197
    ∷ junk 387
    ∷ junk 577
    ∷ junk 767
    ∷ junk 957
    ∷ junk 1147
    ∷ junk 1337
    ∷ junk 1527
    ∷ junk 1717
    ∷ junk 1907
    ∷ junk 2097
    ∷ [])

flooded-IsFlood : IsFlood peer 2007 7 flooded.inbox
flooded-IsFlood = (
  omega arith,
  omega arith,
  stranger-ne-peer,
  (
    omega arith,
    omega arith,
    stranger-ne-peer,
    (
      omega arith,
      omega arith,
      stranger-ne-peer,
      (
        omega arith,
        omega arith,
        stranger-ne-peer,
        (
          omega arith,
          omega arith,
          stranger-ne-peer,
          (
            omega arith,
            omega arith,
            stranger-ne-peer,
            (
              omega arith,
              omega arith,
              stranger-ne-peer,
              (
                omega arith,
                omega arith,
                stranger-ne-peer,
                (
                  omega arith,
                  omega arith,
                  stranger-ne-peer,
                  (
                    omega arith,
                    omega arith,
                    stranger-ne-peer,
                    (omega arith, omega arith, stranger-ne-peer, omega arith),
                  ),
                ),
              ),
            ),
          ),
        ),
      ),
    ),
  ),
)

punch_to_flooded_example :
    ((punch_to toy peer flooded).0 ≡ fail timed_out)
    × ((punch_to toy peer flooded).1.sent ≡ (peer, packet 66) ∷ [])
punch_to_flooded_example =
    punch_to_flooded toy peer (packet 66) flooded refl refl built flooded-IsFlood

abbrev one_candidate : List Candidate
one_candidate = record { addr = peer; kind = lan } ∷ []

abbrev called : World ℕ HolepunchSession
called = world_with ((150, datagram stranger (0 ∷ [])) ∷ (300, datagram peer (packet 66)) ∷ [])

abbrev answered : World ℕ HolepunchSession
answered = record called {
  now = 300;
  inbox = [];
  sent = (peer, packet 66) ∷ (peer, probe_message) ∷ [];
}

respond-called : respond toy one_candidate called ≡ (done peer, answered)
unfolding respond listen probe probe_each recv_and_respond respond_within respond_loop respond_round
    timeout recv_from take_event send_to build_punch_packet compute_punch_mac verify_punch_packet
    has_punch_message same_bytes take drop ℕ_discrete
respond-called = refl

respond_sound_example :
    Heard peer (packet 66) called.inbox
    × (older : List (SocketAddr × List ℕ)) × (answered.sent ≡ (peer, packet 66) ∷ older)
respond_sound_example =
    respond_sound toy one_candidate peer (packet 66) called answered toy-IsLawful
      (length-copies 32 66) built respond-called

session-Ends_example :
    Ends (7 + 2199 * 1) flooded (initiate toy one_candidate flooded)
    × Ends (7 + 10_000) flooded (respond toy one_candidate flooded)
session-Ends_example = session-Ends toy toy-IsLawful one_candidate flooded (length-copies 32 66)

initiate-Verdict_example :
    Verdict one_candidate (packet 66) greeted.inbox (initiate toy one_candidate greeted).0
initiate-Verdict_example =
    initiate-Verdict toy one_candidate (packet 66) greeted toy-IsLawful (length-copies 32 66) built

abbrev caller : SocketAddr
caller = record { ip = v4 127 0 0 1; port = 8002 }

-- The peer's probe comes before its answer.
abbrev calling : World ℕ HolepunchSession
calling = world_with ((100, datagram peer probe_message) ∷ (850, datagram peer (packet 66)) ∷ [])

abbrev waiting : World ℕ HolepunchSession
waiting = world_with ((50, datagram stranger (0 ∷ [])) ∷ (420, datagram caller (packet 66)) ∷ [])

punch_to-Repeats_example : Repeats (peer, packet 66) 11 [] (punch_to toy peer calling)
punch_to-Repeats_example = punch_to-Repeats toy peer (packet 66) calling built
