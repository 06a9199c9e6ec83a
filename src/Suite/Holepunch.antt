-- ===== src/Suite/Holepunch.antt =====
-- The tests in crates/hyperswarm-rs/src/holepunch.rs.
use mathlib.Core.Option
use hyperswarm.Base.{
  ℕ, zero, suc, ◌-◌, ◌≡◌, refl, ap, ◌≢◌, ◌∙◌, sym, Bool, true, false, not, Option, none, some, List,
  [], ◌∷◌, ◌++◌, arith, length, length-append, get_or, Option-cases, inl, inr, ◌==◌, ◌&&◌,
}
use hyperswarm.Protocol.{map_error}
use hyperswarm.Holepunch.Session.{
  io, Candidate, CandidateKind, HolepunchError, new_session, probe, probe_each,
}
use hyperswarm.Net.{Result, ok, SocketAddr, v4, World, send_to}
use hyperswarm.Net.Zoom.{with_self}
use hyperswarm.Holepunch.Packet.{
  Blake2s, IsLawful, HolepunchSession, punch_message, message_size, compute_punch_mac,
  build_punch_packet, verify_punch_packet,
}
use hyperswarm.Holepunch.Packet.Verify.{
  verify_punch_packet_iff, verify_other_key, verify_decides, mac_state, packet_of,
}
use hyperswarm.Holepunch.Session.Respond.{some_inj}
use hyperswarm.Suite.{unwrap, unwrap_some, is_ok, awaited}
use hyperswarm.Suite.Protocol.{repeated}

abbrev test_session_key : List ℕ
test_session_key = repeated 0x42 32

abbrev loopback : ℕ → SocketAddr
loopback port = record { ip = v4 127 0 0 1; port = port }

abbrev probed_candidates : List Candidate
probed_candidates =
    (record { addr = loopback 8001; kind = CandidateKind.lan })
    ∷ (record { addr = loopback 8002; kind = CandidateKind.wan })
    ∷ []

-- `HolepunchSession::local_addr`, with what the socket says given.
abbrev session_addr : {E : Type 0} → Result E SocketAddr → Result (HolepunchError E) SocketAddr
session_addr bound = map_error io bound

-- `packet[index] ^= 0xFF`; `none` is a panic.
abbrev flip_byte : ℕ → List ℕ → Option (List ℕ)
flip_byte index [] = none
flip_byte zero (b ∷ packet) = some ((255 - b) ∷ packet)
flip_byte (suc index) (b ∷ packet) = Option.map (b ∷◌) (flip_byte index packet)

module _ {E : Type 0} (bind : SocketAddr → Result E (Unit {0})) where
  abbrev session_with : List ℕ → Result (HolepunchError E) HolepunchSession
  session_with key = new_session bind (loopback 0) key

  unfoldable test_holepunch_session_creation : Bool
  test_holepunch_session_creation = is_ok (session_with test_session_key)

  unfoldable test_probe_candidates : World E (Unit {0}) → Bool
  test_probe_candidates w = unwrap (session_with test_session_key) λ session.
      awaited (probe probed_candidates (with_self session w)) λ result after. is_ok result

  -- The addresses that the two sockets have.
  unfoldable test_local_holepunch : Result E SocketAddr → Result E SocketAddr → Bool
  test_local_holepunch bound1 bound2 = unwrap (session_with test_session_key) λ session1.
      unwrap (session_with test_session_key) λ session2. unwrap (session_addr bound1) λ addr1.
        unwrap (session_addr bound2) λ addr2. not (addr1.port == 0) && not (addr2.port == 0)

  module _ (mac : Blake2s) where
    unfoldable test_punch_mac_valid : Bool
    test_punch_mac_valid = unwrap (session_with test_session_key) λ session.
        unwrap_some (build_punch_packet mac session)
          λ packet. unwrap_some (verify_punch_packet mac session packet) λ valid. valid

    unfoldable test_punch_mac_wrong_key_rejected : Bool
    test_punch_mac_wrong_key_rejected = unwrap (session_with (repeated 1 32)) λ session_a.
        unwrap (session_with (repeated 2 32)) λ session_b.
          unwrap_some (build_punch_packet mac session_a)
            λ packet. unwrap_some (verify_punch_packet mac session_b packet) λ valid. not valid

    unfoldable test_punch_mac_truncated_packet_rejected : Bool
    test_punch_mac_truncated_packet_rejected =
        unwrap (session_with test_session_key)
          λ session. unwrap_some (verify_punch_packet mac session punch_message) λ valid. not valid

    unfoldable test_punch_mac_tampered_payload_rejected : Bool
    test_punch_mac_tampered_payload_rejected = unwrap (session_with test_session_key) λ session.
        unwrap_some (build_punch_packet mac session) λ packet.
          unwrap_some (flip_byte message_size packet)
            λ tampered. unwrap_some (verify_punch_packet mac session tampered) λ valid. not valid

-- On a machine on which a socket can be bound.
module _ {E : Type 0} (bind : SocketAddr → Result E (Unit {0}))
    (bound : bind (loopback 0) ≡ ok tt) where
  bound_session : (key : List ℕ) → session_with bind key ≡ ok (record { session_key = key })
  unfolding new_session
  bound_session key = ground arith

  test_holepunch_session_creation_passes : test_holepunch_session_creation bind ≡ true
  unfolding test_holepunch_session_creation
  test_holepunch_session_creation_passes = rw (bound_session test_session_key) refl

  -- When no send fails.
  test_probe_candidates_passes :
      (w : World E (Unit {0})) → w.sends ≡ [] → test_probe_candidates bind w ≡ true
  unfolding test_probe_candidates probe probe_each send_to
  test_probe_candidates_passes w s = rw (bound_session test_session_key, s) refl

  -- When the sockets have ports.
  test_local_holepunch_passes :
      (addr1 addr2 : SocketAddr)
      → addr1.port ≢ 0
      → addr2.port ≢ 0
      → test_local_holepunch bind (ok addr1) (ok addr2) ≡ true
  unfolding test_local_holepunch
  test_local_holepunch_passes addr1 addr2 port1 port2 =
      rw (bound_session test_session_key) (ground arith)

  -- With a lawful MAC.
  module _ (mac : Blake2s) (law : IsLawful mac) where
    abbrev keyed : ℕ → HolepunchSession
    keyed byte = record { session_key = repeated byte 32 }

    test_punch_mac_valid_passes : test_punch_mac_valid bind mac ≡ true
    unfolding test_punch_mac_valid
    test_punch_mac_valid_passes =
        let (m, e) = mac_state mac law (keyed 0x42) refl in
        let built = packet_of mac law (keyed 0x42) refl m e in
        let own = (verify_punch_packet_iff mac law (keyed 0x42) refl _).1 built in
        rw (bound_session test_session_key, built, own) refl

    -- And when the two keys have different tags.
    test_punch_mac_wrong_key_rejected_passes :
        compute_punch_mac mac (keyed 1) ≢ compute_punch_mac mac (keyed 2)
        → test_punch_mac_wrong_key_rejected bind mac ≡ true
    unfolding test_punch_mac_wrong_key_rejected
    test_punch_mac_wrong_key_rejected_passes differ =
        let (m, e) = mac_state mac law (keyed 1) refl in
        let built = packet_of mac law (keyed 1) refl m e in
        let other = verify_other_key mac (keyed 1) (keyed 2) _ law refl refl differ built in
        rw (bound_session (repeated 1 32), bound_session (repeated 2 32), built, other) refl

    verify_other_packet :
        (s : HolepunchSession) (packet bytes : List ℕ)
        → length s.session_key ≡ 32
        → build_punch_packet mac s ≡ some packet
        → bytes ≢ packet
        → verify_punch_packet mac s bytes ≡ some false
    verify_other_packet s packet bytes size built other =
        elim (Option-cases (verify_punch_packet mac s bytes)) [
          | inl e ↦ absurd (verify_decides mac law s size bytes e)
          | inr (true, e) ↦
              absurd (
                other (some_inj (sym ((verify_punch_packet_iff mac law s size bytes).0 e) ∙ built)))
          | inr (false, e) ↦ e
        ]

    test_punch_mac_truncated_packet_rejected_passes :
        test_punch_mac_truncated_packet_rejected bind mac ≡ true
    unfolding test_punch_mac_truncated_packet_rejected
    test_punch_mac_truncated_packet_rejected_passes =
        let (m, e) = mac_state mac law (keyed 0x42) refl in
        let built = packet_of mac law (keyed 0x42) refl m e in
        let cut = verify_other_packet (keyed 0x42) _ punch_message refl built (λ same.
          omega
            (arith, ap length same, length-append punch_message (mac.finalize m), law.size m)) in
        rw (bound_session test_session_key, cut) refl

    flipped :
        (s : HolepunchSession) (tag : List ℕ)
        → length s.session_key ≡ 32
        → length tag ≡ 32
        → build_punch_packet mac s ≡ some (punch_message ++ tag)
        → unwrap_some
            (flip_byte message_size (punch_message ++ tag))
            (λ tampered. unwrap_some (verify_punch_packet mac s tampered) λ valid. not valid)
          ≡ true
    flipped s [] size long built = absurd (omega (arith, long))
    flipped s (b ∷ tag) size long built =
        let other =
          verify_other_packet s _ (punch_message ++ (255 - b) ∷ tag) size built
            (λ same. omega (arith, ap (λ bytes. get_or bytes 16 0) same)) in
        rw other refl

    test_punch_mac_tampered_payload_rejected_passes :
        test_punch_mac_tampered_payload_rejected bind mac ≡ true
    unfolding test_punch_mac_tampered_payload_rejected
    test_punch_mac_tampered_payload_rejected_passes =
        let (m, e) = mac_state mac law (keyed 0x42) refl in
        let built = packet_of mac law (keyed 0x42) refl m e in
        rw (bound_session test_session_key, built)
          (flipped (keyed 0x42) (mac.finalize m) refl (law.size m) built)
