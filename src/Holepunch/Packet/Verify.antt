-- ===== src/Holepunch/Packet/Verify.antt =====
-- A session accepts the packet that its own key gives, and no other.
use hyperswarm.Base.{
  ℕ, ◌≡◌, refl, sym, ap, ◌∙◌, ◌↔◌, ◌≢◌, true, false, none, some, List, ◌++◌, arith, length, take,
  drop, ◌==◌, same_bytes_iff, if◌then◌else◌, Option-cases, inl, inr, length-append,
  take-append-drop, take-append_eq, drop-append_eq,
}
use hyperswarm.Holepunch.Packet.{
  Blake2s, IsLawful, HolepunchSession, punch_message, message_size, has_punch_message, keyed_mac,
  compute_punch_mac, build_punch_packet, verify_punch_packet,
}

pub has_punch_message_iff :
    (bytes : List ℕ) → (has_punch_message bytes ≡ true) ↔ (take message_size bytes ≡ punch_message)
unfolding has_punch_message
has_punch_message_iff bytes = same_bytes_iff (take message_size bytes) punch_message

module _ (mac : Blake2s) (law : IsLawful mac) (s : HolepunchSession)
    (size : length s.session_key ≡ 32) where
  -- The state of the MAC when it is asked for the tag.
  pub mac_state : (m : mac.State) × (keyed_mac mac s ≡ some m)
  mac_state = elim (Option-cases (mac.new_from_slice s.session_key)) [
    | inl e ↦ absurd (law.keyed s.session_key size e)
    | inr (m, e) ↦ (mac.update m punch_message, rw e)
  ]

  pub packet_of :
      (m : mac.State)
      → keyed_mac mac s ≡ some m
      → build_punch_packet mac s ≡ some (punch_message ++ mac.finalize m)
  unfolding build_punch_packet compute_punch_mac
  packet_of m e = rw e

  pub verdict_of :
      (m : mac.State) (bytes : List ℕ)
      → keyed_mac mac s ≡ some m
      → verify_punch_packet mac s bytes ≡ (
          if length bytes == 48
          then if has_punch_message bytes
            then some (mac.verify_slice m (drop message_size bytes))
            else some false
          else some false)
  unfolding verify_punch_packet
  verdict_of m bytes e = rw e

  verify_own :
      (m : mac.State)
      → keyed_mac mac s ≡ some m
      → verify_punch_packet mac s (punch_message ++ mac.finalize m) ≡ some true
  verify_own m e =
      let packet = punch_message ++ mac.finalize m in
      ground (
        arith,
        verdict_of m packet e,
        law.size m,
        length-append punch_message (mac.finalize m),
        has_punch_message_iff packet,
        take-append_eq message_size punch_message (mac.finalize m) refl,
        drop-append_eq message_size punch_message (mac.finalize m) refl,
        law.verify_iff m (drop message_size packet),
      )

  verify_only :
      (m : mac.State) (bytes : List ℕ)
      → keyed_mac mac s ≡ some m
      → verify_punch_packet mac s bytes ≡ some true
      → punch_message ++ mac.finalize m ≡ bytes
  verify_only m bytes e accepted = ground (
    arith,
    verdict_of m bytes e,
    has_punch_message_iff bytes,
    law.verify_iff m (drop message_size bytes),
    take-append-drop message_size bytes,
  )

  -- With a lawful MAC and a key of 32 bytes, neither building nor verifying panics.
  pub verify_decides : (bytes : List ℕ) → verify_punch_packet mac s bytes ≢ none
  verify_decides bytes = let (m, e) = mac_state in ground (arith, verdict_of m bytes e)

  -- With a lawful MAC and a key of 32 bytes, a packet is built, and the session accepts a
  -- datagram exactly when it is that packet, byte for byte. (So the packet never changes while
  -- the key does not, and a recorded one is accepted again.)
  pub verify_punch_packet_iff :
      (bytes : List ℕ)
      → (verify_punch_packet mac s bytes ≡ some true) ↔ (build_punch_packet mac s ≡ some bytes)
  verify_punch_packet_iff bytes =
      let (m, e) = mac_state in
      (
        λ accepted. rw (packet_of m e) (ap some (verify_only m bytes e accepted)),
        λ built.
            let own : some (punch_message ++ mac.finalize m) ≡ some bytes =
              sym (packet_of m e) ∙ built in
            let same : punch_message ++ mac.finalize m ≡ bytes = cc in rw (← same) (verify_own m e),
      )

-- Sessions with the same packet have the same tag.
same_tag :
    (mac : Blake2s) (a b : HolepunchSession) (packet : List ℕ)
    → IsLawful mac
    → length a.session_key ≡ 32
    → length b.session_key ≡ 32
    → build_punch_packet mac a ≡ some packet
    → build_punch_packet mac b ≡ some packet
    → compute_punch_mac mac a ≡ compute_punch_mac mac b
unfolding compute_punch_mac
same_tag mac a b packet law size_a size_b built_a built_b =
    let (m, e) = mac_state mac law a size_a in
    let (n, f) = mac_state mac law b size_b in
    let p = packet_of mac law a size_a m e in
    let q = packet_of mac law b size_b n f in
    let same : punch_message ++ mac.finalize m ≡ punch_message ++ mac.finalize n = cc in
    let tags : mac.finalize m ≡ mac.finalize n = cc in rw (e, f) (ap some tags)

-- With a lawful MAC and keys of 32 bytes, a session rejects the packet of a session whose tag
-- differs from its own.
pub verify_other_key :
    (mac : Blake2s) (a b : HolepunchSession) (packet : List ℕ)
    → IsLawful mac
    → length a.session_key ≡ 32
    → length b.session_key ≡ 32
    → compute_punch_mac mac a ≢ compute_punch_mac mac b
    → build_punch_packet mac a ≡ some packet
    → verify_punch_packet mac b packet ≡ some false
verify_other_key mac a b packet law size_a size_b differ built =
    elim (Option-cases (verify_punch_packet mac b packet)) [
      | inl e ↦ absurd (verify_decides mac law b size_b packet e)
      | inr (true, e) ↦
          let own = (verify_punch_packet_iff mac law b size_b packet).0 e in
          absurd (differ (same_tag mac a b packet law size_a size_b built own))
      | inr (false, e) ↦ e
    ]
