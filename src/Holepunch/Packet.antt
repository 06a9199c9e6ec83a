-- ===== src/Holepunch/Packet.antt =====
-- crates/hyperswarm-rs/src/holepunch.rs: the messages, and the MAC helpers of `HolepunchSession`.
-- The MAC of the crate `blake2` is the parameter `Blake2s`. `none` is a panic of `expect`.
pub mod Verify
use hyperswarm.Base.{
  ℕ, ◌+◌, ◌≡◌, ◌↔◌, ◌≢◌, Bool, true, false, Option, none, some, List, [], ◌∷◌, ◌++◌, length, take,
  drop, ◌==◌, same_bytes, if◌then◌else◌,
}
use mathlib.Core.Option

-- `Blake2sMac256`: `KeyInit::new_from_slice`, `Mac::update`, `Mac::finalize` and `verify_slice`.
pub record Blake2s : Type 1 where
  pub State : Type 0
  pub new_from_slice : List ℕ → Option State
  pub update : State → List ℕ → State
  pub finalize : State → List ℕ
  pub verify_slice : State → List ℕ → Bool

-- What the documentation says: a key of 32 bytes is accepted, a tag has 32 bytes, and
-- `verify_slice` accepts the tag and nothing else.
pub record IsLawful (mac : Blake2s) : Type 0 where
  pub keyed : (key : List ℕ) → length key ≡ 32 → mac.new_from_slice key ≢ none
  pub size : (state : mac.State) → length (mac.finalize state) ≡ 32
  pub verify_iff :
      (state : mac.State) (tag : List ℕ)
      → (mac.verify_slice state tag ≡ true) ↔ (tag ≡ mac.finalize state)

-- "HYPERSWARM_"
abbrev prefix : List ℕ → List ℕ
prefix rest = b'H' ∷ b'Y' ∷ b'P' ∷ b'E' ∷ b'R' ∷ b'S' ∷ b'W' ∷ b'A' ∷ b'R' ∷ b'M' ∷ b'_' ∷ rest

abbrev pub probe_message : List ℕ
probe_message = prefix (b'P' ∷ b'R' ∷ b'O' ∷ b'B' ∷ b'E' ∷ [])

abbrev pub punch_message : List ℕ
punch_message = prefix (b'P' ∷ b'U' ∷ b'N' ∷ b'C' ∷ b'H' ∷ [])

-- The length of both messages, and the size of a tag.
abbrev pub message_size : ℕ
message_size = 16

abbrev pub punch_mac_size : ℕ
punch_mac_size = 32

-- The socket is the world's.
pub record HolepunchSession : Type 0 where
  pub session_key : List ℕ

-- `data.starts_with(PUNCH_MESSAGE)`, and the test that `verify_punch_packet` makes.
unfoldable pub has_punch_message : List ℕ → Bool
has_punch_message bytes = same_bytes (take message_size bytes) punch_message

module _ (mac : Blake2s) where
  -- A MAC that has read the punch message.
  abbrev pub keyed_mac : HolepunchSession → Option mac.State
  keyed_mac s =
      Option.map (λ state. mac.update state punch_message) (mac.new_from_slice s.session_key)

  unfoldable pub compute_punch_mac : HolepunchSession → Option (List ℕ)
  compute_punch_mac s = Option.map mac.finalize (keyed_mac s)

  unfoldable pub build_punch_packet : HolepunchSession → Option (List ℕ)
  build_punch_packet s = Option.map (λ tag. punch_message ++ tag) (compute_punch_mac s)

  unfoldable pub verify_punch_packet : HolepunchSession → List ℕ → Option Bool
  verify_punch_packet s bytes =
      if length bytes == message_size + punch_mac_size
      then if has_punch_message bytes
        then Option.map (λ state. mac.verify_slice state (drop message_size bytes)) (keyed_mac s)
        else some false
      else some false
