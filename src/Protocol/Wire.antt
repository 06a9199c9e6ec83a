-- ===== src/Protocol/Wire.antt =====
-- crates/hyperswarm-rs/src/protocol.rs, the derived `Serialize`: what a message is as a bencode
-- value, by the fields and the serde attributes of the structs. A `Vec<u8>` that is not marked as
-- bytes is a sequence of integers for serde, and an enum without data is its name.
pub mod Read
pub mod Bep5
use hyperswarm.Base.{ℕ, ◌≡◌, Option, none, some, List, [], ◌∷◌, String}
use hyperswarm.Base.Int.{ℤ, pos}
use hyperswarm.Protocol.{KrpcMessageType, KrpcQueryKind, KrpcArgs, KrpcResponse, KrpcMessage}

mutual
  -- A bencode value. The keys of a dictionary are byte strings.
  pub data Value : Type 0 where
    int : ℤ → Value
    bytes : List ℕ → Value
    list : Values → Value
    dict : Entries → Value

  pub data Values : Type 0 where
    nil : Values
    cons : Value → Values → Values

  pub data Entries : Type 0 where
    end : Entries
    entry : List ℕ → Value → Entries → Entries

-- The names of the fields.
abbrev pub key_t : List ℕ
key_t = b't' ∷ []

abbrev pub key_y : List ℕ
key_y = b'y' ∷ []

abbrev pub key_q : List ℕ
key_q = b'q' ∷ []

abbrev pub key_a : List ℕ
key_a = b'a' ∷ []

abbrev pub key_r : List ℕ
key_r = b'r' ∷ []

abbrev pub key_e : List ℕ
key_e = b'e' ∷ []

abbrev pub key_id : List ℕ
key_id = b'i' ∷ b'd' ∷ []

abbrev pub key_target : List ℕ
key_target = b't' ∷ b'a' ∷ b'r' ∷ b'g' ∷ b'e' ∷ b't' ∷ []

abbrev pub key_info_hash : List ℕ
key_info_hash = b'i' ∷ b'n' ∷ b'f' ∷ b'o' ∷ b'_' ∷ b'h' ∷ b'a' ∷ b's' ∷ b'h' ∷ []

abbrev pub key_port : List ℕ
key_port = b'p' ∷ b'o' ∷ b'r' ∷ b't' ∷ []

abbrev pub key_token : List ℕ
key_token = b't' ∷ b'o' ∷ b'k' ∷ b'e' ∷ b'n' ∷ []

abbrev pub key_nodes : List ℕ
key_nodes = b'n' ∷ b'o' ∷ b'd' ∷ b'e' ∷ b's' ∷ []

abbrev pub key_values : List ℕ
key_values = b'v' ∷ b'a' ∷ b'l' ∷ b'u' ∷ b'e' ∷ b's' ∷ []

-- `rename_all = "lowercase"`.
abbrev pub type_name : KrpcMessageType → List ℕ
type_name KrpcMessageType.query = b'q' ∷ b'u' ∷ b'e' ∷ b'r' ∷ b'y' ∷ []
type_name KrpcMessageType.response = b'r' ∷ b'e' ∷ b's' ∷ b'p' ∷ b'o' ∷ b'n' ∷ b's' ∷ b'e' ∷ []
type_name KrpcMessageType.error = b'e' ∷ b'r' ∷ b'r' ∷ b'o' ∷ b'r' ∷ []

-- `rename_all = "snake_case"`.
abbrev pub kind_name : KrpcQueryKind → List ℕ
kind_name KrpcQueryKind.ping = b'p' ∷ b'i' ∷ b'n' ∷ b'g' ∷ []
kind_name KrpcQueryKind.find_node =
    b'f' ∷ b'i' ∷ b'n' ∷ b'd' ∷ b'_' ∷ b'n' ∷ b'o' ∷ b'd' ∷ b'e' ∷ []
kind_name KrpcQueryKind.get_peers =
    b'g' ∷ b'e' ∷ b't' ∷ b'_' ∷ b'p' ∷ b'e' ∷ b'e' ∷ b'r' ∷ b's' ∷ []
kind_name KrpcQueryKind.announce_peer =
    b'a' ∷ b'n' ∷ b'n' ∷ b'o' ∷ b'u' ∷ b'n' ∷ b'c' ∷ b'e' ∷ b'_' ∷ b'p' ∷ b'e' ∷ b'e' ∷ b'r' ∷ []

-- A `Vec<u8>`, and a `Vec<Vec<u8>>`.
abbrev pub integers : List ℕ → Values
integers [] = nil
integers (b ∷ bs) = cons (int (pos b)) (integers bs)

abbrev pub sequence : List ℕ → Value
sequence bs = list (integers bs)

abbrev pub sequences : List (List ℕ) → Values
sequences [] = nil
sequences (bs ∷ rest) = cons (sequence bs) (sequences rest)

abbrev pub number : ℕ → Value
number n = int (pos n)

-- A field with `skip_serializing_if = "Option::is_none"`.
abbrev pub field : {A : Type 0} → List ℕ → (A → Value) → Option A → Entries → Entries
field key value none rest = rest
field key value (some x) rest = entry key (value x) rest

abbrev pub args_value : KrpcArgs → Value
args_value args = dict (
    field key_id sequence args.id (
      field key_target sequence args.target (
        field key_info_hash sequence args.info_hash
          (field key_port number args.port (field key_token sequence args.token end)))))

abbrev pub response_value : KrpcResponse → Value
response_value r = dict (
    field key_id sequence r.id (
      field key_nodes sequence r.nodes (
        field key_values (λ values. list (sequences values)) r.values
          (field key_token sequence r.token end))))

-- `str::as_bytes` and `std::str::from_utf8`.
pub record Utf8 : Type 0 where
  pub as_bytes : String → List ℕ
  pub from_utf8 : List ℕ → Option String
  pub valid : (text : String) → from_utf8 (as_bytes text) ≡ some text

abbrev pub error_value : Utf8 → ℤ × String → Value
error_value utf8 (code, text) = list (cons (int code) (cons (bytes (utf8.as_bytes text)) nil))

unfoldable pub to_value : Utf8 → KrpcMessage → Value
to_value utf8 msg = dict (
    entry key_t (sequence msg.t) (
      entry key_y (bytes (type_name msg.y)) (
        field key_q (λ kind. bytes (kind_name kind)) msg.q
          (field key_a args_value msg.a
            (field key_r response_value msg.r (field key_e (error_value utf8) msg.e end))))))
