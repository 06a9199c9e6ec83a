-- ===== src/Protocol/Wire/Bep5.antt =====
-- The wire form against BEP 5, the protocol of the mainline DHT, whose routers are the default
-- bootstrap nodes.
use hyperswarm.Base.{
  ℕ, ◌≡◌, ap, sym, ◌∙◌, ◌≢◌, ◌⊎◌, Option, some, List, [], ◌∷◌, String, arith, length, same_bytes,
}
use hyperswarm.Net.{Result, ok}
use hyperswarm.Protocol.{KrpcMessage, KrpcMessageType, Bencode}
use hyperswarm.Protocol.Wire.{Value, Entries, bytes, dict, key_t, key_y, type_name, to_value, Utf8}
use hyperswarm.Protocol.Wire.Read.{get}

-- "Every message has a key "t" with a string value representing a transaction ID" and "a key "y"
-- with a single character value", which is "q", "r" or "e".
pub record IsBep5 (v : Value) : Type 0 where
  pub entries : Entries
  pub dictionary : v ≡ dict entries
  pub tx_id : List ℕ
  pub transaction : get key_t entries ≡ some (bytes tx_id)
  pub letter : ℕ
  pub known : (letter ≡ b'q') ⊎ (letter ≡ b'r') ⊎ (letter ≡ b'e')
  pub kind : get key_y entries ≡ some (bytes (letter ∷ []))

-- What this development relies on of `serde_bencode` with the derived code: a message is written
-- by its wire form, and where the "y" of a dictionary is a byte string, it is read as the constructor
-- with that name.
pub record IsDerived (utf8 : Utf8) (write : Value → Result String (List ℕ)) (codec : Bencode)
    : Type 0 where
  pub writes : (msg : KrpcMessage) → codec.to_bytes msg ≡ write (to_value utf8 msg)
  pub reads :
      (entries : Entries) (name text : List ℕ) (msg : KrpcMessage)
      → write (dict entries) ≡ ok text
      → get key_y entries ≡ some (bytes name)
      → codec.from_bytes text ≡ ok msg
      → name ≡ type_name msg.y

name-ne-letter : (y : KrpcMessageType) (letter : ℕ) → type_name y ≢ letter ∷ []
name-ne-letter KrpcMessageType.query letter e = omega (arith, ap length e)
name-ne-letter KrpcMessageType.response letter e = omega (arith, ap length e)
name-ne-letter KrpcMessageType.error letter e = omega (arith, ap length e)

abbrev entries_or : Value → Entries → Entries
entries_or (dict entries) other = entries
entries_or _ other = other

abbrev bytes_or_empty : Option Value → List ℕ
bytes_or_empty (some (bytes bs)) = bs
bytes_or_empty _ = []

module _ (utf8 : Utf8) where
  -- No message, query or response, has a wire form of BEP 5.
  pub to_value-not_IsBep5 : (msg : KrpcMessage) → ¬ (IsBep5 (to_value utf8 msg))
  unfolding to_value get same_bytes
  to_value-not_IsBep5 msg b =
      let same = ap (λ v. bytes_or_empty (get key_y (entries_or v b.entries))) b.dictionary in
      name-ne-letter msg.y b.letter (same ∙ ap bytes_or_empty b.kind)

module _ (utf8 : Utf8) (write : Value → Result String (List ℕ)) (codec : Bencode)
    (d : IsDerived utf8 write codec) where
  -- And no message of BEP 5 is read.
  pub from_bytes-IsBep5 :
      (v : Value) (text : List ℕ) (msg : KrpcMessage)
      → IsBep5 v
      → write v ≡ ok text
      → codec.from_bytes text ≢ ok msg
  from_bytes-IsBep5 v text msg b w r =
      name-ne-letter msg.y b.letter (
        sym (d.reads b.entries (b.letter ∷ []) text msg (ap write (sym b.dictionary) ∙ w) b.kind r))
