-- ===== src/Tests/Wire.antt =====
-- Wire forms, over a toy encoding that keeps the name of a message's kind alone.
use hyperswarm.Base.{
  ℕ, ◌≡◌, refl, ap, sym, ◌∙◌, inl, inr, Bool, true, false, Option, none, some, List, [], ◌∷◌,
  String, arith, same_bytes, same_bytes_iff,
}
use hyperswarm.Base.Int.{pos}
use hyperswarm.Net.{done, World, datagram, answered, v4, SocketAddr, Result, ok, err}
use hyperswarm.Protocol.{KrpcMessage, KrpcMessageType, KrpcQueryKind, Bencode, default_args}
use hyperswarm.Protocol.Wire.{
  Value, bytes, dict, end, entry, key_t, key_y, type_name, to_value, Utf8,
}
use hyperswarm.Protocol.Wire.Read.{get, to_value-injective}
use hyperswarm.Protocol.Wire.Bep5.{IsBep5, IsDerived, to_value-not_IsBep5}
use hyperswarm.Dht.Table.{new_table}
use hyperswarm.Dht.Client.{DhtClient}
use hyperswarm.Dht.Evolution.History
use hyperswarm.Dht.Evolution.History.{Call, run}
use hyperswarm.Dht.Deaf.Isolated.{mainline_isolates, added}
use hyperswarm.Dht.Table.Window.{add_all}
use hyperswarm.Dht.Topics.{lookup}
use hyperswarm.Tests.Codes.{codes, text_of, text_of-codes}

abbrev utf8 : Utf8
utf8 = record { as_bytes = codes; from_utf8 = text_of; valid = text_of-codes }

abbrev tagged : KrpcMessageType → KrpcMessage
tagged y = record { t = []; y = y; q = none; a = none; r = none; e = none }

abbrev refused : KrpcMessage
refused = record {
  t = 1 ∷ 2 ∷ [];
  y = KrpcMessageType.error;
  q = some KrpcQueryKind.ping;
  a = some (record default_args { port = some 8080 });
  r = none;
  e = some (pos 201, "refused");
}

to_value-injective_example : refused ≡ refused
to_value-injective_example = to_value-injective utf8 refused refused refl

to_value-not_IsBep5_example : ¬ (IsBep5 (to_value utf8 refused))
to_value-not_IsBep5_example = to_value-not_IsBep5 utf8 refused

abbrev kind_text : Option Value → Result String (List ℕ)
kind_text (some (bytes bs)) = ok bs
kind_text _ = err "no kind"

abbrev write : Value → Result String (List ℕ)
write (dict entries) = kind_text (get key_y entries)
write _ = err "no dictionary"

abbrev or_read : Bool → KrpcMessageType → Result String KrpcMessage → Result String KrpcMessage
or_read true y later = ok (tagged y)
or_read false y later = later

abbrev is_name : KrpcMessageType → List ℕ → Bool
is_name y text = same_bytes text (type_name y)

abbrev read : List ℕ → Result String KrpcMessage
read text = or_read (is_name KrpcMessageType.query text) KrpcMessageType.query (
    or_read (is_name KrpcMessageType.response text) KrpcMessageType.response
      (or_read (is_name KrpcMessageType.error text) KrpcMessageType.error (err "unknown")))

abbrev by_kind : Bencode
by_kind = record { to_bytes = λ msg. write (to_value utf8 msg); from_bytes = read }

IsNamed : List ℕ → Result String KrpcMessage → Type 0
IsNamed text (ok msg) = text ≡ type_name msg.y
IsNamed text (err e) = Unit

or_read-IsNamed :
    (text : List ℕ) (y : KrpcMessageType) (b : Bool) (later : Result String KrpcMessage)
    → (b ≡ true → text ≡ type_name y)
    → IsNamed text later
    → IsNamed text (or_read b y later)
unfolding IsNamed
or_read-IsNamed text y true later h k = h refl
or_read-IsNamed text y false later h k = k

read-IsNamed : (text : List ℕ) → IsNamed text (read text)
unfolding IsNamed
read-IsNamed text = or_read-IsNamed text KrpcMessageType.query _ _ (same_bytes_iff text _).0 (
    or_read-IsNamed text KrpcMessageType.response _ _ (same_bytes_iff text _).0
      (or_read-IsNamed text KrpcMessageType.error _ (err "unknown") (same_bytes_iff text _).0 tt))

named :
    (text : List ℕ) (msg : KrpcMessage) (r : Result String KrpcMessage)
    → r ≡ ok msg
    → IsNamed text r
    → text ≡ type_name msg.y
unfolding IsNamed
named text msg r e h = rw e at h

abbrev ok_or_empty : Result String (List ℕ) → List ℕ
ok_or_empty (ok text) = text
ok_or_empty (err e) = []

written :
    (name text : List ℕ) (found : Option Value)
    → kind_text found ≡ ok text
    → found ≡ some (bytes name)
    → name ≡ text
written name text found w e = ap ok_or_empty (ap kind_text (sym e) ∙ w)

derived : IsDerived utf8 write by_kind
derived = record {
  writes = λ msg. refl;
  reads = λ entries name text msg w e r.
      written name text _ w e ∙ named text msg _ r (read-IsNamed text);
}

abbrev home : SocketAddr
home = record { ip = v4 67 215 246 10; port = 6881 }

-- A response of the mainline DHT.
abbrev response : Value
response = dict (entry key_t (bytes (0 ∷ 1 ∷ [])) (entry key_y (bytes (b'r' ∷ [])) end))

response-IsBep5 : IsBep5 response
unfolding get same_bytes
response-IsBep5 = record {
  entries = entry key_t (bytes (0 ∷ 1 ∷ [])) (entry key_y (bytes (b'r' ∷ [])) end);
  dictionary = refl;
  tx_id = 0 ∷ 1 ∷ [];
  transaction = refl;
  letter = b'r';
  known = inr (inl refl);
  kind = refl;
}

abbrev client : DhtClient
client = record {
  node_id = codes "a client of 20 bytes";
  routing_table = new_table;
  next_transaction_id = 0;
  bootstrap_nodes = "router.bittorrent.com:6881" ∷ [];
}

-- The router answers the bootstrap's ping.
abbrev online : World ℕ DhtClient
online = record {
  now = 0;
  limit = none;
  inbox = (40, datagram home (b'r' ∷ [])) ∷ [];
  sends = [];
  sent = [];
  dns = λ _ _. answered 20 (home ∷ []);
  ties = λ _. true;
  self = client;
}

abbrev friend : Call
friend = History.add_node (codes "a friend of 20 bytes") home refl

abbrev calls : List Call
calls = History.bootstrap ∷ History.ping home ∷ friend ∷ []

mainline_isolates_example :
    ((run by_kind calls online).self.routing_table ≡ add_all (added calls) new_table)
    × ((lookup by_kind (codes "a topic") (run by_kind calls online)).0 ≡ done [])
unfolding same_bytes get
mainline_isolates_example =
    mainline_isolates utf8 write by_kind derived calls (codes "a topic") online refl
      ((response, response-IsBep5, refl, omega arith), tt)
