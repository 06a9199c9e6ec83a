-- ===== src/Protocol/Wire/Read.antt =====
-- A wire form keeps the whole message: it is read back by the names of the fields.
use mathlib.Core.Option
use hyperswarm.Base.{
  ℕ, ◌≡◌, refl, ap, sym, ◌∙◌, if◌then◌else◌, Option, none, some, List, [], ◌∷◌, String, same_bytes,
  arith,
}
use hyperswarm.Base.Int.{ℤ, pos}
use hyperswarm.Protocol.{KrpcMessageType, KrpcQueryKind, KrpcArgs, KrpcResponse, KrpcMessage}
use hyperswarm.Protocol.Wire.{
  Value, Values, Entries, int, bytes, list, dict, nil, cons, end, entry, field, integers, sequence,
  sequences, number, type_name, kind_name, args_value, response_value, error_value, to_value, Utf8,
  key_t, key_y, key_q, key_a, key_r, key_e, key_id, key_target, key_info_hash, key_port, key_token,
  key_nodes, key_values,
}

-- The first entry under a key.
unfoldable pub get : List ℕ → Entries → Option Value
unfolding same_bytes
get key end = none
get key (entry name value rest) =
    let later = get key rest in if same_bytes name key then some value else later

abbrev entries_of : Value → Entries
entries_of (dict entries) = entries
entries_of _ = end

abbrev values_of : Value → Values
values_of (list values) = values
values_of _ = nil

abbrev number_of : Value → ℕ
number_of (int (pos n)) = n
number_of _ = 0

abbrev bytes_of : Value → List ℕ
bytes_of (bytes bs) = bs
bytes_of _ = []

read_integers : Values → List ℕ
read_integers nil = []
read_integers (cons v vs) = number_of v ∷ read_integers vs

read_sequences : Values → List (List ℕ)
read_sequences nil = []
read_sequences (cons v vs) = read_integers (values_of v) ∷ read_sequences vs

abbrev or_else : Option Value → Option Value → Option Value
or_else none later = later
or_else (some v) later = some v

module _ {A : Type 0} where
  get-field :
      (key name : List ℕ) (value : A → Value) (o : Option A) (rest : Entries)
      → get key (field name value o rest) ≡ (
          if same_bytes name key then or_else (Option.map value o) (get key rest) else get key rest)
  unfolding get
  get-field key name value none rest = ground arith
  get-field key name value (some x) rest = refl

  -- An optional field whose value is read back.
  read-field :
      (f : A → Value) (g : Value → A) (o : Option A)
      → ((x : A) → g (f x) ≡ x)
      → Option.map g (or_else (Option.map f o) none) ≡ o
  read-field f g none h = refl
  read-field f g (some x) h = ap some (h x)

abbrev get_or_nil : Option Value → Value
get_or_nil none = list nil
get_or_nil (some v) = v

abbrev read_sequence : Value → List ℕ
read_sequence v = read_integers (values_of v)

abbrev read_args : Value → KrpcArgs
read_args v =
    let entries = entries_of v in
    record {
      id = Option.map read_sequence (get key_id entries);
      target = Option.map read_sequence (get key_target entries);
      info_hash = Option.map read_sequence (get key_info_hash entries);
      port = Option.map number_of (get key_port entries);
      token = Option.map read_sequence (get key_token entries);
    }

abbrev read_response : Value → KrpcResponse
read_response v =
    let entries = entries_of v in
    record {
      id = Option.map read_sequence (get key_id entries);
      nodes = Option.map read_sequence (get key_nodes entries);
      values = Option.map (λ v. read_sequences (values_of v)) (get key_values entries);
      token = Option.map read_sequence (get key_token entries);
    }

abbrev read_type : Value → KrpcMessageType
read_type v =
    if same_bytes (bytes_of v) (type_name KrpcMessageType.query)
    then KrpcMessageType.query
    else if same_bytes (bytes_of v) (type_name KrpcMessageType.response)
    then KrpcMessageType.response
    else KrpcMessageType.error

abbrev read_kind : Value → KrpcQueryKind
read_kind v =
    if same_bytes (bytes_of v) (kind_name KrpcQueryKind.ping)
    then KrpcQueryKind.ping
    else if same_bytes (bytes_of v) (kind_name KrpcQueryKind.find_node)
    then KrpcQueryKind.find_node
    else if same_bytes (bytes_of v) (kind_name KrpcQueryKind.get_peers)
    then KrpcQueryKind.get_peers
    else KrpcQueryKind.announce_peer

abbrev text_or_empty : Option String → String
text_or_empty none = ""
text_or_empty (some text) = text

abbrev read_error : Utf8 → Value → ℤ × String
read_error utf8 (list (cons (int code) (cons (bytes text) nil))) =
    (code, text_or_empty (utf8.from_utf8 text))
read_error utf8 _ = (pos 0, "")

-- A message by the names of its fields.
abbrev read_message : Utf8 → Value → KrpcMessage
read_message utf8 v =
    let entries = entries_of v in
    record {
      t = read_sequence (get_or_nil (get key_t entries));
      y = read_type (get_or_nil (get key_y entries));
      q = Option.map read_kind (get key_q entries);
      a = Option.map read_args (get key_a entries);
      r = Option.map read_response (get key_r entries);
      e = Option.map (read_error utf8) (get key_e entries);
    }

read_integers-integers : (bs : List ℕ) → read_integers (integers bs) ≡ bs
unfolding read_integers
read_integers-integers [] = refl
read_integers-integers (b ∷ bs) = ap (b ∷◌) (read_integers-integers bs)

read_sequence-field :
    (o : Option (List ℕ)) → Option.map read_sequence (or_else (Option.map sequence o) none) ≡ o
read_sequence-field o = read-field sequence read_sequence o read_integers-integers

number_of-field : (o : Option ℕ) → Option.map number_of (or_else (Option.map number o) none) ≡ o
number_of-field o = read-field number number_of o (λ _. refl)

read_args-args_value : (args : KrpcArgs) → read_args (args_value args) ≡ args
unfolding same_bytes get
read_args-args_value args = simp (get-field, read_sequence-field, number_of-field) refl

read_sequences-sequences : (values : List (List ℕ)) → read_sequences (sequences values) ≡ values
unfolding read_sequences
read_sequences-sequences [] = refl
read_sequences-sequences (bs ∷ rest) =
    rw (read_integers-integers bs, read_sequences-sequences rest) refl

values-field :
    (o : Option (List (List ℕ)))
    → Option.map
        (λ v. read_sequences (values_of v))
        (or_else (Option.map (λ values. list (sequences values)) o) none)
      ≡ o
values-field o = read-field _ (λ v. read_sequences (values_of v)) o read_sequences-sequences

read_response-response_value : (r : KrpcResponse) → read_response (response_value r) ≡ r
unfolding same_bytes get
read_response-response_value r = simp (get-field, read_sequence-field, values-field) refl

read_type-type_name : (y : KrpcMessageType) → read_type (bytes (type_name y)) ≡ y
unfolding same_bytes
read_type-type_name KrpcMessageType.query = refl
read_type-type_name KrpcMessageType.response = refl
read_type-type_name KrpcMessageType.error = refl

read_kind-kind_name : (kind : KrpcQueryKind) → read_kind (bytes (kind_name kind)) ≡ kind
unfolding same_bytes
read_kind-kind_name KrpcQueryKind.ping = refl
read_kind-kind_name KrpcQueryKind.find_node = refl
read_kind-kind_name KrpcQueryKind.get_peers = refl
read_kind-kind_name KrpcQueryKind.announce_peer = refl

module _ (utf8 : Utf8) where
  read_error-error_value : (e : ℤ × String) → read_error utf8 (error_value utf8 e) ≡ e
  read_error-error_value (code, text) = rw (utf8.valid text) refl

  read_message-to_value : (msg : KrpcMessage) → read_message utf8 (to_value utf8 msg) ≡ msg
  unfolding same_bytes get to_value
  read_message-to_value msg =
      simp
        (
          get-field,
          read_integers-integers,
          read_type-type_name,
          read-field (λ kind. bytes (kind_name kind)) read_kind msg.q read_kind-kind_name,
          read-field args_value read_args msg.a read_args-args_value,
          read-field response_value read_response msg.r read_response-response_value,
          read-field (error_value utf8) (read_error utf8) msg.e read_error-error_value,
        )
        refl

  -- Two messages that have the same wire form are the same: the fields that are left out and the
  -- names that stand for constructors lose nothing.
  pub to_value-injective : (m₁ m₂ : KrpcMessage) → to_value utf8 m₁ ≡ to_value utf8 m₂ → m₁ ≡ m₂
  to_value-injective m₁ m₂ e =
      sym (read_message-to_value m₁) ∙ ap (read_message utf8) e ∙ read_message-to_value m₂
