-- ===== src/Proto/Fields.antt =====
-- What the generated Marshal, Size and Unmarshal of proto/packet.pb.go do for each kind of field, the
-- loop of Unmarshal over the fields, and skipPacket.
pub mod Reading
pub mod Room
pub mod Loop
pub mod Passes
use gffg.Prelude.{
  ℕ, zero, suc, ◌+◌, ◌-◌, ◌*◌, ◌/◌, ◌%◌, ◌^◌, List, [], ◌∷◌, ◌++◌, ltb, leb, ◌==◌, if◌then◌else◌,
  length, take, drop, Option, none, some, Bool, true, false, ◌||◌,
}
use gffg.Prelude.Int.{ℤ, pos, negsuc, eq_ℤ, to_uint64, to_int64}
use gffg.Prelude.Text.{Text, insert}
use gffg.Proto.{Headers}
use gffg.Proto.Wire.{
  encode_varint, sov, read_varint, Read, ok, err, panics, invalid_length, unexpected_eof,
  end_of_group, illegal_wire_type, illegal_tag, wrong_wire_type,
}

-- The fields, each with the byte of its tag. A field with no content is left out.
abbrev pub encode_int : ℕ → ℤ → Text
encode_int tag n = if eq_ℤ n (pos 0) then [] else tag ∷ encode_varint (to_uint64 n)

abbrev pub encode_bytes : ℕ → Text → Text
encode_bytes tag s = tag ∷ (encode_varint (length s) ++ s)

abbrev pub encode_entry : Text → Text → Text
encode_entry k v = encode_bytes 10 k ++ encode_bytes 18 v

-- A string, a message and a boolean, which are left out if they are empty, nil and false.
abbrev pub encode_text : ℕ → Text → Text
encode_text tag [] = []
encode_text tag (b ∷ s) = encode_bytes tag (b ∷ s)

abbrev pub encode_message {ℓ} : {A : Type ℓ} → ℕ → (A → Text) → Option A → Text
encode_message tag marshal none = []
encode_message tag marshal (some m) = encode_bytes tag (marshal m)

abbrev pub encode_bool : ℕ → Bool → Text
encode_bool tag false = []
encode_bool tag true = tag ∷ 1 ∷ []

-- The map is ranged over in any order; the list has the order in which the entries lie in the packet.
abbrev pub encode_headers : ℕ → Headers → Text
encode_headers tag [] = []
encode_headers tag ((k, v) ∷ h) = encode_bytes tag (encode_entry k v) ++ encode_headers tag h

abbrev pub encode_packet : Text → Text
encode_packet [] = []
encode_packet (b ∷ s) = encode_bytes 34 (b ∷ s)

abbrev pub int_size : ℤ → ℕ
int_size n = if eq_ℤ n (pos 0) then 0 else 1 + sov (to_uint64 n)

abbrev pub headers_size : Headers → ℕ
headers_size [] = 0
headers_size ((k, v) ∷ h) =
    let entry = 1 + length k + sov (length k) + 1 + length v + sov (length v) in
    entry + 1 + sov entry + headers_size h

abbrev pub packet_size : Text → ℕ
packet_size [] = 0
packet_size (b ∷ s) = 1 + length (b ∷ s) + sov (length (b ∷ s))

-- `int32(wire >> 3) <= 0`
abbrev bad_number : ℕ → Bool
bad_number number = (number == 0) || leb (2 ^ 31) number

module _ (l : ℕ) where
  -- From `iNdEx`, which is `l` less the bytes to come, on: the two halves at `iNdEx + n`.
  abbrev pub split_at : ℕ → Text → Read (Text × Text)
  split_at n bytes =
      if leb (2 ^ 63) n || leb (2 ^ 63) (l - length bytes + n)
      then err invalid_length
      else if ltb (length bytes) n
      then err unexpected_eof
      else ok (take n bytes, drop n bytes)

  abbrev pub split_by : Read (ℕ × Text) → Read (Text × Text)
  split_by (err e) = err e
  split_by panics = panics
  split_by (ok (n, bytes)) = split_at n bytes

  -- A length and so many bytes.
  abbrev pub read_bytes : Text → Read (Text × Text)
  read_bytes bytes = split_by (read_varint 0 0 bytes)

abbrev pub then_read {ℓ κ} : {A : Type ℓ} {B : Type κ} → Read A → (A → Read B) → Read B
then_read (ok a) f = f a
then_read (err e) f = err e
then_read panics f = panics

-- A round of `skipPacket` behind the tag: the depth and `iNdEx` after it. `n` is `iNdEx` before.
abbrev skip_value : ℕ → ℕ → ℕ → Text → Read (ℕ × ℕ)
skip_value wire_type depth n bytes =
    if wire_type == 0
    then then_read (read_varint 0 0 bytes) (λ r. ok (depth, n + (length bytes - length (r.1))))
    else if wire_type == 1
    then ok (depth, n + 8)
    else if wire_type == 2
    then then_read (read_varint 0 0 bytes) (λ r.
      if leb (2 ^ 63) r.0
      then err invalid_length
      else ok (depth, n + (length bytes - length (r.1)) + r.0))
    else if wire_type == 3
    then ok (suc depth, n)
    else if wire_type == 4
    then (if depth == 0 then err end_of_group else ok (depth - 1, n))
    else if wire_type == 5
    then ok (depth, n + 4)
    else err illegal_wire_type

abbrev skip_round : ℕ → ℕ → Text → Read (ℕ × ℕ)
skip_round depth n bytes =
    then_read (read_varint 0 0 bytes)
      (λ r. skip_value (r.0 % 8) depth (n + (length bytes - length (r.1))) (r.1))

-- A round reads a byte at least, so the number of bytes is enough fuel.
skip_loop : ℕ → ℕ → ℕ → Text → Read ℕ
skip_loop zero depth n bytes = err unexpected_eof
skip_loop (suc fuel) depth n [] = err unexpected_eof
skip_loop (suc fuel) depth n (b ∷ bytes) = then_read (skip_round depth n (b ∷ bytes)) (λ r.
    let more = skip_loop fuel r.0 (r.1) (drop (r.1 - n) (b ∷ bytes)) in
    if leb (2 ^ 63) (r.1) then err invalid_length else if r.0 == 0 then ok (r.1) else more)

unfoldable pub skip_packet : Text → Read ℕ
unfolding skip_loop
skip_packet bytes = skip_loop (length bytes) 0 0 bytes

module _ (l : ℕ) where
  -- A field of a map's entry. `after` is how many bytes follow `postIndex`.
  abbrev entry_field : ℕ → Text → Text → Text → Read (Text × Text × Text)
  entry_field after key value bytes = then_read (read_varint 0 0 bytes) (λ r.
      let number = r.0 / 8 % 2 ^ 32 in
      if number == 1
      then then_read (read_bytes l (r.1)) (λ s. ok (s.0, value, s.1))
      else if number == 2
      then then_read (read_bytes l (r.1)) (λ s. ok (key, s.0, s.1))
      else then_read (skip_packet bytes) (λ n.
        if leb (2 ^ 63) (l - length bytes + n)
        then panics
        else if ltb (length bytes) (n + after)
        then err unexpected_eof
        else ok (key, value, drop n bytes)))

  -- `for iNdEx < postIndex`, with the number of bytes for fuel.
  unfoldable pub entry_loop : ℕ → ℕ → Text → Text → Text → Read (Text × Text)
  unfolding skip_packet
  entry_loop zero after key value bytes = ok (key, value)
  entry_loop (suc fuel) after key value bytes =
      if leb (length bytes) after
      then ok (key, value)
      else then_read (entry_field after key value bytes)
          (λ r. entry_loop fuel after r.0 (r.1) (r.2))

  -- The entry of a map's field, of which `next` is what follows.
  abbrev pub store_entry : Headers → Text × Text → Read (Headers × Text)
  store_entry headers (entry, next) =
      then_read (entry_loop (length (entry ++ next)) (length next) [] [] (entry ++ next))
        (λ r. ok (insert r.0 (r.1) headers, next))

  module _ {ℓ} {M : Type ℓ} where
    -- The cases of a field by its kind: what follows the tag, its wire type, and the message with the
    -- field stored.
    abbrev pub int_field : ℕ → Text → (ℕ → M) → Read (M × Text)
    int_field wire_type bytes store =
        if wire_type == 0
        then then_read (read_varint 0 0 bytes) (λ s. ok (store s.0, s.1))
        else err wrong_wire_type

    abbrev pub bytes_field : ℕ → Text → (Text → M) → Read (M × Text)
    bytes_field wire_type bytes store =
        if wire_type == 2
        then then_read (read_bytes l bytes) (λ s. ok (store s.0, s.1))
        else err wrong_wire_type

    abbrev pub headers_field : ℕ → Text → Headers → (Headers → M) → Read (M × Text)
    headers_field wire_type bytes headers store =
        if wire_type == 2
        then then_read (read_bytes l bytes)
            (λ s. then_read (store_entry headers s) (λ r. ok (store r.0, r.1)))
        else err wrong_wire_type

    -- A message within the message, read by its own Unmarshal, and a boolean.
    abbrev pub message_field {κ} :
        {A : Type κ} → ℕ → Text → (Text → Read A) → (A → M) → Read (M × Text)
    message_field wire_type bytes unmarshal store =
        if wire_type == 2
        then then_read (read_bytes l bytes)
            (λ s. then_read (unmarshal s.0) (λ x. ok (store x, s.1)))
        else err wrong_wire_type

    abbrev pub bool_field : ℕ → Text → (Bool → M) → Read (M × Text)
    bool_field wire_type bytes store = int_field wire_type bytes (λ n. store (leb 1 n))

    abbrev pub skip_unknown : M → Text → Read (M × Text)
    skip_unknown m bytes = then_read (skip_packet bytes) (λ n.
        if leb (2 ^ 63) (l - length bytes + n)
        then err invalid_length
        else if ltb (length bytes) n
        then err unexpected_eof
        else ok (m, drop n bytes))

-- `for iNdEx < l`: the `switch` on the number of a field, its wire type, the message, and the bytes
-- behind the tag and from the tag on.
module _ {ℓ} {M : Type ℓ} (dispatch : ℕ → ℕ → M → Text → Text → Read (M × Text)) where
  abbrev field : M → Text → Read (M × Text)
  field m bytes = then_read (read_varint 0 0 bytes) (λ r.
      let number = r.0 / 8 % 2 ^ 32 in
      let wire_type = r.0 % 8 in
      if wire_type == 4
      then err illegal_wire_type
      else if bad_number number
      then err illegal_tag
      else dispatch number wire_type m (r.1) bytes)

  unfoldable pub fields : ℕ → M → Text → Read M
  fields fuel m [] = ok m
  fields zero m (b ∷ bytes) = ok m
  fields (suc fuel) m (b ∷ bytes) = then_read (field m (b ∷ bytes)) (λ r. fields fuel r.0 (r.1))
