-- ===== src/Proto/Fields/Reading.antt =====
-- The content of a field, read in front of what follows.
use gffg.Prelude.{
  ℕ, zero, suc, ◌+◌, ◌^◌, ◌≤◌, ◌<◌, ◌≡◌, refl, ap, ◌∙◌, arith, [], ◌∷◌, ◌++◌, length, length-append,
  take, drop, leb, false,
}
use gffg.Prelude.Text.{Text, insert}
use mathlib.Core.List.{append_assoc}
use gffg.Proto.{Headers}
use gffg.Proto.Wire.{Read, ok, encode_varint, read_varint}
use gffg.Proto.Wire.Laws.{read-encode, read_byte}
use gffg.Proto.Fields.{
  encode_bytes, encode_entry, split_at, split_by, read_bytes, entry_loop, int_field, bytes_field,
  headers_field, message_field,
}

take-append : (xs ys : Text) → take (length xs) (xs ++ ys) ≡ xs
take-append [] ys = refl
take-append (x ∷ xs) ys = ap (◌∷◌ x) (take-append xs ys)

drop-append : (xs ys : Text) → drop (length xs) (xs ++ ys) ≡ ys
drop-append [] ys = refl
drop-append (x ∷ xs) ys = drop-append xs ys

pub length-encode_bytes :
    (tag : ℕ) (s rest : Text)
    → length (encode_bytes tag s ++ rest)
      ≡ 1 + length (encode_varint (length s)) + (length s + length rest)
length-encode_bytes tag s rest = omega (
  arith,
  length-append (encode_varint (length s) ++ s) rest,
  length-append (encode_varint (length s)) s,
)

length_entry :
    (k v rest : Text)
    → length (encode_entry k v ++ rest)
      ≡ 1 + length (encode_varint (length k)) + (length k + length (encode_bytes 18 v ++ rest))
length_entry k v rest =
    ap length (append_assoc (encode_bytes 10 k) (encode_bytes 18 v) rest)
    ∙ length-encode_bytes 10 k (encode_bytes 18 v ++ rest)

module _ (l : ℕ) (small : l < 2 ^ 63) where
  split_at-append :
      (s rest : Text) → length (s ++ rest) ≤ l → split_at l (length s) (s ++ rest) ≡ ok (s, rest)
  split_at-append s rest h =
      ground (arith, small, h, length-append s rest, take-append s rest, drop-append s rest)

  read_bytes-encode :
      (s rest : Text)
      → length (s ++ rest) ≤ l
      → read_bytes l (encode_varint (length s) ++ s ++ rest) ≡ ok (s, rest)
  read_bytes-encode s rest h =
      ap (split_by l) (
        ap (read_varint 0 0) (append_assoc (encode_varint (length s)) s rest)
        ∙ read-encode (length s) (s ++ rest) (omega (arith, small, h, length-append s rest)))
      ∙ split_at-append s rest h

  read_key :
      (fuel : ℕ) (key value k rest next : Text)
      → length (k ++ rest) ≤ l
      → length next ≤ length rest
      → entry_loop l (suc fuel) (length next) key value (encode_bytes 10 k ++ rest)
        ≡ entry_loop l fuel (length next) k value rest
  unfolding entry_loop
  read_key fuel key value k rest next h a =
      rw
        (
          longer,
          read_byte 10 (encode_varint (length k) ++ k ++ rest) (omega arith),
          read_bytes-encode k rest h,
        )
        refl
    where
      longer : leb (length (encode_bytes 10 k ++ rest)) (length next) ≡ false
      longer = ground (arith, a, length-append (encode_varint (length k) ++ k) rest)

  read_value :
      (fuel : ℕ) (key value v rest next : Text)
      → length (v ++ rest) ≤ l
      → length next ≤ length rest
      → entry_loop l (suc fuel) (length next) key value (encode_bytes 18 v ++ rest)
        ≡ entry_loop l fuel (length next) key v rest
  unfolding entry_loop
  read_value fuel key value v rest next h a =
      rw
        (
          longer,
          read_byte 18 (encode_varint (length v) ++ v ++ rest) (omega arith),
          read_bytes-encode v rest h,
        )
        refl
    where
      longer : leb (length (encode_bytes 18 v ++ rest)) (length next) ≡ false
      longer = ground (arith, a, length-append (encode_varint (length v) ++ v) rest)

  read_end :
      (fuel : ℕ) (key value next : Text)
      → entry_loop l fuel (length next) key value next ≡ ok (key, value)
  unfolding entry_loop
  read_end zero key value next = refl
  read_end (suc fuel) key value next = ground arith

  entry_read :
      (fuel : ℕ) (k v next : Text)
      → 2 ≤ fuel
      → length (encode_entry k v ++ next) ≤ l
      → entry_loop l fuel (length next) [] [] (encode_entry k v ++ next) ≡ ok (k, v)
  entry_read zero k v next e h = absurd (omega arith)
  entry_read (suc zero) k v next e h = absurd (omega arith)
  entry_read (suc (suc fuel)) k v next e h =
      ap (entry_loop l (suc (suc fuel)) (length next) [] [])
        (append_assoc (encode_bytes 10 k) (encode_bytes 18 v) next)
      ∙ read_key (suc fuel) [] [] k (encode_bytes 18 v ++ next) next
          (omega (arith, length_entry k v next, length-append k (encode_bytes 18 v ++ next), h))
          (omega (arith, length-encode_bytes 18 v next))
      ∙ read_value fuel k [] v next next
          (omega
            (arith, length_entry k v next, length-encode_bytes 18 v next, length-append v next, h))
          (omega arith)
      ∙ read_end fuel k v next

  module _ {ℓ} {M : Type ℓ} where
    pub int_field-encode :
        (n : ℕ) (rest : Text) (store : ℕ → M)
        → n < 2 ^ 64
        → int_field l 0 (encode_varint n ++ rest) store ≡ ok (store n, rest)
    int_field-encode n rest store h = rw (read-encode n rest h) refl

    pub bytes_field-encode :
        (s rest : Text) (store : Text → M)
        → length (s ++ rest) ≤ l
        → bytes_field l 2 (encode_varint (length s) ++ s ++ rest) store ≡ ok (store s, rest)
    bytes_field-encode s rest store h = rw (read_bytes-encode s rest h) refl

    pub headers_field-encode :
        (k v rest : Text) (h : Headers) (store : Headers → M)
        → length (encode_entry k v ++ rest) ≤ l
        → headers_field l 2
            (encode_varint (length (encode_entry k v)) ++ encode_entry k v ++ rest)
            h
            store
          ≡ ok (store (insert k v h), rest)
    headers_field-encode k v rest h store le =
        rw
          (
            read_bytes-encode (encode_entry k v) rest le,
            entry_read (length (encode_entry k v ++ rest)) k v rest
                (omega (arith, length_entry k v rest, length-encode_bytes 18 v rest)) le,
          )
          refl

    pub message_field-encode :
        {A : Type 0} (s rest : Text) (unmarshal : Text → Read A) (store : A → M) (x : A)
        → length (s ++ rest) ≤ l
        → unmarshal s ≡ ok x
        → message_field l 2 (encode_varint (length s) ++ s ++ rest) unmarshal store
          ≡ ok (store x, rest)
    message_field-encode s rest unmarshal store x h e = rw (read_bytes-encode s rest h, e) refl
