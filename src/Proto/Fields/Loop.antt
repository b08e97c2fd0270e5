-- ===== src/Proto/Fields/Loop.antt =====
-- The loop of Unmarshal over fields that Marshal has written.
use gffg.Prelude.{
  ℕ, zero, suc, ◌+◌, ◌/◌, ◌%◌, ◌^◌, ◌≤◌, ◌<◌, ◌≡◌, refl, sym, ap, ◌∙◌, arith, [], ◌∷◌, ◌++◌, ◌==◌,
  length, length-append, true, false, Bool-cases, ==_iff, ◌⊎◌, inl, inr,
}
use gffg.Prelude.Int.{ℤ, pos, negsuc, eq_ℤ, to_uint64}
use gffg.Prelude.Text.{Text, insert}
use mathlib.Core.List.{append_assoc, append-nil}
use mathlib.Core.Path.{subst}
use gffg.Proto.{Headers}
use gffg.Proto.Wire.{Read, ok, encode_varint}
use gffg.Proto.Wire.Laws.{read_byte}
use gffg.Proto.Fields.{
  encode_int, encode_bytes, encode_entry, encode_headers, encode_packet, bad_number, int_field,
  bytes_field, headers_field, fields,
}
use gffg.Proto.Fields.Room.{to_uint64_lt}
use gffg.Proto.Fields.Reading.{
  length-encode_bytes, int_field-encode, bytes_field-encode, headers_field-encode,
}

-- The entries stored into a map one after the other.
abbrev pub store_all : Headers → Headers → Headers
store_all into [] = into
store_all into ((k, v) ∷ h) = store_all (insert k v into) h

-- A byte that is a tag of its own, with a number that a field may have.
pub record IsTag (tag : ℕ) : Type 0 where
  pub one_byte : tag < 128
  pub no_group : (tag % 8 == 4) ≡ false
  pub has_number : bad_number (tag / 8 % 2 ^ 32) ≡ false

-- The tags of the two messages. Their names say the number and the wire type.
pub IsTag-1_0 : IsTag 8
IsTag-1_0 = record { one_byte = omega arith; no_group = refl; has_number = refl }

pub IsTag-2_0 : IsTag 16
IsTag-2_0 = record { one_byte = omega arith; no_group = refl; has_number = refl }

pub IsTag-2_2 : IsTag 18
IsTag-2_2 = record { one_byte = omega arith; no_group = refl; has_number = refl }

pub IsTag-3_0 : IsTag 24
IsTag-3_0 = record { one_byte = omega arith; no_group = refl; has_number = refl }

pub IsTag-3_2 : IsTag 26
IsTag-3_2 = record { one_byte = omega arith; no_group = refl; has_number = refl }

pub IsTag-4_2 : IsTag 34
IsTag-4_2 = record { one_byte = omega arith; no_group = refl; has_number = refl }

eq_ℤ→eq : (n : ℤ) → eq_ℤ n (pos 0) ≡ true → n ≡ pos 0
eq_ℤ→eq (pos n) h = ap pos ((==_iff n 0).0 h)
eq_ℤ→eq (negsuc n) h = cc

encode_int_cases :
    (tag : ℕ) (n : ℤ)
    → ((n ≡ pos 0) × (encode_int tag n ≡ []))
      ⊎ (encode_int tag n ≡ tag ∷ encode_varint (to_uint64 n))
encode_int_cases tag n = elim (Bool-cases (eq_ℤ n (pos 0))) [
  | inl e ↦ inl (eq_ℤ→eq n e, rw e refl)
  | inr e ↦ inr (rw e refl)
]

length_headers :
    (tag : ℕ) (k v : Text) (h : Headers) (rest : Text)
    → length (encode_headers tag ((k, v) ∷ h) ++ rest)
      ≡ 1
        + length (encode_varint (length (encode_entry k v)))
        + (length (encode_entry k v) + length (encode_headers tag h ++ rest))
length_headers tag k v h rest =
    ap length (append_assoc (encode_bytes tag (encode_entry k v)) (encode_headers tag h) rest)
    ∙ length-encode_bytes tag (encode_entry k v) (encode_headers tag h ++ rest)

module _ {M : Type 0} (dispatch : ℕ → ℕ → M → Text → Text → Read (M × Text)) where
  -- Reading some bytes with enough fuel comes to the rest with enough fuel, and another message.
  abbrev pub Reads : M → M → Text → Text → Type 0
  Reads m to bytes rest =
      (fuel : ℕ)
      → length bytes ≤ fuel
      → (f : ℕ) × (length rest ≤ f) × (fields dispatch fuel m bytes ≡ fields dispatch f to rest)

  -- What the switch does with a tag.
  abbrev pub at_tag : ℕ → M → Text → Text → Read (M × Text)
  at_tag tag = dispatch (tag / 8 % 2 ^ 32) (tag % 8)

  pub field_at :
      (tag fuel : ℕ) (m to : M) (bytes rest : Text)
      → IsTag tag
      → at_tag tag m bytes (tag ∷ bytes) ≡ ok (to, rest)
      → fields dispatch (suc fuel) m (tag ∷ bytes) ≡ fields dispatch fuel to rest
  unfolding fields
  field_at tag fuel m to bytes rest t e =
      rw (read_byte tag bytes t.one_byte, t.no_group, t.has_number, e) refl

  module _ (l : ℕ) (small : l < 2 ^ 63) (tag : ℕ) (t : IsTag tag) where
    pub encode_int-Reads :
        (set : ℤ → M) (of : ℕ → ℤ)
        → ((rest bytes : Text)
            → at_tag tag (set (pos 0)) rest bytes ≡ int_field l 0 rest (λ u. set (of u)))
        → (n : ℤ) (rest : Text) → of (to_uint64 n) ≡ n
        → Reads (set (pos 0)) (set n) (encode_int tag n ++ rest) rest
    encode_int-Reads set of case n rest fits = elim (encode_int_cases tag n) [
      | inl (z, e) ↦ subst (λ x. Reads (set (pos 0)) (set n) (x ++ rest) rest) (sym e) (absent z)
      | inr e ↦ subst (λ x. Reads (set (pos 0)) (set n) (x ++ rest) rest) (sym e) present
    ]
      where
        absent : n ≡ pos 0 → Reads (set (pos 0)) (set n) rest rest
        absent z fuel h = (fuel, h, ap (λ k. fields dispatch fuel (set k) rest) (sym z))

        present : Reads (set (pos 0)) (set n) (tag ∷ (encode_varint (to_uint64 n) ++ rest)) rest
        present zero h = absurd (omega arith)
        present (suc fuel) h = (
          fuel,
          omega (arith, h, length-append (encode_varint (to_uint64 n)) rest),
          field_at tag fuel (set (pos 0)) (set (of (to_uint64 n)))
                (encode_varint (to_uint64 n) ++ rest) rest t
                (case (encode_varint (to_uint64 n) ++ rest) _
                  ∙ int_field-encode l small (to_uint64 n) rest (λ u. set (of u)) (to_uint64_lt n))
              ∙ ap (λ k. fields dispatch fuel (set k) rest) fits,
        )

    pub encode_headers-Reads :
        (put : Headers → M)
        → ((h : Headers) (rest bytes : Text)
            → at_tag tag (put h) rest bytes ≡ headers_field l 2 rest h put)
        → (h from : Headers) (rest : Text) → length (encode_headers tag h ++ rest) ≤ l
        → Reads (put from) (put (store_all from h)) (encode_headers tag h ++ rest) rest
    encode_headers-Reads put case [] from rest le fuel e = (fuel, e, refl)
    encode_headers-Reads put case ((k, v) ∷ h) from rest le zero e =
        absurd (omega (arith, e, length_headers tag k v h rest))
    encode_headers-Reads put case ((k, v) ∷ h) from rest le (suc fuel) e =
        let size = length_headers tag k v h rest in
        let next = encode_headers tag h ++ rest in
        let (f, g, eq) =
          encode_headers-Reads put case h (insert k v from) rest (omega (arith, le, size)) fuel
            (omega (arith, e, size)) in
        (
          f,
          g,
          ap (fields dispatch (suc fuel) (put from))
                (append_assoc (encode_bytes tag (encode_entry k v)) (encode_headers tag h) rest)
              ∙ field_at tag fuel (put from) (put (insert k v from)) _ next t (
                  case from _ _
                  ∙ headers_field-encode l small k v next from put
                      (omega (arith, le, size, length-append (encode_entry k v) next)))
              ∙ eq,
        )

  -- The last field, which is the packet.
  pub read_packet :
      (l : ℕ)
      → l < 2 ^ 63
      → (put : Text → M)
      → ((rest bytes : Text) → dispatch 4 2 (put []) rest bytes ≡ bytes_field l 2 rest put)
      → (s : Text) (fuel : ℕ) → length (encode_packet s) ≤ l
      → length (encode_packet s) ≤ fuel
      → fields dispatch fuel (put []) (encode_packet s) ≡ ok (put s)
  unfolding fields
  read_packet l small put case [] fuel le h = refl
  read_packet l small put case (b ∷ s) zero le h = absurd (omega (arith, h))
  read_packet l small put case (b ∷ s) (suc fuel) le h =
      ap (fields dispatch (suc fuel) (put [])) (sym (append-nil (encode_packet (b ∷ s))))
      ∙ field_at 34 fuel (put []) (put (b ∷ s)) _ [] IsTag-4_2 (
          case _ _
          ∙ bytes_field-encode l small (b ∷ s) [] put (
              omega (
                arith,
                le,
                length-append (encode_varint (length (b ∷ s))) (b ∷ s),
                length-append (b ∷ s) [],
              )))
