-- ===== src/Proto/Fields/Passes.antt =====
-- The loop of Unmarshal over the fields of a message, one after the other, for messages with any fields.
use gffg.Prelude.{
  ℕ, zero, suc, Option, none, some, ◌^◌, ◌≤◌, ◌<◌, ◌≡◌, refl, ◌∙◌, arith, [], ◌∷◌, ◌++◌, length,
  length-append, Bool, true, false,
}
use gffg.Prelude.Int.{ℤ, pos, to_uint64}
use gffg.Prelude.Text.{Text}
use mathlib.Core.List.{append-nil}
use mathlib.Core.Path.{subst}
use gffg.Proto.{Headers}
use gffg.Proto.Wire.{Read, ok, encode_varint}
use gffg.Proto.Wire.Laws.{read_byte}
use gffg.Proto.Fields.{
  encode_int, encode_bytes, encode_headers, encode_text, encode_message, encode_bool, int_field,
  bytes_field, headers_field, message_field, bool_field, fields,
}
use gffg.Proto.Fields.Reading.{length-encode_bytes, bytes_field-encode, message_field-encode}
use gffg.Proto.Fields.Loop.{
  IsTag, Reads, at_tag, field_at, store_all, encode_int-Reads, encode_headers-Reads,
}

pub IsTag-1_2 : IsTag 10
IsTag-1_2 = record { one_byte = omega arith; no_group = refl; has_number = refl }

pub IsTag-4_0 : IsTag 32
IsTag-4_0 = record { one_byte = omega arith; no_group = refl; has_number = refl }

pub IsTag-5_2 : IsTag 42
IsTag-5_2 = record { one_byte = omega arith; no_group = refl; has_number = refl }

pub IsTag-6_0 : IsTag 48
IsTag-6_0 = record { one_byte = omega arith; no_group = refl; has_number = refl }

pub IsTag-7_2 : IsTag 58
IsTag-7_2 = record { one_byte = omega arith; no_group = refl; has_number = refl }

pub IsTag-8_2 : IsTag 66
IsTag-8_2 = record { one_byte = omega arith; no_group = refl; has_number = refl }

-- What a message that is there satisfies.
abbrev pub IfSome : {A : Type 0} → (A → Type 0) → Option A → Type 0
IfSome P none = Unit
IfSome P (some x) = P x

module _ {M : Type 0} (dispatch : ℕ → ℕ → M → Text → Text → Read (M × Text)) (l : ℕ)
    (small : l < 2 ^ 63) where
  -- Bytes that are no more than those of the whole message are read to the rest, with another message.
  pub record Passes (m to : M) (bytes rest : Text) : Type 0 where
    pub passes : length bytes ≤ l → (length rest ≤ l) × Reads dispatch m to bytes rest

  pub fields-Passes :
      {m to : M} (bytes : Text)
      → Passes m to bytes []
      → length bytes ≡ l
      → fields dispatch l m bytes ≡ ok to
  unfolding fields
  fields-Passes bytes p e =
      let (f, g, eq) = (p.passes (omega (arith, e))).1 l (omega (arith, e)) in eq

  -- Nothing is there, and the message is the same.
  pub nothing-Passes : (m : M) (rest : Text) → Passes m m rest rest
  nothing-Passes m rest = record { passes = λ le. (le, λ fuel h. (fuel, h, refl)) }

  module _ (tag : ℕ) (t : IsTag tag) where
    -- One field, whose tag is there.
    one_field :
        (m to : M) (bytes rest : Text)
        → length rest ≤ length bytes
        → (length (tag ∷ bytes) ≤ l → at_tag dispatch tag m bytes (tag ∷ bytes) ≡ ok (to, rest))
        → Passes m to (tag ∷ bytes) rest
    one_field m to bytes rest shorter reads = record {
      passes = λ le. (omega (arith, shorter, le), go le);
    }
      where
        go : length (tag ∷ bytes) ≤ l → Reads dispatch m to (tag ∷ bytes) rest
        go le zero h = absurd (omega (arith, h))
        go le (suc fuel) h = (
          fuel,
          omega (arith, shorter, h),
          field_at dispatch tag fuel m to bytes rest t (reads le),
        )

    pub encode_int-Passes :
        (set : ℤ → M) (of : ℕ → ℤ)
        → ((rest bytes : Text)
            → at_tag dispatch tag (set (pos 0)) rest bytes ≡ int_field l 0 rest (λ u. set (of u)))
        → (n : ℤ) (rest : Text) → of (to_uint64 n) ≡ n
        → Passes (set (pos 0)) (set n) (encode_int tag n ++ rest) rest
    encode_int-Passes set of case n rest fits = record {
      passes = λ le. (
        omega (arith, le, length-append (encode_int tag n) rest),
        encode_int-Reads dispatch l small tag t set of case n rest fits,
      );
    }

    pub encode_headers-Passes :
        (put : Headers → M)
        → ((h : Headers) (rest bytes : Text)
            → at_tag dispatch tag (put h) rest bytes ≡ headers_field l 2 rest h put)
        → (h : Headers) (rest : Text) → store_all [] h ≡ h
        → Passes (put []) (put h) (encode_headers tag h ++ rest) rest
    encode_headers-Passes put case h rest same = record {
      passes = λ le. (
        omega (arith, le, length-append (encode_headers tag h) rest),
        subst (λ x. Reads dispatch (put []) (put x) (encode_headers tag h ++ rest) rest) same
            (encode_headers-Reads dispatch l small tag t put case h [] rest le),
      );
    }

    pub encode_text-Passes :
        (put : Text → M)
        → ((rest bytes : Text) → at_tag dispatch tag (put []) rest bytes ≡ bytes_field l 2 rest put)
        → (s rest : Text) → Passes (put []) (put s) (encode_text tag s ++ rest) rest
    encode_text-Passes put case [] rest = nothing-Passes (put []) rest
    encode_text-Passes put case (b ∷ s) rest =
        one_field (put []) (put (b ∷ s)) (encode_varint (length (b ∷ s)) ++ (b ∷ s) ++ rest) rest
          (omega (arith, length-encode_bytes tag (b ∷ s) rest))
          (λ le.
            case _ _
            ∙ bytes_field-encode l small (b ∷ s) rest put (
                omega
                  (arith, le, length-encode_bytes tag (b ∷ s) rest, length-append (b ∷ s) rest)))

    pub encode_message-Passes :
        {A : Type 0} (m : M) (unmarshal : Text → Read A) (put : A → M)
        → ((rest bytes : Text)
            → at_tag dispatch tag m rest bytes ≡ message_field l 2 rest unmarshal put)
        → (s : Text) (x : A) (rest : Text) → (length s < 2 ^ 63 → unmarshal s ≡ ok x)
        → Passes m (put x) (encode_bytes tag s ++ rest) rest
    encode_message-Passes m unmarshal put case s x rest reads =
        one_field m (put x) (encode_varint (length s) ++ s ++ rest) rest
          (omega (arith, length-encode_bytes tag s rest))
          (λ le.
            case _ _
            ∙ message_field-encode l small s rest unmarshal put x
                (omega (arith, le, length-encode_bytes tag s rest, length-append s rest))
                (reads (omega (arith, le, small, length-encode_bytes tag s rest))))

    pub encode_optional-Passes :
        {A : Type 0} (put : Option A → M) (marshal : A → Text) (unmarshal : Text → Read A)
        → ((rest bytes : Text)
            → at_tag dispatch tag (put none) rest bytes
              ≡ message_field l 2 rest unmarshal (λ x. put (some x)))
        → (P : A → Type 0)
        → ((x : A) → P x → length (marshal x) < 2 ^ 63 → unmarshal (marshal x) ≡ ok x)
        → (o : Option A) (rest : Text) → IfSome P o
        → Passes (put none) (put o) (encode_message tag marshal o ++ rest) rest
    encode_optional-Passes put marshal unmarshal case P reads none rest p =
        nothing-Passes (put none) rest
    encode_optional-Passes put marshal unmarshal case P reads (some x) rest p =
        encode_message-Passes (put none) unmarshal (λ x. put (some x)) case (marshal x) x rest
          (reads x p)

    pub encode_bool-Passes :
        (put : Bool → M)
        → ((rest bytes : Text)
            → at_tag dispatch tag (put false) rest bytes ≡ bool_field l 0 rest put)
        → (b : Bool) (rest : Text) → Passes (put false) (put b) (encode_bool tag b ++ rest) rest
    encode_bool-Passes put case false rest = nothing-Passes (put false) rest
    encode_bool-Passes put case true rest =
        one_field (put false) (put true) (1 ∷ rest) rest (omega arith)
          (λ le. case _ _ ∙ rw (read_byte 1 rest (omega arith)) refl)

module _ {M : Type 0} {dispatch : ℕ → ℕ → M → Text → Text → Read (M × Text)} {l : ℕ}
    {small : l < 2 ^ 63} where
  -- One part of the message and the next one.
  infixr 5 ◌▸◌
  pub ◌▸◌ :
      {m a b : M} {x y z : Text}
      → Passes dispatch l small m a x y
      → Passes dispatch l small a b y z
      → Passes dispatch l small m b x z
  p ▸ q = record {
    passes = λ le.
        let (le', r) = p.passes le in
        let (le'', r') = q.passes le' in
        (le'', λ fuel h. let (f, g, e) = r fuel h in let (f', g', e') = r' f g in (f', g', e ∙ e'));
  }

  pub last_field :
      {m to : M} (x : Text)
      → Passes dispatch l small m to (x ++ []) []
      → Passes dispatch l small m to x []
  last_field {m} {to} x p = subst (λ y. Passes dispatch l small m to y []) (append-nil x) p
