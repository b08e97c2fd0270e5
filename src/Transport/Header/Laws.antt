-- ===== src/Transport/Header/Laws.antt =====
-- Header.Encoder against Header.Decoder and Header.Check.
use gffg.Prelude.{
  ℕ, zero, suc, ◌+◌, ◌*◌, ◌^◌, ◌≤◌, ◌<◌, ◌≡◌, ◌≢◌, refl, ap, ◌∙◌, none, some, List, [], ◌∷◌, ◌++◌,
  true, arith, length, ◌⊎◌, inl, inr, Bool-cases, ltb, ltb→lt, false,
}
use gffg.Prelude.Int.{IsInt64, ℤ, pos, negsuc, eq_ℤ}
use gffg.Transport.Varint.{
  zigzag, unzigzag, put_uvarint, put_varint, varint, unzigzag-zigzag, put_uvarint_fits,
  put_uvarint_overflows, uvarint_loop-put_uvarint,
}
use gffg.Transport.Header.{
  bytes, with_size, Quad, Header, encoder, decoder, check, ok, sign_then_size,
}

-- A size whose zigzag form has at most 28 bits.
abbrev pub Fits : ℤ → Type 0
Fits size = zigzag size < 2 ^ 28

-- The four bytes written, and what reading them gives.
pub record Written (size : ℤ) : Type 0 where
  pub s2 : Quad
  pub wrote : put_varint (0 ∷ 0 ∷ 0 ∷ 0 ∷ []) size ≡ some (bytes s2)
  pub value : (varint (bytes s2)).0 ≡ size
  pub complete : (varint (bytes s2)).1 ≢ pos 0

quad_of_length : (bs : List ℕ) → length bs ≡ 4 → (q : Quad) × (bs ≡ bytes q)
quad_of_length (a ∷ b ∷ c ∷ d ∷ []) e = (record { b0 = a; b1 = b; b2 = c; b3 = d }, refl)
quad_of_length (a ∷ b ∷ c ∷ d ∷ x ∷ bs) e = absurd (omega arith)
quad_of_length _ e = absurd (omega arith)

times_one : (n : ℕ) → 0 + n * 2 ^ 0 ≡ n
times_one n = omega arith

pub put_varint-Written : (size : ℤ) → IsInt64 size → Fits size → Written size
unfolding put_varint varint
put_varint-Written size r h =
    let (out, e, l) = put_uvarint_fits (0 ∷ 0 ∷ 0 ∷ 0 ∷ []) (zigzag size) (omega arith) h in
    let (q, eq) = quad_of_length out l in
    let wrote : put_uvarint (0 ∷ 0 ∷ 0 ∷ 0 ∷ []) (zigzag size) ≡ some (bytes q) = rw eq at e in
    let back =
      uvarint_loop-put_uvarint (0 ∷ 0 ∷ 0 ∷ 0 ∷ []) (zigzag size) 0 0 0 (bytes q) wrote
        (omega arith) in
    record {
      s2 = q;
      wrote = wrote;
      value = ap unzigzag (back.0 ∙ times_one (zigzag size)) ∙ unzigzag-zigzag size r;
      complete = back.1;
    }

pub eq_ℤ_refl : (x : ℤ) → eq_ℤ x x ≡ true
eq_ℤ_refl (pos n) = ground arith
eq_ℤ_refl (negsuc n) = ground arith

pub eq_ℤ→eq : (x y : ℤ) → eq_ℤ x y ≡ true → x ≡ y
eq_ℤ→eq (pos n) (pos m) h = ground arith
eq_ℤ→eq (negsuc n) (negsuc m) h = ground arith
eq_ℤ→eq (pos n) (negsuc m) h = cc
eq_ℤ→eq (negsuc n) (pos m) h = cc

with_size-ok :
    (s1 : Quad) (size n : ℤ)
    → n ≢ pos 0
    → with_size s1 (size, n) ≡ ok (record { sign = s1; size = size })
with_size-ok s1 size (pos zero) h = absurd (h refl)
with_size-ok s1 size (pos (suc n)) h = ground arith
with_size-ok s1 size (negsuc n) h = refl

-- An encoded header: eight bytes, which decode to a header that passes the check.
pub record Encoded (size : ℤ) : Type 0 where
  pub read : List ℕ
  pub header : Header
  pub encodes : encoder size ≡ some read
  pub eight : length read ≡ 8
  pub decodes : (rest : List ℕ) → decoder (read ++ rest) ≡ ok header
  pub keeps_size : header.size ≡ size
  pub passes : check header ≡ true

-- For every int64 size whose zigzag form has at most 28 bits, Header.Encoder gives eight bytes, and
-- Header.Decoder reads them, whatever follows, to a header with this size that passes Header.Check.
pub encoder-Encoded : (size : ℤ) → IsInt64 size → Fits size → Encoded size
unfolding encoder decoder check
encoder-Encoded size r h =
    let w = put_varint-Written size r h in
    let s1 : Quad = record { b0 = w.s2.b1; b1 = w.s2.b3; b2 = w.s2.b2; b3 = w.s2.b0 } in
    record {
      read = sign_then_size (bytes w.s2);
      header = record { sign = s1; size = size };
      encodes = rw (w.wrote, encoder) refl;
      eight = refl;
      decodes = λ rest.
          with_size-ok s1 _ _ w.complete ∙ ap (λ n. ok (record { sign = s1; size = n })) w.value;
      keeps_size = refl;
      passes = rw w.value (eq_ℤ_refl size);
    }

-- For every size whose zigzag form has more than 28 bits, Header.Encoder panics.
pub encoder_panics : (size : ℤ) → 2 ^ 28 ≤ zigzag size → encoder size ≡ none
unfolding encoder put_varint
encoder_panics size h =
    rw (put_uvarint_overflows (0 ∷ 0 ∷ 0 ∷ 0 ∷ []) (zigzag size) h, encoder) refl

-- For every int64 size, either its zigzag form has at most 28 bits, and then Header.Encoder gives
-- eight bytes, and Header.Decoder reads them, whatever follows, to a header with this size that
-- passes Header.Check; or it has more, and then Header.Encoder panics.
pub encoder_lem :
    (size : ℤ)
    → IsInt64 size
    → (Fits size × Encoded size) ⊎ ((2 ^ 28 ≤ zigzag size) × (encoder size ≡ none))
encoder_lem size r = elim (Bool-cases (ltb (zigzag size) (2 ^ 28))) [
  | inl small ↦ inl (ltb→lt _ _ small, encoder-Encoded size r (ltb→lt _ _ small))
  | inr large ↦ inr (not_below _ _ large, encoder_panics size (not_below _ _ large))
]
  where
    not_below : (a b : ℕ) → ltb a b ≡ false → b ≤ a
    not_below a b e = ground arith
