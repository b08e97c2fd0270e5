-- ===== src/Proto/Fields/Room.antt =====
-- The lengths of the fields of a request, and the room that Size reckons for each.
use gffg.Prelude.{
  ℕ, ◌+◌, ◌^◌, ◌<◌, ◌≡◌, refl, ap, arith, [], ◌∷◌, length, length-append, Bool-cases, inl, inr,
}
use gffg.Prelude.Int.{ℤ, pos, negsuc, eq_ℤ, to_uint64}
use gffg.Prelude.Text.{Text}
use gffg.Proto.{Headers}
use gffg.Proto.Wire.{encode_varint, sov}
use gffg.Proto.Wire.Laws.{length-encode}
use gffg.Proto.Fields.{
  encode_int, encode_bytes, encode_entry, encode_headers, encode_packet, int_size, headers_size,
  packet_size,
}
use gffg.Proto.Fields.Reading.{length-encode_bytes}

pub to_uint64_lt : (n : ℤ) → to_uint64 n < 2 ^ 64
unfolding to_uint64
to_uint64_lt (pos n) = omega arith
to_uint64_lt (negsuc n) = omega arith

pub length-int : (tag : ℕ) (n : ℤ) → length (encode_int tag n) ≡ int_size n
length-int tag n = elim (Bool-cases (eq_ℤ n (pos 0))) [
  | inl e ↦ rw e refl
  | inr e ↦ rw e (omega (arith, length-encode (to_uint64 n) (to_uint64_lt n)))
]

length_entry :
    (k v : Text)
    → length k < 2 ^ 63
    → length v < 2 ^ 63
    → length (encode_entry k v) ≡ 1 + length k + sov (length k) + 1 + length v + sov (length v)
length_entry k v hk hv = omega (
  arith,
  length-encode_bytes 10 k (encode_bytes 18 v),
  length-append (encode_varint (length v)) v,
  length-encode (length k) (omega (arith, hk)),
  length-encode (length v) (omega (arith, hv)),
)

pub length-headers :
    (tag : ℕ) (h : Headers)
    → length (encode_headers tag h) < 2 ^ 63
    → length (encode_headers tag h) ≡ headers_size h
length-headers tag [] e = refl
length-headers tag ((k, v) ∷ h) e =
    let whole = length-encode_bytes tag (encode_entry k v) (encode_headers tag h) in
    let inner = length-encode_bytes 10 k (encode_bytes 18 v) in
    let last = length-append (encode_varint (length v)) v in
    let entry =
      length_entry k v (omega (arith, e, whole, inner, last))
        (omega (arith, e, whole, inner, last)) in
    omega (
      arith,
      whole,
      entry,
      length-encode (length (encode_entry k v)) (omega (arith, e, whole)),
      ap sov entry,
      length-headers tag h (omega (arith, e, whole)),
    )

pub length-packet :
    (s : Text) → length (encode_packet s) < 2 ^ 63 → length (encode_packet s) ≡ packet_size s
length-packet [] e = refl
length-packet (b ∷ s) e = omega (
  arith,
  length-append (encode_varint (length (b ∷ s))) (b ∷ s),
  length-encode (length (b ∷ s))
      (omega (arith, e, length-append (encode_varint (length (b ∷ s))) (b ∷ s))),
)
