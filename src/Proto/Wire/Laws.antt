-- ===== src/Proto/Wire/Laws.antt =====
-- Varints written and read, and the room that sovPacket reckons for them.
use gffg.Prelude.{
  ℕ, zero, suc, ◌+◌, ◌*◌, ◌/◌, ◌%◌, ◌^◌, ◌≤◌, ◌<◌, ◌≡◌, refl, sym, ap, ◌∙◌, arith, List, ◌∷◌, ◌++◌,
  length, Bool-cases, inl, inr, leb, leb→le, leb→lt,
}
use native.Mathlib.Nat.{div-add-mod, pow-suc}
use native.Mathlib.Numerals.{towards_suc}
use gffg.Proto.Wire.{Read, ok, varint_loop, encode_varint, len64_loop, odd, sov, read_varint}

seven_more : (s : ℕ) → 2 ^ (s + 7) ≡ 128 * 2 ^ s
seven_more s = simp towards_suc (omega arith)

-- The lowest group of `v` at bit `s` and the others at bit `s + 7`.
groups : (v s : ℕ) → v * 2 ^ s ≡ v % 128 * 2 ^ s + v / 128 * 2 ^ (s + 7)
groups v s = omega (
  arith,
  ap (λ (t : ℕ). t * 2 ^ s) (div-add-mod v 128),
  ap (λ (t : ℕ). v / 128 * t) (seven_more s),
)

same_read :
    (a b : ℕ) (rest : List ℕ) → a ≡ b → Path (Read (ℕ × List ℕ)) (ok (a, rest)) (ok (b, rest))
same_read a b rest e = ap (λ (x : ℕ). ok (x, rest)) e

-- The last byte, and one before it.
read_last :
    (v wire s : ℕ) (rest : List ℕ)
    → v < 128
    → s < 64
    → wire + v * 2 ^ s < 2 ^ 64
    → read_varint s wire (v ∷ rest) ≡ ok (wire + v * 2 ^ s, rest)
unfolding read_varint
read_last v wire s rest small h fits = ground (arith, low v small)
  where
    low : (v : ℕ) → v < 128 → v % 128 ≡ v
    low v h = omega arith

pub read_byte : (v : ℕ) (rest : List ℕ) → v < 128 → read_varint 0 0 (v ∷ rest) ≡ ok (v, rest)
read_byte v rest h =
    read_last v 0 0 rest h (omega arith) (omega (arith, h))
    ∙ same_read (0 + v * 2 ^ 0) v rest (omega arith)

read_group :
    (g wire s : ℕ) (rest : List ℕ)
    → g < 128
    → s < 64
    → wire + g * 2 ^ s < 2 ^ 64
    → read_varint s wire ((g + 128) ∷ rest) ≡ read_varint (s + 7) (wire + g * 2 ^ s) rest
unfolding read_varint
read_group g wire s rest small h fits = ground (arith, low g small)
  where
    low : (g : ℕ) → g < 128 → (g + 128) % 128 ≡ g
    low g h = omega arith

read-loop :
    (k v wire s : ℕ) (rest : List ℕ)
    → v < 128 ^ suc k
    → s + 7 * k ≤ 63
    → wire + v * 2 ^ s < 2 ^ 64
    → read_varint s wire (varint_loop k v ++ rest) ≡ ok (wire + v * 2 ^ s, rest)
read-loop zero v wire s rest h k fits =
    read_last v wire s rest (omega (arith, h)) (omega arith) fits
read-loop (suc n) v wire s rest h k fits = elim (Bool-cases (leb 128 v)) [
  | inl big ↦ rw big (
      read_group (v % 128) wire s (varint_loop n (v / 128) ++ rest) (omega arith) (omega arith)
        (omega (arith, groups v s, fits))
      ∙ read-loop n (v / 128) (wire + v % 128 * 2 ^ s) (s + 7) rest
          (omega (arith, h, pow-suc 128 (suc n))) (omega (arith, k))
          (omega (arith, groups v s, fits))
      ∙ same_read (wire + v % 128 * 2 ^ s + v / 128 * 2 ^ (s + 7)) (wire + v * 2 ^ s) rest
          (omega (arith, groups v s)))
  | inr small ↦ rw small (read_last v wire s rest (ground (arith, small)) (omega arith) fits)
]

pub read-encode :
    (v : ℕ) (rest : List ℕ) → v < 2 ^ 64 → read_varint 0 0 (encode_varint v ++ rest) ≡ ok (v, rest)
unfolding encode_varint
read-encode v rest h =
    read-loop 9 v 0 0 rest (omega (arith, h)) (omega arith) (omega (arith, h))
    ∙ same_read (0 + v * 2 ^ 0) v rest (omega arith)

len64_le : (m n x : ℕ) → x < 2 ^ n → len64_loop m x ≤ n
len64_le zero n x h = omega arith
len64_le (suc m) zero x h = ground (arith, h)
len64_le (suc m) (suc n) x h = ground (arith, len64_le m n (x / 2), pow-suc 2 n, h)

len64_pos : (m x : ℕ) → 0 < x → 0 < len64_loop (suc m) x
len64_pos m x h = ground arith

-- Halving one number more.
len64_half : (m x : ℕ) → 0 < x → len64_loop (suc m) x ≡ suc (len64_loop m (x / 2))
len64_half m x h = ground arith

len64_odd : (m x : ℕ) → 0 < x → len64_loop m (odd x) ≡ len64_loop m x
len64_odd zero x h = refl
len64_odd (suc m) x h =
    len64_half m (odd x) (omega arith)
    ∙ ap (λ (y : ℕ). suc (len64_loop m y)) (omega arith)
    ∙ sym (len64_half m x h)

abbrev room : ℕ → ℕ
room zero = 1
room (suc k) = suc (suc (suc (suc (suc (suc (suc (room k)))))))

len64_group :
    (m x : ℕ)
    → 128 ≤ x
    → len64_loop (suc (suc (suc (suc (suc (suc (suc m))))))) x ≡ 7 + len64_loop m (x / 128)
len64_group m x h = omega (
  arith,
  len64_half (suc (suc (suc (suc (suc (suc m)))))) x (omega arith),
  len64_half (suc (suc (suc (suc (suc m))))) (x / 2) (omega arith),
  len64_half (suc (suc (suc (suc m)))) (x / 2 / 2) (omega arith),
  len64_half (suc (suc (suc m))) (x / 2 / 2 / 2) (omega arith),
  len64_half (suc (suc m)) (x / 2 / 2 / 2 / 2) (omega arith),
  len64_half (suc m) (x / 2 / 2 / 2 / 2 / 2) (omega arith),
  len64_half m (x / 2 / 2 / 2 / 2 / 2 / 2) (omega arith),
  ap (len64_loop m) (halves x),
)
  where
    halves : (x : ℕ) → x / 2 / 2 / 2 / 2 / 2 / 2 / 2 ≡ x / 128
    halves x = omega arith

sov_small : (m v : ℕ) → v < 128 → 1 ≡ (len64_loop (suc m) (odd v) + 6) / 7
sov_small m v h =
    omega (arith, len64_le (suc m) 7 (odd v) (omega arith), len64_pos m (odd v) (omega arith))

length-loop :
    (k v : ℕ) → v < 128 ^ k * 2 → length (varint_loop k v) ≡ (len64_loop (room k) (odd v) + 6) / 7
length-loop zero v h = sov_small 0 v (omega (arith, h))
length-loop (suc k) v h = elim (Bool-cases (leb 128 v)) [
  | inl big ↦ rw big (
      omega (
        arith,
        length-loop k (v / 128) (omega (arith, h, pow-suc 128 k)),
        len64_group (room k) (odd v) (omega (arith, leb→le _ _ big)),
        ap (len64_loop (room k)) (odd_group v),
        len64_odd (room k) (v / 128) (omega (arith, leb→le _ _ big)),
      ))
  | inr small ↦
      rw small (sov_small (suc (suc (suc (suc (suc (suc (room k))))))) v (leb→lt _ _ small))
]
  where
    odd_group : (v : ℕ) → odd v / 128 ≡ v / 128
    odd_group v = omega arith

pub length-encode : (v : ℕ) → v < 2 ^ 64 → length (encode_varint v) ≡ sov v
unfolding encode_varint sov
length-encode v h = length-loop 9 v (omega (arith, h))
