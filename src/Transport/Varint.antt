-- ===== src/Transport/Varint.antt =====
-- The parts of Go's encoding/binary that transport/header.go calls: `PutVarint` and `Varint`.
-- A byte slice is a list of numbers below 256. Writing past the end of a slice panics: `none`.
use gffg.Prelude.{
  ℕ, zero, suc, ◌+◌, ◌*◌, ◌/◌, ◌%◌, ◌^◌, ◌≤◌, ◌<◌, ◌≡◌, ◌≢◌, refl, ap, Option, none, some, List, [],
  ◌∷◌, arith, ltb, ◌==◌, if◌then◌else◌, length, ◌&&◌, Bool-cases, inl, inr,
}
use gffg.Prelude.Int.{ℤ, pos, negsuc, IsInt64}
use native.Mathlib.Nat.{div-add-mod, pow-suc}
use native.Mathlib.Numerals.{towards_suc}

-- `ux := uint64(x) << 1; if x < 0 { ux = ^ux }`
abbrev pub zigzag : ℤ → ℕ
zigzag (pos n) = 2 * n % 2 ^ 64
zigzag (negsuc n) = 2 * n % 2 ^ 64 + 1

-- `x := int64(ux >> 1); if ux&1 != 0 { x = ^x }`
abbrev pub unzigzag : ℕ → ℤ
unzigzag u = if u % 2 == 0 then pos (u / 2) else negsuc (u / 2)

abbrev prepend : ℕ → Option (List ℕ) → Option (List ℕ)
prepend b none = none
prepend b (some bytes) = some (b ∷ bytes)

-- `for x >= 0x80 { buf[i] = byte(x) | 0x80; x >>= 7; i++ }; buf[i] = byte(x)`, on the slots of the
-- buffer from `i` on. The slots behind the last byte written keep what they held.
pub put_uvarint : List ℕ → ℕ → Option (List ℕ)
put_uvarint [] x = none
put_uvarint (b ∷ buf) x =
    if ltb x 128 then some (x ∷ buf) else prepend (x % 128 + 128) (put_uvarint buf (x / 128))

unfoldable pub put_varint : List ℕ → ℤ → Option (List ℕ)
unfolding put_uvarint
put_varint buf x = put_uvarint buf (zigzag x)

-- The loop of `Uvarint` over the bytes not yet read: `x` and `s` are its variables, `i` its index.
-- The groups of seven bits do not overlap, so `|` is a sum.
pub uvarint_loop : List ℕ → ℕ → ℕ → ℕ → ℕ × ℤ
uvarint_loop [] x s i = (0, pos 0)
uvarint_loop (b ∷ buf) x s i =
    let more = uvarint_loop buf (x + b % 128 * 2 ^ s) (s + 7) (i + 1) in
    if i == 10
    then (0, negsuc i)
    else if ltb b 128
    then (if (i == 9) && ltb 1 b then (0, negsuc i) else (x + b * 2 ^ s, pos (i + 1)))
    else more

unfoldable pub varint : List ℕ → ℤ × ℤ
unfolding uvarint_loop
varint buf = let r = uvarint_loop buf 0 0 0 in (unzigzag r.0, r.1)

pub unzigzag-zigzag : (x : ℤ) → IsInt64 x → unzigzag (zigzag x) ≡ x
unzigzag-zigzag (pos n) h = ground arith
unzigzag-zigzag (negsuc n) h = ground arith

-- The slots are enough for a number that has at most seven bits for each.
pub put_uvarint_fits :
    (buf : List ℕ) (x : ℕ)
    → 0 < length buf
    → x < 128 ^ length buf
    → (out : List ℕ) × (put_uvarint buf x ≡ some out) × (length out ≡ length buf)
unfolding put_uvarint
put_uvarint_fits [] x h k = absurd (omega arith)
put_uvarint_fits (b ∷ []) x h k = (x ∷ [], ground arith, refl)
put_uvarint_fits (b ∷ c ∷ buf) x h k = elim (Bool-cases (ltb x 128)) [
  | inl small ↦ (x ∷ c ∷ buf, rw small refl, refl)
  | inr big ↦
      let (out, e, l) =
        put_uvarint_fits (c ∷ buf) (x / 128) (omega arith) (shrink x (length buf) k) in
      ((x % 128 + 128) ∷ out, rw (big, e) refl, ap suc l)
]
  where
    shrink : (x n : ℕ) → x < 128 ^ suc (suc n) → x / 128 < 128 ^ suc n
    shrink x n h = omega (arith, pow-suc 128 (suc n))

pow_pos : (n : ℕ) → 0 < 128 ^ n
pow_pos zero = omega arith
pow_pos (suc n) = omega (arith, pow-suc 128 n, pow_pos n)

pub put_uvarint_overflows : (buf : List ℕ) (x : ℕ) → 128 ^ length buf ≤ x → put_uvarint buf x ≡ none
unfolding put_uvarint
put_uvarint_overflows [] x k = refl
put_uvarint_overflows (b ∷ buf) x k =
    ground
      (arith, put_uvarint_overflows buf (x / 128), pow-suc 128 (length buf), pow_pos (length buf))

seven_more : (s : ℕ) → 2 ^ (s + 7) ≡ 2 ^ s * 128
seven_more s = simp towards_suc (omega arith)

-- The lowest seven bits of `v` at bit `s`, and the others at bit `s + 7`, are `v` at bit `s`.
groups : (v s : ℕ) → v % 128 * 2 ^ s + v / 128 * 2 ^ (s + 7) ≡ v * 2 ^ s
groups v s = rw seven_more (omega (arith, ap (λ (k : ℕ). k * 2 ^ s) (div-add-mod v 128)))

-- Reading back what was written, with `x` read so far: the rest of the buffer does not matter.
pub uvarint_loop-put_uvarint :
    (buf : List ℕ) (v x s i : ℕ) (out : List ℕ)
    → put_uvarint buf v ≡ some out
    → length buf + i ≤ 9
    → ((uvarint_loop out x s i).0 ≡ x + v * 2 ^ s) × ((uvarint_loop out x s i).1 ≢ pos 0)
unfolding put_uvarint uvarint_loop
uvarint_loop-put_uvarint [] v x s i out e h = cc
uvarint_loop-put_uvarint (b ∷ buf) v x s i [] e h = ground arith
uvarint_loop-put_uvarint (b ∷ buf) v x s i (o ∷ out) e h = ground (
  arith,
  groups v s,
  uvarint_loop-put_uvarint buf (v / 128) (x + v % 128 * 2 ^ s) (s + 7) (i + 1) out,
)
