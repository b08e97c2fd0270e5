-- ===== src/Prelude/Int.antt =====
-- Go's int64 and int as integers over the native numbers. `negsuc n` is -(n + 1).
use Prim.Native.Nat.{ℕ, zero, suc, ◌-◌, ◌%◌, ◌^◌, ◌<◌}
use mathlib.Core.Path.{◌≡◌, refl}
use mathlib.Core.Bool.{Bool, false}
use native.Mathlib.Omega.{arith}
use mathlib.Core.Logic.{inl, inr}
use gffg.Prelude.Tests.{ltb→lt, ltb→le, Bool-cases, ◌==◌, ltb, if◌then◌else◌}

pub data ℤ : Type 0 where
  pos : ℕ → ℤ
  negsuc : ℕ → ℤ

abbrev pub eq_ℤ : ℤ → ℤ → Bool
eq_ℤ (pos a) (pos b) = a == b
eq_ℤ (negsuc a) (negsuc b) = a == b
eq_ℤ (pos a) (negsuc b) = false
eq_ℤ (negsuc a) (pos b) = false

-- The number as an unsigned count: Go's loops `for n < size` run no round when `size` is negative.
abbrev pub pos_part : ℤ → ℕ
pos_part (pos n) = n
pos_part (negsuc n) = 0

-- The range of Go's int64.
abbrev pub IsInt64 : ℤ → Type 0
IsInt64 (pos n) = n < 2 ^ 63
IsInt64 (negsuc n) = n < 2 ^ 63

-- The conversion `uint64(x)` of an int64, and `int64(x)` of a uint64.
unfoldable pub to_uint64 : ℤ → ℕ
to_uint64 (pos n) = n % 2 ^ 64
to_uint64 (negsuc n) = 2 ^ 64 - 1 - n % 2 ^ 64

unfoldable pub to_int64 : ℕ → ℤ
to_int64 n =
    if ltb (n % 2 ^ 64) (2 ^ 63) then pos (n % 2 ^ 64) else negsuc (2 ^ 64 - 1 - n % 2 ^ 64)

pub to_uint64-to_int64 : (n : ℕ) → n < 2 ^ 64 → to_uint64 (to_int64 n) ≡ n
unfolding to_uint64 to_int64
to_uint64-to_int64 n h = ground arith

pub to_int64-to_uint64 : (x : ℤ) → IsInt64 x → to_int64 (to_uint64 x) ≡ x
unfolding to_uint64 to_int64
to_int64-to_uint64 (pos n) h = ground arith
to_int64-to_uint64 (negsuc n) h = ground arith

pub to_int64-IsInt64 : (n : ℕ) → IsInt64 (to_int64 n)
unfolding to_int64
to_int64-IsInt64 n = elim (Bool-cases (ltb (n % 2 ^ 64) (2 ^ 63))) [
  | inl small ↦ rw small (ltb→lt _ _ small)
  | inr big ↦ rw big (omega (arith, ltb→le _ _ big))
]

-- The range of Go's int32, and `int32(x)` of a uint64.
abbrev pub IsInt32 : ℤ → Type 0
IsInt32 (pos n) = n < 2 ^ 31
IsInt32 (negsuc n) = n < 2 ^ 31

unfoldable pub to_int32 : ℕ → ℤ
to_int32 n =
    if ltb (n % 2 ^ 32) (2 ^ 31) then pos (n % 2 ^ 32) else negsuc (2 ^ 32 - 1 - n % 2 ^ 32)

pub to_int32-to_uint64 : (x : ℤ) → IsInt32 x → to_int32 (to_uint64 x) ≡ x
unfolding to_uint64 to_int32
to_int32-to_uint64 (pos n) h = ground arith
to_int32-to_uint64 (negsuc n) h = ground arith

-- `atomic.AddInt64(&x, 1)` and `atomic.AddInt64(&x, -1)`, with the wrap-around at the two ends.
unfoldable pub inc : ℤ → ℤ
inc (pos n) = if n == 2 ^ 63 - 1 then negsuc (2 ^ 63 - 1) else pos (suc n)
inc (negsuc zero) = pos 0
inc (negsuc (suc n)) = negsuc n

unfoldable pub dec : ℤ → ℤ
dec (pos zero) = negsuc 0
dec (pos (suc n)) = pos n
dec (negsuc n) = if n == 2 ^ 63 - 1 then pos (2 ^ 63 - 1) else negsuc (suc n)

pub dec-inc : (x : ℤ) → IsInt64 x → dec (inc x) ≡ x
unfolding inc dec
dec-inc (pos n) h = ground arith
dec-inc (negsuc zero) h = refl
dec-inc (negsuc (suc n)) h = ground arith
