-- ===== src/Prelude/Decimal.antt =====
-- strconv's ParseInt and Atoi in base ten on 64 bits, and the print of an integer by `%d` and Itoa.
use gffg.Prelude.Tests.{◌==◌, ltb, if◌then◌else◌, Bool-cases, ltb→lt, ltb→le, lt→ltb}
use Prim.Native.Nat.{ℕ, zero, suc, ◌+◌, ◌-◌, ◌*◌, ◌/◌, ◌%◌, ◌^◌, ◌≤◌, ◌<◌}
use mathlib.Core.Path.{◌≡◌, refl, sym, ap, ◌∙◌, subst}
use mathlib.Core.Logic.{inl, inr}
use mathlib.Core.Bool.{Bool, true, false, ◌||◌}
use mathlib.Core.List.{[], ◌∷◌, ◌++◌, append_assoc, append-nil}
use native.Mathlib.Omega.{arith}
use gffg.Prelude.Int.{ℤ, pos, negsuc, IsInt64}
use gffg.Prelude.Text.{Text}

-- The loop of ParseUint: the number, or the first error that it meets.
pub data Scan : Type 0 where
  scanned : ℕ → Scan
  bad_syntax : Scan
  too_large : Scan

pub scan : Text → ℕ → Scan
scan [] n = scanned n
scan (c ∷ s) n =
    let rest = scan s (n * 10 + (c - 48)) in
    if ltb c 48 || ltb 57 c
    then bad_syntax
    else if ltb (n * 10 + (c - 48)) (2 ^ 64)
    then rest
    else too_large

pub parse_uint : Text → Scan
unfolding scan
parse_uint [] = bad_syntax
parse_uint (c ∷ s) = scan (c ∷ s) 0

-- The value that ParseInt returns, also with an error, and whether there is none.
pub record Parsed : Type 0 where
  pub value : ℤ
  pub ok : Bool

abbrev minus : ℕ → ℤ
minus zero = pos 0
minus (suc n) = negsuc n

abbrev in_range : Scan → Parsed
in_range (scanned n) =
    if ltb n (2 ^ 63)
    then record { value = pos n; ok = true }
    else record { value = pos (2 ^ 63 - 1); ok = false }
in_range bad_syntax = record { value = pos 0; ok = false }
in_range too_large = record { value = pos (2 ^ 63 - 1); ok = false }

abbrev in_range_minus : Scan → Parsed
in_range_minus (scanned n) =
    if ltb (2 ^ 63) n
    then record { value = negsuc (2 ^ 63 - 1); ok = false }
    else record { value = minus n; ok = true }
in_range_minus bad_syntax = record { value = pos 0; ok = false }
in_range_minus too_large = record { value = negsuc (2 ^ 63 - 1); ok = false }

unfoldable pub parse_int : Text → Parsed
unfolding parse_uint
parse_int [] = record { value = pos 0; ok = false }
parse_int (c ∷ s) =
    if c == 43
    then in_range (parse_uint s)
    else if c == 45
    then in_range_minus (parse_uint s)
    else in_range (parse_uint (c ∷ s))

-- The digits of `n`, on fuel above `n`.
pub digits : ℕ → ℕ → Text
digits zero n = []
digits (suc fuel) n =
    let rest = digits fuel (n / 10) ++ (48 + n % 10) ∷ [] in
    if ltb n 10 then (48 + n) ∷ [] else rest

unfoldable pub format_nat : ℕ → Text
unfolding digits
format_nat n = digits (suc n) n

unfoldable pub format_int : ℤ → Text
unfolding format_nat
format_int (pos n) = format_nat n
format_int (negsuc n) = 45 ∷ format_nat (suc n)

-- Digits throughout.
abbrev pub IsDigits : Text → Type 0
IsDigits [] = Unit
IsDigits (c ∷ s) = (48 ≤ c) × (c ≤ 57) × IsDigits s

IsDigits-append : (s t : Text) → IsDigits s → IsDigits t → IsDigits (s ++ t)
IsDigits-append [] t hs ht = ht
IsDigits-append (c ∷ s) t (lo, hi, hs) ht = (lo, hi, IsDigits-append s t hs ht)

digits-IsDigits : (fuel n : ℕ) → IsDigits (digits fuel n)
unfolding digits
digits-IsDigits zero n = tt
digits-IsDigits (suc fuel) n = elim (Bool-cases (ltb n 10)) [
  | inl last ↦ rw last (omega arith, omega (arith, ltb→lt n 10 last), tt)
  | inr more ↦ rw more (
      IsDigits-append (digits fuel (n / 10)) _ (digits-IsDigits fuel (n / 10))
        (omega arith, omega arith, tt))
]

pub format_nat-IsDigits : (n : ℕ) → IsDigits (format_nat n)
unfolding format_nat
format_nat-IsDigits n = digits-IsDigits (suc n) n

-- Reading the last digit behind the number before it.
scan_last : (n : ℕ) (s : Text) → n < 2 ^ 64 → scan ((48 + n % 10) ∷ s) (n / 10) ≡ scan s n
unfolding scan
scan_last n s h = ground arith

scan-digits :
    (fuel n : ℕ) (s : Text) → n < fuel → n < 2 ^ 64 → scan (digits fuel n ++ s) 0 ≡ scan s n
unfolding digits
scan-digits zero n s enough h = elim enough [ ]
scan-digits (suc fuel) n s enough h = elim (Bool-cases (ltb n 10)) [
  | inl last ↦ rw last (one_digit n (ltb→lt n 10 last))
  | inr more ↦
      rw (more, append_assoc (digits fuel (n / 10)) ((48 + n % 10) ∷ []) s)
        (scan-digits fuel (n / 10) ((48 + n % 10) ∷ s) (omega (arith, ltb→le n 10 more))
            (omega arith)
          ∙ scan_last n s h)
]
  where
    one_digit : (n : ℕ) → n < 10 → scan ((48 + n) ∷ s) 0 ≡ scan s n
    one_digit n h = unfold scan in ground arith

format_nat-cons : (n : ℕ) → (c : ℕ) × (s : Text) × (format_nat n ≡ c ∷ s)
unfolding format_nat
format_nat-cons n = elim (Bool-cases (ltb n 10)) [
  | inl last ↦ (48 + n, [], rw last refl)
  | inr more ↦ rw more (snoc (digits n (n / 10)))
]
  where
    snoc : (s : Text) → (c : ℕ) × (t : Text) × (s ++ (48 + n % 10) ∷ [] ≡ c ∷ t)
    snoc [] = (48 + n % 10, [], refl)
    snoc (c ∷ s) = (c, s ++ (48 + n % 10) ∷ [], refl)

scan-format_nat : (n : ℕ) → n < 2 ^ 64 → scan (format_nat n) 0 ≡ scanned n
unfolding format_nat
scan-format_nat n h =
    ap (λ s. scan s 0) (sym (append-nil (digits (suc n) n)))
    ∙ scan-digits (suc n) n [] (omega arith) h
    ∙ unfold scan in refl

pub parse_uint-format_nat : (n : ℕ) → n < 2 ^ 64 → parse_uint (format_nat n) ≡ scanned n
unfolding parse_uint
parse_uint-format_nat n h =
    let (c, s, e) = format_nat-cons n in
    ap parse_uint e ∙ ap (λ t. scan t 0) (sym e) ∙ scan-format_nat n h

-- A text of digits has no sign.
parse_int_unsigned :
    (c : ℕ) (s : Text) → IsDigits (c ∷ s) → parse_int (c ∷ s) ≡ in_range (parse_uint (c ∷ s))
unfolding parse_int
parse_int_unsigned c s (lo, hi, h) = ground arith

-- Every int64 is read back from its decimal print.
pub parse_int-format_int :
    (z : ℤ) → IsInt64 z → parse_int (format_int z) ≡ record { value = z; ok = true }
unfolding format_int
parse_int-format_int (pos n) h =
    let (c, s, e) = format_nat-cons n in
    ap parse_int e
    ∙ parse_int_unsigned c s (subst IsDigits e (format_nat-IsDigits n))
    ∙ ap (λ t. in_range (parse_uint t)) (sym e)
    ∙ ap in_range (parse_uint-format_nat n (omega arith))
    ∙ rw (lt→ltb n (2 ^ 63) h) refl
parse_int-format_int (negsuc n) h =
    unfold parse_int in
    ap in_range_minus (parse_uint-format_nat (suc n) (omega arith)) ∙ ground arith
