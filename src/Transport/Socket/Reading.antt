-- ===== src/Transport/Socket/Reading.antt =====
-- What a read of a given number of bytes returns depends on the bytes of the stream alone.
use gffg.Prelude.{
  ℕ, zero, suc, ◌-◌, ◌<◌, ◌≡◌, refl, sym, ap, ◌∙◌, none, some, List, [], ◌∷◌, ◌++◌, arith, inl, inr,
  length, take, drop, leb, Bool-cases, length-append, length-take_le, take-append-drop,
  append_injective, leb→le, leb→lt,
}
use gffg.Transport.Socket.{Conn, read_loop, flat}
use mathlib.Core.List.{append_assoc}

-- Either the stream has the bytes, and they are returned, or it ends before.
pub data Fill (n : ℕ) (conn : Conn) : Type 0 where
  full :
      (bytes : List ℕ) (conn' : Conn)
      → length bytes ≡ n
      → flat conn ≡ bytes ++ flat conn'
      → read_loop n conn ≡ some (bytes, conn')
      → Fill n conn
  short : length (flat conn) < n → read_loop n conn ≡ none → Fill n conn

pub read_loop_cases : (n : ℕ) (conn : Conn) → Fill n conn
unfolding read_loop
read_loop_cases zero conn = full [] conn refl refl refl
read_loop_cases (suc n) [] = short (omega arith) refl
read_loop_cases (suc n) (segment ∷ conn) = elim (Bool-cases (leb (length segment) (suc n))) [
  | inl all ↦ elim (read_loop_cases (suc n - length segment) conn) [
    | full bytes conn' l e r ↦
        full (segment ++ bytes) conn' (omega (arith, length-append segment bytes, leb→le _ _ all))
          (rw e (sym (append_assoc segment bytes _))) (rw (all, r) refl)
    | short l r ↦
        short (omega (arith, length-append segment (flat conn), leb→le _ _ all)) (rw (all, r) refl)
  ]
  | inr part ↦
      full (take (suc n) segment) (drop (suc n) segment ∷ conn)
        (length-take_le (suc n) segment (omega (arith, leb→lt _ _ part)))
        (ap (λ xs. xs ++ flat conn) (sym (take-append-drop (suc n) segment))
          ∙ append_assoc _ _ (flat conn))
        (rw part refl)
]

-- Two streams of the same bytes give the same bytes, and are left as streams of the same bytes.
pub data SameFill (n : ℕ) (c d : Conn) : Type 0 where
  both :
      (bytes : List ℕ) (c' d' : Conn)
      → flat c' ≡ flat d'
      → length bytes ≡ n
      → flat c ≡ bytes ++ flat c'
      → read_loop n c ≡ some (bytes, c')
      → read_loop n d ≡ some (bytes, d')
      → SameFill n c d
  neither : read_loop n c ≡ none → read_loop n d ≡ none → SameFill n c d

pub read_loop-SameFill : (n : ℕ) (c d : Conn) → flat c ≡ flat d → SameFill n c d
read_loop-SameFill n c d e = go (read_loop_cases n c) (read_loop_cases n d)
  where
    go : Fill n c → Fill n d → SameFill n c d
    go (full xs c' lc ec rc) (full ys d' ld ed rd) =
        let same = append_injective xs ys (flat c') (flat d') (lc ∙ sym ld) (sym ec ∙ e ∙ ed) in
        both xs c' d' same.1 lc ec rc (rd ∙ ap (λ zs. some (zs, d')) (sym same.0))
    go (full xs c' lc ec rc) (short l r) =
        absurd (omega (arith, ap length (sym ec ∙ e), length-append xs (flat c')))
    go (short l r) (full ys d' ld ed rd) =
        absurd (omega (arith, ap length (e ∙ ed), length-append ys (flat d')))
    go (short l r) (short l' r') = neither r r'
