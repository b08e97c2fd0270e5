-- ===== src/Transport/Header.antt =====
-- transport/header.go: the eight bytes in front of every packet, Sign | Size.
pub mod Laws
use gffg.Prelude.{
  ℕ, zero, suc, Option, none, some, List, [], ◌∷◌, ◌++◌, if◌then◌else◌, Bool, true, false,
}
use gffg.Prelude.Int.{ℤ, pos, eq_ℤ}
use gffg.Transport.Varint.{put_varint, varint}

-- A `[4]byte`.
pub record Quad : Type 0 where
  pub b0 : ℕ
  pub b1 : ℕ
  pub b2 : ℕ
  pub b3 : ℕ

pub record Header : Type 0 where
  pub sign : Quad
  pub size : ℤ

abbrev pub bytes : Quad → List ℕ
bytes q = q.b0 ∷ q.b1 ∷ q.b2 ∷ q.b3 ∷ []

-- The signature is a permutation of the four size bytes; `binary.Write` puts S1, then S2.
abbrev pub sign_then_size : List ℕ → List ℕ
sign_then_size (a ∷ b ∷ c ∷ d ∷ []) = b ∷ d ∷ c ∷ a ∷ a ∷ b ∷ c ∷ d ∷ []
sign_then_size s2 = []

-- `Header.Encoder`. `none` is the index panic of `PutVarint` on the four-byte buffer: the error
-- result is never set, since writing to a `bytes.Buffer` does not fail.
unfoldable pub encoder : ℤ → Option (List ℕ)
unfolding put_varint
encoder size = elim (put_varint (0 ∷ 0 ∷ 0 ∷ 0 ∷ []) size) [
  | none ↦ none
  | some s2 ↦ some (sign_then_size s2)
]

pub data DecodeError : Type 0 where
  short_read : DecodeError
  header2_fail : DecodeError

pub data Decoded : Type 0 where
  ok : Header → Decoded
  err : DecodeError → Decoded

-- `h.Size, n = binary.Varint(msg.S2[:])`, and the test of `n`.
abbrev pub with_size : Quad → ℤ × ℤ → Decoded
with_size s1 (size, n) =
    if eq_ℤ (pos 0) n then err header2_fail else ok (record { sign = s1; size = size })

-- `Header.Decoder`: `binary.Read` takes the first eight bytes, and fails on fewer.
unfoldable pub decoder : List ℕ → Decoded
unfolding varint
decoder (a ∷ b ∷ c ∷ d ∷ e ∷ f ∷ g ∷ h ∷ rest) =
    with_size (record { b0 = a; b1 = b; b2 = c; b3 = d }) (varint (e ∷ f ∷ g ∷ h ∷ []))
decoder buf = err short_read

-- `Header.Check`: true when the result is nil.
unfoldable pub check : Header → Bool
unfolding varint
check h = let sign = h.sign in eq_ℤ (varint (sign.b3 ∷ sign.b0 ∷ sign.b2 ∷ sign.b1 ∷ [])).0 h.size
