-- ===== src/Proto/Wire.antt =====
-- The varints of proto/packet.pb.go: encodeVarintPacket, sovPacket, the loop that reads a varint in
-- every Unmarshal and in skipPacket, and skipPacket itself.
pub mod Laws
mod Runs
use gffg.Prelude.{
  ℕ, zero, suc, ◌+◌, ◌*◌, ◌/◌, ◌%◌, ◌^◌, ◌≡◌, List, [], ◌∷◌, ltb, leb, ◌==◌, if◌then◌else◌, ◌-◌,
  length,
}

-- The errors of the generated code.
pub data WireError : Type 0 where
  invalid_length : WireError
  int_overflow : WireError
  end_of_group : WireError
  unexpected_eof : WireError
  illegal_wire_type : WireError
  illegal_tag : WireError
  wrong_wire_type : WireError

pub data Read {ℓ} (A : Type ℓ) : Type ℓ where
  ok : A → Read A
  err : WireError → Read A
  panics : Read A

-- `for v >= 1<<7 { dAtA[offset] = uint8(v&0x7f | 0x80); v >>= 7; offset++ }; dAtA[offset] = uint8(v)`:
-- the bytes that it writes.
abbrev pub varint_loop : ℕ → ℕ → List ℕ
varint_loop zero v = v ∷ []
varint_loop (suc k) v = if leb 128 v then (v % 128 + 128) ∷ varint_loop k (v / 128) else v ∷ []

-- Nine rounds are enough for a uint64.
unfoldable pub encode_varint : ℕ → List ℕ
encode_varint v = varint_loop 9 v

-- `bits.Len64`, which counts the bits up to the highest that is set.
abbrev pub len64_loop : ℕ → ℕ → ℕ
len64_loop zero x = 0
len64_loop (suc k) x = if x == 0 then 0 else suc (len64_loop k (x / 2))

abbrev pub len64 : ℕ → ℕ
len64 x = len64_loop 64 x

-- `x | 1`
abbrev pub odd : ℕ → ℕ
odd x = x / 2 * 2 + 1

unfoldable pub sov : ℕ → ℕ
sov x = (len64 (odd x) + 6) / 7

-- The loop over `shift` with the number read so far, on the bytes from `iNdEx` on. The groups of
-- seven bits do not overlap, so `|=` is a sum; what is shifted past bit 63 is lost.
unfoldable pub read_varint : ℕ → ℕ → List ℕ → Read (ℕ × List ℕ)
read_varint shift wire [] = if leb 64 shift then err int_overflow else err unexpected_eof
read_varint shift wire (b ∷ bytes) =
    let value = wire + b % 128 * 2 ^ shift % 2 ^ 64 in
    let more = read_varint (shift + 7) value bytes in
    if leb 64 shift then err int_overflow else if ltb b 128 then ok (value, bytes) else more
