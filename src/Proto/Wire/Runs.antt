-- ===== src/Proto/Wire/Runs.antt =====
-- Varints at the borders.
use gffg.Prelude.{◌≡◌, refl, [], ◌∷◌}
use gffg.Proto.Wire.{encode_varint, sov, read_varint, err, int_overflow, unexpected_eof}

encode_300 : encode_varint 300 ≡ 172 ∷ 2 ∷ []
unfolding encode_varint
encode_300 = refl

room_of_largest : sov 0xffffffffffffffff ≡ 10
unfolding sov
room_of_largest = refl

cut_off : read_varint 0 0 (172 ∷ []) ≡ err unexpected_eof
unfolding read_varint
cut_off = refl

eleven_bytes :
    read_varint 0 0 (128 ∷ 128 ∷ 128 ∷ 128 ∷ 128 ∷ 128 ∷ 128 ∷ 128 ∷ 128 ∷ 128 ∷ 1 ∷ [])
    ≡ err int_overflow
unfolding read_varint
eleven_bytes = refl
