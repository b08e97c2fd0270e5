-- ===== src/Proto/Packet/Runs.antt =====
-- A request on the wire.
use gffg.Prelude.{◌≡◌, refl, [], ◌∷◌, length, arith, ◌<◌, ◌^◌}
use gffg.Prelude.Int.{pos, negsuc, to_int64, to_uint64}
use gffg.Prelude.Text.{codes}
use gffg.Proto.{Request}
use gffg.Proto.Wire.{encode_varint, read_varint, ok, panics}
use gffg.Proto.Fields.{entry_loop}
use gffg.Proto.Packet.{marshal, unmarshal, size}
use gffg.Proto.Packet.RoundTrip.{unmarshal-marshal}

abbrev request : Request
request = record {
  sid = pos 300;
  rpc_id = negsuc 0;
  headers = (codes "k", codes "v") ∷ [];
  packet = 1 ∷ [];
}

read_back : unmarshal (marshal request) ≡ ok request
unfolding unmarshal marshal encode_varint read_varint entry_loop to_int64 to_uint64
read_back = refl

fits : length (marshal request) < 2 ^ 63
unfolding marshal encode_varint to_uint64
fits = omega arith

unmarshal-marshal_example :
    (unmarshal (marshal request) ≡ ok request) × (length (marshal request) ≡ size request)
unmarshal-marshal_example = unmarshal-marshal request (record {
  sid_fits = omega arith;
  rpc_id_fits = omega arith;
  headers_map = refl;
  length_fits = fits;
})

-- An unknown field of a map's entry that says it is 2 ^ 63 - 12 bytes long: the sum of the index and of
-- what is skipped is negative, and the next byte is read there.
skip_overflows :
    unmarshal (26 ∷ 11 ∷ 26 ∷ 244 ∷ 255 ∷ 255 ∷ 255 ∷ 255 ∷ 255 ∷ 255 ∷ 255 ∷ 127 ∷ 0 ∷ []) ≡ panics
unfolding unmarshal read_varint entry_loop
skip_overflows = refl
