-- ===== src/Proto/Reply/Runs.antt =====
-- A response on the wire.
use gffg.Prelude.{◌≡◌, ◌<◌, ◌^◌, refl, arith, [], ◌∷◌, length}
use gffg.Prelude.Int.{pos, to_int32, to_uint64}
use gffg.Prelude.Text.{codes}
use gffg.Proto.{Response}
use gffg.Proto.Wire.{encode_varint, read_varint, ok}
use gffg.Proto.Fields.{entry_loop}
use gffg.Proto.Reply.{marshal, unmarshal, size}
use gffg.Proto.Reply.RoundTrip.{unmarshal-marshal_response}

abbrev response : Response
response = record {
  sid = pos 300;
  headers = (codes "k", codes "v") ∷ [];
  code = pos 505;
  packet = [];
}

-- The code is cut to 32 bits.
code_cut :
    unmarshal (24 ∷ 128 ∷ 128 ∷ 128 ∷ 128 ∷ 16 ∷ [])
    ≡ ok (record { sid = pos 0; headers = []; code = pos 0; packet = [] })
unfolding unmarshal read_varint entry_loop to_int32
code_cut = refl

fits : length (marshal response) < 2 ^ 63
unfolding marshal encode_varint to_uint64
fits = omega arith

unmarshal-marshal_response_example :
    (unmarshal (marshal response) ≡ ok response) × (length (marshal response) ≡ size response)
unmarshal-marshal_response_example = unmarshal-marshal_response response (record {
  sid_fits = omega arith;
  code_fits = omega arith;
  headers_map = refl;
  length_fits = fits;
})
