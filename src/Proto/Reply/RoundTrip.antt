-- ===== src/Proto/Reply/RoundTrip.antt =====
-- A response that is marshalled and read back.
use gffg.Prelude.{ℕ, ◌^◌, ◌<◌, ◌≡◌, refl, ap, ◌∙◌, arith, [], ◌++◌, length, length-append}
use gffg.Prelude.Int.{
  pos, IsInt64, IsInt32, to_int64, to_int32, to_int64-to_uint64, to_int32-to_uint64,
}
use mathlib.Core.Path.{subst}
use gffg.Proto.{Response}
use gffg.Proto.Wire.{ok}
use gffg.Proto.Fields.{encode_int, encode_headers, encode_packet, fields}
use gffg.Proto.Fields.Room.{length-int, length-headers, length-packet}
use gffg.Proto.Fields.Loop.{
  store_all, IsTag-1_0, IsTag-2_2, IsTag-3_0, encode_int-Reads, encode_headers-Reads, read_packet,
}
use gffg.Proto.Reply.{response_field, marshal, unmarshal, size}

-- What a value of the Go type is: an int64, a map without a key twice, an int32, and a length that
-- fits an int.
pub record IsReply (m : Response) : Type 0 where
  pub sid_fits : IsInt64 m.sid
  pub code_fits : IsInt32 m.code
  pub headers_map : store_all [] m.headers ≡ m.headers
  pub length_fits : length (marshal m) < 2 ^ 63

abbrev empty : Response
empty = record { sid = pos 0; headers = []; code = pos 0; packet = [] }

-- Marshalled and read back; the length is l.
read_all :
    (l : ℕ) (m : Response)
    → IsReply m
    → length (marshal m) ≡ l
    → fields (response_field l) l empty (marshal m) ≡ ok m
unfolding marshal
read_all l m h e =
    let small = subst (λ (k : ℕ). k < 2 ^ 63) e h.length_fits in
    let tail = encode_int 24 m.code ++ encode_packet m.packet in
    let rest = encode_headers 18 m.headers ++ tail in
    let stored = store_all [] m.headers in
    let one = length-append (encode_int 8 m.sid) rest in
    let two = length-append (encode_headers 18 m.headers) tail in
    let end = length-append (encode_int 24 m.code) (encode_packet m.packet) in
    let (f, g, p) =
      encode_int-Reads (response_field l) l small 8 IsTag-1_0 (λ z. record empty { sid = z })
        to_int64 (λ rest bytes. refl) m.sid rest (to_int64-to_uint64 m.sid h.sid_fits) l
        (omega (arith, e)) in
    let (f', g', q) =
      encode_headers-Reads (response_field l) l small 18 IsTag-2_2
        (λ x. record empty { sid = m.sid; headers = x }) (λ x rest bytes. refl) m.headers [] tail
        (omega (arith, e, one)) f g in
    let (f'', g'', r) =
      encode_int-Reads (response_field l) l small 24 IsTag-3_0
        (λ z. record empty { sid = m.sid; headers = stored; code = z }) to_int32
        (λ rest bytes. refl) m.code (encode_packet m.packet) (to_int32-to_uint64 m.code h.code_fits)
        f' g' in
    p
    ∙ q
    ∙ r
    ∙ read_packet (response_field l) l small (λ x. record m { headers = stored; packet = x })
        (λ rest bytes. refl) m.packet f'' (omega (arith, e, one, two, end)) g''
    ∙ ap (λ x. ok (record m { headers = x })) h.headers_map

-- A response whose sid fits an int64 and whose code fits an int32, whose headers are the map that
-- storing them one by one makes, and whose marshalled length is below 2^63, is read back by
-- Unmarshal from what Marshal writes, and Marshal writes as many bytes as Size says.
pub unmarshal-marshal_response :
    (m : Response) → IsReply m → (unmarshal (marshal m) ≡ ok m) × (length (marshal m) ≡ size m)
unfolding unmarshal marshal size
unmarshal-marshal_response m h =
    let tail = encode_int 24 m.code ++ encode_packet m.packet in
    let one = length-append (encode_int 8 m.sid) (encode_headers 18 m.headers ++ tail) in
    let two = length-append (encode_headers 18 m.headers) tail in
    let end = length-append (encode_int 24 m.code) (encode_packet m.packet) in
    (
      read_all (length (marshal m)) m h refl,
      omega (
        arith,
        one,
        two,
        end,
        length-int 8 m.sid,
        length-int 24 m.code,
        length-headers 18 m.headers (omega (arith, h.length_fits, one, two)),
        length-packet m.packet (omega (arith, h.length_fits, one, two, end)),
      ),
    )
