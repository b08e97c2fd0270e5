-- ===== src/Proto/Packet/RoundTrip.antt =====
-- A request that is marshalled and read back.
use gffg.Prelude.{ℕ, ◌^◌, ◌<◌, ◌≡◌, refl, ap, ◌∙◌, arith, [], ◌++◌, length, length-append}
use gffg.Prelude.Int.{pos, IsInt64, to_int64, to_int64-to_uint64}
use mathlib.Core.Path.{subst}
use gffg.Proto.{Request}
use gffg.Proto.Wire.{ok}
use gffg.Proto.Fields.{encode_int, encode_headers, encode_packet, fields}
use gffg.Proto.Fields.Room.{length-int, length-headers, length-packet}
use gffg.Proto.Fields.Loop.{
  store_all, IsTag-1_0, IsTag-2_0, IsTag-3_2, encode_int-Reads, encode_headers-Reads, read_packet,
}
use gffg.Proto.Packet.{request_field, marshal, unmarshal, size}

-- What a value of the Go type is: int64 fields, a map without a key twice, and a length that fits an int.
pub record IsMessage (m : Request) : Type 0 where
  pub sid_fits : IsInt64 m.sid
  pub rpc_id_fits : IsInt64 m.rpc_id
  pub headers_map : store_all [] m.headers ≡ m.headers
  pub length_fits : length (marshal m) < 2 ^ 63

abbrev empty : Request
empty = record { sid = pos 0; rpc_id = pos 0; headers = []; packet = [] }

-- Marshalled and read back; the length is l.
read_all :
    (l : ℕ) (m : Request)
    → IsMessage m
    → length (marshal m) ≡ l
    → fields (request_field l) l empty (marshal m) ≡ ok m
unfolding marshal
read_all l m h e =
    let small = subst (λ (k : ℕ). k < 2 ^ 63) e h.length_fits in
    let tail = encode_headers 26 m.headers ++ encode_packet m.packet in
    let one = length-append (encode_int 8 m.sid) (encode_int 16 m.rpc_id ++ tail) in
    let two = length-append (encode_int 16 m.rpc_id) tail in
    let end = length-append (encode_headers 26 m.headers) (encode_packet m.packet) in
    let (f, g, p) =
      encode_int-Reads (request_field l) l small 8 IsTag-1_0 (λ z. record empty { sid = z })
        to_int64 (λ rest bytes. refl) m.sid (encode_int 16 m.rpc_id ++ tail)
        (to_int64-to_uint64 m.sid h.sid_fits) l (omega (arith, e)) in
    let (f', g', q) =
      encode_int-Reads (request_field l) l small 16 IsTag-2_0
        (λ z. record empty { sid = m.sid; rpc_id = z }) to_int64 (λ rest bytes. refl) m.rpc_id tail
        (to_int64-to_uint64 m.rpc_id h.rpc_id_fits) f g in
    let (f'', g'', r) =
      encode_headers-Reads (request_field l) l small 26 IsTag-3_2
        (λ x. record empty { sid = m.sid; rpc_id = m.rpc_id; headers = x }) (λ x rest bytes. refl)
        m.headers [] (encode_packet m.packet) (omega (arith, e, one, two)) f' g' in
    p
    ∙ q
    ∙ r
    ∙ read_packet (request_field l) l small
        (λ x. record m { headers = store_all [] m.headers; packet = x }) (λ rest bytes. refl)
        m.packet f'' (omega (arith, e, one, two, end)) g''
    ∙ ap (λ x. ok (record m { headers = x })) h.headers_map

-- A request whose integers fit an int64, whose headers are the map that storing them one by one
-- makes, and whose marshalled length is below 2^63, is read back by Unmarshal from what Marshal
-- writes, and Marshal writes as many bytes as Size says.
pub unmarshal-marshal :
    (m : Request) → IsMessage m → (unmarshal (marshal m) ≡ ok m) × (length (marshal m) ≡ size m)
unfolding unmarshal marshal size
unmarshal-marshal m h =
    let tail = encode_headers 26 m.headers ++ encode_packet m.packet in
    let whole = length-append (encode_int 8 m.sid) (encode_int 16 m.rpc_id ++ tail) in
    let rest = length-append (encode_int 16 m.rpc_id) tail in
    let end = length-append (encode_headers 26 m.headers) (encode_packet m.packet) in
    (
      read_all (length (marshal m)) m h refl,
      omega (
        arith,
        whole,
        rest,
        end,
        length-int 8 m.sid,
        length-int 16 m.rpc_id,
        length-headers 26 m.headers (omega (arith, h.length_fits, whole, rest, end)),
        length-packet m.packet (omega (arith, h.length_fits, whole, rest, end)),
      ),
    )
