-- ===== src/Proto/Reply.antt =====
-- Response of proto/packet.pb.go on the wire: Marshal, Size and Unmarshal.
pub mod RoundTrip
mod Runs
use gffg.Prelude.{ℕ, ◌+◌, [], ◌++◌, ◌==◌, if◌then◌else◌, length}
use gffg.Prelude.Int.{pos, to_int64, to_int32}
use gffg.Prelude.Text.{Text}
use gffg.Proto.{Response}
use gffg.Proto.Wire.{Read}
use gffg.Proto.Fields.{
  encode_int, encode_headers, encode_packet, int_size, headers_size, packet_size, int_field,
  bytes_field, headers_field, skip_unknown, fields,
}

-- `Response.Marshal` of a message without unknown fields.
unfoldable pub marshal : Response → Text
marshal m =
    encode_int 8 m.sid
    ++ (encode_headers 18 m.headers ++ (encode_int 24 m.code ++ encode_packet m.packet))

-- `Response.Size`.
unfoldable pub size : Response → ℕ
size m = int_size m.sid + (headers_size m.headers + (int_size m.code + packet_size m.packet))

-- The `switch`. `m.Code |= int32(b&0x7F) << shift` keeps the lowest 32 bits.
abbrev pub response_field : ℕ → ℕ → ℕ → Response → Text → Text → Read (Response × Text)
response_field l number wire_type m rest bytes =
    if number == 1
    then int_field l wire_type rest (λ n. record m { sid = to_int64 n })
    else if number == 2
    then headers_field l wire_type rest m.headers (λ h. record m { headers = h })
    else if number == 3
    then int_field l wire_type rest (λ n. record m { code = to_int32 n })
    else if number == 4
    then bytes_field l wire_type rest (λ s. record m { packet = s })
    else skip_unknown l m bytes

-- `Response.Unmarshal` into an empty message.
unfoldable pub unmarshal : Text → Read Response
unfolding fields
unmarshal bytes =
    fields (response_field (length bytes)) (length bytes)
      (record { sid = pos 0; headers = []; code = pos 0; packet = [] }) bytes
