-- ===== src/Proto/Packet.antt =====
-- Request of proto/packet.pb.go on the wire: Marshal, Size and Unmarshal.
pub mod RoundTrip
mod Runs
use gffg.Prelude.{ℕ, ◌+◌, [], ◌++◌, ◌==◌, if◌then◌else◌, length}
use gffg.Prelude.Int.{pos, to_int64}
use gffg.Prelude.Text.{Text}
use gffg.Proto.{Request}
use gffg.Proto.Wire.{Read}
use gffg.Proto.Fields.{
  encode_int, encode_headers, encode_packet, int_size, headers_size, packet_size, int_field,
  bytes_field, headers_field, skip_unknown, fields,
}

-- `Request.Marshal` of a message without unknown fields.
unfoldable pub marshal : Request → Text
marshal m =
    encode_int 8 m.sid
    ++ (encode_int 16 m.rpc_id ++ (encode_headers 26 m.headers ++ encode_packet m.packet))

-- `Request.Size`.
unfoldable pub size : Request → ℕ
size m = int_size m.sid + (int_size m.rpc_id + (headers_size m.headers + packet_size m.packet))

-- The `switch`. `XXX_unrecognized` is left out.
abbrev pub request_field : ℕ → ℕ → ℕ → Request → Text → Text → Read (Request × Text)
request_field l number wire_type m rest bytes =
    if number == 1
    then int_field l wire_type rest (λ n. record m { sid = to_int64 n })
    else if number == 2
    then int_field l wire_type rest (λ n. record m { rpc_id = to_int64 n })
    else if number == 3
    then headers_field l wire_type rest m.headers (λ h. record m { headers = h })
    else if number == 4
    then bytes_field l wire_type rest (λ s. record m { packet = s })
    else skip_unknown l m bytes

-- `Request.Unmarshal` into an empty message.
unfoldable pub unmarshal : Text → Read Request
unfolding fields
unmarshal bytes =
    fields (request_field (length bytes)) (length bytes)
      (record { sid = pos 0; rpc_id = pos 0; headers = []; packet = [] }) bytes
