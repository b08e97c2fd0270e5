-- ===== src/Client/Runs.antt =====
-- Concrete runs of the package client, and its theorems at concrete inputs.
use gffg.Prelude.{
  ℕ, ap, true, zero, suc, ◌^◌, All, ◌≤◌, ◌≡◌, refl, arith, Option, some, List, [], ◌∷◌, ◌++◌, false,
  if◌then◌else◌, length, ◌==◌,
}
use gffg.Prelude.Int.{pos, to_uint64, to_int64}
use gffg.Prelude.Text.{Text, codes, text_eq}
use gffg.Common.{gen_rid}
use gffg.Server.Handler.{RpcItem, RpcHandler, Called, done, failed}
use gffg.Server.Handle.{State, Limit, allowed, refused}
use gffg.Client.Pool.{
  remove_read, remove_write, remove_by_client, has_name, Conn, Pool, Dialed, response, key, top_up,
  fill_empty, assign, gen_con,
}
use gffg.Client.Pool.Laws.{Chosen, response-Chosen}
use gffg.Client.Pool.Removal.{count_name, removals_race}
use gffg.Client.Request.{Options, request_of, reply_to}
use gffg.Client.Replies.{receive}
use gffg.Transport.Socket
use mathlib.Core.List.{append-nil}
use gffg.Client.WholeCall.{whole_call}
use gffg.Client.Calls.{waiting as in_select, packet as packet_result, Table, update, fresh, start}
use gffg.Client.Report
use gffg.Transport.Response.{WriteResult, wrote, write}
use gffg.Transport.Response.Laws.{Progress, sent}
use gffg.Transport.Link.{Completes}
use gffg.Server.Queue.{Server, go_recv}
use gffg.Server.Connection.{serve_conn}
use gffg.Proto.WireCodec.{wire_codec}
use gffg.Proto.Packet
use gffg.Proto.Reply
use gffg.Proto.Wire.{encode_varint}
use gffg.Server.Handle.Branches.{expected}
use gffg.Client.Call
use gffg.Client.Call.{new_request, bytes, Answer, error, panicked, returned, is_broken, call}
use gffg.Client.Call.Laws.{call_broken}
use gffg.Transport.Socket.{runtime_error, flat}
use gffg.Transport.Socket.{Conn as Segments}

abbrev dial : ℕ → Option Dialed
dial n = some (record { name = n ∷ []; socket = n; instance_id = 1; stamp = 5 })

abbrev first : ℕ → ℕ
first n = 0

abbrev conn : ℕ → Conn
conn n = record {
  socket = n;
  instance_id = 1;
  name = n ∷ [];
  svrname = codes "user";
  stamp = 5;
  group = codes "g";
}

abbrev conns : List Conn
conns = conn 1 ∷ conn 2 ∷ conn 3 ∷ []

-- Three connections to one server, none to the others.
abbrev three : Pool
three = record { rpcconn = λ k. if text_eq (codes "guser") k then conns else []; dials = 3 }

abbrev eight : Pool
eight = record {
  rpcconn = λ k. if text_eq (codes "guser") k then conns ++ conns ++ conn 7 ∷ conn 8 ∷ [] else [];
  dials = 8;
}

response-Chosen_example :
    Chosen 6
      (key (codes "g") (codes "user"))
      (response dial first 6 (codes "g") (codes "user") three)
    × (length (
          (response dial first 6 (codes "g") (codes "user") three).0.rpcconn
            (key (codes "g") (codes "user")))
        ≤ 8)
unfolding key
response-Chosen_example =
    response-Chosen dial first (λ n h. h) 6 (codes "g") (codes "user") three (omega arith)

abbrev two_way : Options
two_way = record { only_call = false; timeout = pos 3 }

abbrev method : Text
method = codes "Echo"

abbrev limiter : Text → Limit
limiter name = if length name == 3 then refused else allowed

abbrev echo : Text → Text → Called
echo trace [] = failed
echo trace (x ∷ packet) = done (trace ++ x ∷ packet)

abbrev echo_item : RpcItem
echo_item = record { call = some echo; name = method }

abbrev table : RpcHandler
table = record { calls = (gen_rid method, some echo_item) ∷ [] }

abbrev idle : State
idle = record { reqs = pos 2; conns = pos 1; replies = []; metrics = [] }

-- Writes of up to sixty bytes each.
abbrev writes : ℕ → List WriteResult
writes zero = []
writes (suc n) = wrote 60 ∷ writes n

writes-Progress : (n : ℕ) → All Progress (writes n)
writes-Progress zero = tt
writes-Progress (suc n) = (omega arith, writes-Progress n)

abbrev asking : Text
asking = Packet.marshal (request_of (7 ∷ []) (pos 9) method (1 ∷ 2 ∷ []) two_way)

abbrev answering : Text
answering =
    Reply.marshal
      (expected (request_of (7 ∷ []) (pos 9) method (1 ∷ 2 ∷ []) two_way) (pos 0) (7 ∷ 1 ∷ 2 ∷ []))

asking-Completes : Completes (2 ^ 20) (record { results = writes 200; packet = asking })
unfolding gen_rid request_of to_int64 Packet.marshal encode_varint to_uint64
asking-Completes = record {
  deliverable = record { nonempty = omega arith; in_buffer = omega arith; in_header = omega arith };
  progress = writes-Progress 200;
  enough = omega arith;
}

abbrev serving : Server
serving = record { channels = 16; handler = some table; req_ch = []; state = idle; sent = [] }

abbrev waiting : Server
waiting = record serving { req_ch = record { conn = 5; packet = asking } ∷ [] }

answering-Completes : Completes (2 ^ 20) (record { results = writes 200; packet = answering })
unfolding gen_rid request_of to_int64 Reply.marshal encode_varint to_uint64
answering-Completes = record {
  deliverable = record { nonempty = omega arith; in_buffer = omega arith; in_header = omega arith };
  progress = writes-Progress 200;
  enough = omega arith;
}

-- The reply comes in two segments, its first byte alone.
abbrev in_two : Text → Segments
in_two [] = []
in_two (b ∷ rest) = (b ∷ []) ∷ rest ∷ []

flat-in_two : (stream : Text) → flat (in_two stream) ≡ stream
flat-in_two [] = refl
flat-in_two (b ∷ rest) = ap (λ xs. b ∷ xs) (append-nil rest)

whole_call_example :
    (serve_conn wire_codec limiter 5 (sent (write true (writes 200) asking []) ∷ []) serving
      ≡ serve_conn wire_codec limiter 5 ([] ∷ []) waiting)
    × ((go_recv wire_codec limiter waiting).sent ≡ (5, answering) ∷ [])
    × (receive wire_codec
          (codes "g")
          (codes "user")
          (1 ∷ [])
          (in_two (sent (write true (writes 200) answering [])))
          (record { arrived = []; pool = three })
        ≡ Socket.closed (record {
          arrived = reply_to (pos 9) (pos 0) (7 ∷ 1 ∷ 2 ∷ []) ∷ [];
          pool = remove_by_client (codes "g") (codes "user") (1 ∷ []) three;
        }))
unfolding gen_rid
whole_call_example =
    whole_call limiter table serving 5 (7 ∷ []) (pos 9) method (1 ∷ 2 ∷ []) two_way echo_item echo
      (codes "g") (codes "user") (1 ∷ []) (writes 200) (writes 200)
      (sent (write true (writes 200) asking []) ∷ [])
      (in_two (sent (write true (writes 200) answering []))) [] (pos 0) (7 ∷ 1 ∷ 2 ∷ [])
      (record { arrived = []; pool = three }) refl refl (omega arith) (omega arith) (λ e. cc e)
      (omega arith) refl refl refl refl asking-Completes refl answering-Completes
      (flat-in_two (sent (write true (writes 200) answering [])))

-- Call 9 in its select.
abbrev selecting : Table
selecting = record start {
  call_item = update start.call_item 9 (some fresh);
  phase = update start.phase 9 in_select;
}

removals_race_example :
    (count_name (1 ∷ []) (
        (remove_write
            (remove_read (codes "g") (codes "user") (2 ∷ []) three)
            (remove_write (remove_read (codes "g") (codes "user") (1 ∷ []) three) three)).rpcconn
          (key (codes "g") (codes "user")))
      ≡ count_name (1 ∷ []) (three.rpcconn (key (codes "g") (codes "user"))))
    × (count_name (1 ∷ []) (
          (remove_by_client
              (codes "g")
              (codes "user")
              (2 ∷ [])
              (remove_by_client (codes "g") (codes "user") (1 ∷ []) three)).rpcconn
            (key (codes "g") (codes "user")))
        ≡ 0)
unfolding key has_name
removals_race_example =
    removals_race (codes "g") (codes "user") (1 ∷ []) (2 ∷ []) three refl refl refl

-- Every dial gives connection 0; the call fails on it, or panics.
abbrev asked : Call.Request
asked = new_request (codes "user") method (bytes (1 ∷ []))

abbrev failing : Conn → Text → Text → Pool → Pool × Answer
failing cli m packet p = (p, error (codes "call.Write error[use of closed network connection]"))

-- Between the two halves of the removal, another goroutine empties the pool.
abbrev dropped : Pool → Pool
dropped p = record p { rpcconn = λ k. [] }

abbrev exploding : Conn → Text → Text → Pool → Pool × Answer
exploding cli m packet p = (p, panicked runtime_error)

abbrev stamped : Conn
stamped = record (conn 1) { stamp = 6 }

abbrev after_response : Pool
after_response = (response dial first 6 (codes "g") (codes "user") three).0

call_broken_example :
    ((call dial first 6 failing dropped (codes "g") asked three).1
      ≡ returned [] (some (codes "call.Write error[use of closed network connection]")))
    × (count_name (1 ∷ []) (
          (call dial first 6 failing dropped (codes "g") asked three).0.rpcconn
            (key (codes "g") (codes "user")))
        ≡ 0)
    × (count_name (2 ∷ []) (
          (call dial first 6 failing dropped (codes "g") asked three).0.rpcconn
            (key (codes "g") (codes "user")))
        ≡ count_name (2 ∷ []) (after_response.rpcconn (key (codes "g") (codes "user"))))
unfolding new_request response is_broken top_up fill_empty assign gen_con has_name
call_broken_example =
    call_broken dial first 6 failing dropped (codes "g") asked three (1 ∷ []) refl after_response
      stamped refl (codes "call.Write error[use of closed network connection]") after_response
      (2 ∷ []) refl refl refl refl
