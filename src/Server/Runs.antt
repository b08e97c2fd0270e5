-- ===== src/Server/Runs.antt =====
-- Concrete runs of the package server, and its theorems at concrete inputs.
use gffg.Prelude.{
  ℕ, ◌≡◌, refl, arith, Option, none, some, List, [], ◌∷◌, ◌++◌, length, if◌then◌else◌, ◌==◌,
}
use gffg.Prelude.Int.{ℤ, pos, negsuc, to_uint64}
use gffg.Prelude.Text.{Text, codes}
use gffg.Proto.{Codec, Request, Response, Unmarshalled, decoded, malformed}
use gffg.Transport.Socket.{runtime_error}
use gffg.Server.Handler.{RpcItem, RpcHandler, Called, done, failed, panics}
use gffg.Server.Handle.{State, Limit, allowed, refused, finished, handle, call_failed}
use gffg.Server.Handle.Laws.{handle-reqs, Reply, handle-Reply}
use gffg.Server.Handle.Branches.{counted}
use gffg.Server.Handle.Decision.{handle-decide}
use gffg.Server.Queue.{Server}
use gffg.Server.Queue.Laws.{Event, receive, take, run, run_fifo, all_put, all_taken}

-- A codec for small messages: the first byte is the sid, the second the id or the code,
-- and there are no headers. It refuses what it cannot say.
abbrev encode : ℤ → ℤ → List (Text × Text) → Text → Option Text
encode (pos sid) (pos id) [] packet = some (sid ∷ id ∷ packet)
encode (pos sid) (pos id) (h ∷ headers) packet = none
encode (pos sid) (negsuc id) headers packet = none
encode (negsuc sid) id headers packet = none

abbrev unmarshal_request : Text → Unmarshalled Request
unmarshal_request (sid ∷ id ∷ packet) =
    decoded (record { sid = pos sid; rpc_id = pos id; headers = []; packet = packet })
unmarshal_request _ = malformed

abbrev unmarshal_response : Text → Unmarshalled Response
unmarshal_response (sid ∷ code ∷ packet) =
    decoded (record { sid = pos sid; headers = []; code = pos code; packet = packet })
unmarshal_response _ = malformed

request_back :
    (sid id : ℤ) (headers : List (Text × Text)) (packet bytes : Text)
    → encode sid id headers packet ≡ some bytes
    → unmarshal_request bytes
      ≡ decoded (record { sid = sid; rpc_id = id; headers = headers; packet = packet })
request_back (pos sid) (pos id) [] packet [] e = cc
request_back (pos sid) (pos id) [] packet (a ∷ []) e = cc
request_back (pos sid) (pos id) [] packet (a ∷ b ∷ bytes) e = ground arith
request_back (pos sid) (pos id) (h ∷ headers) packet bytes e = cc
request_back (pos sid) (negsuc id) headers packet bytes e = cc
request_back (negsuc sid) id headers packet bytes e = cc

response_back :
    (sid code : ℤ) (headers : List (Text × Text)) (packet bytes : Text)
    → encode sid code headers packet ≡ some bytes
    → unmarshal_response bytes
      ≡ decoded (record { sid = sid; headers = headers; code = code; packet = packet })
response_back (pos sid) (pos id) [] packet [] e = cc
response_back (pos sid) (pos id) [] packet (a ∷ []) e = cc
response_back (pos sid) (pos id) [] packet (a ∷ b ∷ bytes) e = ground arith
response_back (pos sid) (pos id) (h ∷ headers) packet bytes e = cc
response_back (pos sid) (negsuc id) headers packet bytes e = cc
response_back (negsuc sid) id headers packet bytes e = cc

abbrev small : Codec
small = record {
  marshal_request = λ r. encode r.sid r.rpc_id r.headers r.packet;
  unmarshal_request = unmarshal_request;
  marshal_response = λ r. encode r.sid r.code r.headers r.packet;
  unmarshal_response = unmarshal_response;
  unmarshal-marshal_request = λ r bytes e. request_back r.sid r.rpc_id r.headers r.packet bytes e;
  unmarshal-marshal_response = λ r bytes e. response_back r.sid r.code r.headers r.packet bytes e;
}

abbrev limiter : Text → Limit
limiter name = if length name == 3 then refused else allowed

-- The function returns its packet, and fails or panics on two of them.
abbrev echo : Text → Text → Called
echo trace_id [] = failed
echo trace_id (x ∷ []) = panics runtime_error
echo trace_id (x ∷ y ∷ packet) = done (x ∷ y ∷ packet)

abbrev item : Text → RpcItem
item name = record { call = some echo; name = name }

-- Method 5 is served, method 6 is beyond its limit.
abbrev table : RpcHandler
table = record { calls = (5, some (item (codes "echo"))) ∷ (6, some (item (codes "big"))) ∷ [] }

abbrev start : State
start = record { reqs = pos 2; conns = pos 1; replies = []; metrics = [] }

abbrev asked : ℕ → ℕ → Text → Request
asked sid id packet = record { sid = pos sid; rpc_id = pos id; headers = []; packet = packet }

handle-reqs_example : (handle small limiter (some table) (9 ∷ 5 ∷ []) start).0.reqs ≡ pos 2
handle-reqs_example = (handle-reqs small limiter (some table) (9 ∷ 5 ∷ []) start (omega arith)).0

handle-Reply_example :
    Reply small limiter
      (9 ∷ 5 ∷ 1 ∷ 2 ∷ [])
      []
      (handle small limiter (some table) (9 ∷ 5 ∷ 1 ∷ 2 ∷ []) start).0.replies
handle-Reply_example = handle-Reply small limiter (some table) (9 ∷ 5 ∷ 1 ∷ 2 ∷ []) start

-- The function fails, and the error is answered.
handle-decide_example : handle small limiter (some table) (9 ∷ 5 ∷ []) start ≡ (
  record (counted start (codes "echo") (pos 505)) { replies = (9 ∷ 505 ∷ []) ∷ [] },
  finished (some call_failed),
)
unfolding to_uint64
handle-decide_example =
    handle-decide small limiter table (9 ∷ 5 ∷ []) start (asked 9 5 []) (item (codes "echo")) echo
      refl refl refl (omega arith)
      (record { code = pos 505; error = some call_failed; body = some [] }) ((9 ∷ 505 ∷ []) ∷ [])
      refl (9 ∷ 505 ∷ [], refl, omega arith, refl)

abbrev server : ℕ → Server
server channels = record {
  channels = channels;
  handler = some table;
  req_ch = [];
  state = start;
  sent = [];
}

abbrev traffic : List Event
traffic = receive 1 (9 ∷ 5 ∷ []) ∷ receive 2 (8 ∷ 5 ∷ []) ∷ take ∷ receive 1 (7 ∷ 6 ∷ []) ∷ []

run_fifo_example :
    all_put small limiter traffic (server 11)
    ≡ all_taken small limiter traffic (server 11) ++ (run small limiter traffic (server 11)).req_ch
run_fifo_example = run_fifo small limiter traffic (server 11)
