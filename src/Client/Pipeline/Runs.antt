-- ===== src/Client/Pipeline/Runs.antt =====
-- Three requests on one connection: one is answered, one is one-way, and one fails.
use gffg.Prelude.{
  ℕ, ◌<◌, ◌≤◌, zero, suc, ◌^◌, ◌≡◌, refl, arith, some, none, List, [], ◌∷◌, length, All,
}
use gffg.Prelude.Int.{pos, to_uint64}
use gffg.Prelude.Text.{Text, codes}
use mathlib.Core.List.{append-nil}
use gffg.Proto.Sample.{traced}
use gffg.Transport.Socket
use gffg.Transport.Response.{WriteResult, wrote}
use gffg.Transport.Response.Laws.{Progress}
use gffg.Transport.Link.{Call, Completes, write_all}
use gffg.Server.Handler.{RpcItem, RpcHandler, Called, done, failed}
use gffg.Server.Handle.{Limit, allowed, call_failed}
use gffg.Server.Queue.{Server}
use gffg.Server.Queue.Drain.{Served, waiting, drain}
use gffg.Server.Connection.{serve_conn}
use gffg.Client.Pool.{remove_by_client}
use gffg.Client.Request.{incoming, reply_to}
use gffg.Client.Replies.{Receiver, receive}
use gffg.Client.Pipeline.{Exchanged, written, pending, pipelined}

abbrev limiter : Text → Limit
limiter name = allowed

abbrev echo : Text → Text → Called
echo trace [] = failed
echo trace (x ∷ packet) = done (x ∷ packet)

abbrev item : RpcItem
item = record { call = some echo; name = codes "echo" }

abbrev table : RpcHandler
table = record { calls = (5, some item) ∷ [] }

abbrev server : Server
server = record {
  channels = 16;
  handler = some table;
  req_ch = [];
  state = record { reqs = pos 0; conns = pos 1; replies = []; metrics = [] };
  sent = [];
}

-- Twenty writes of at most three bytes each.
abbrev writes : ℕ → List WriteResult
writes zero = []
writes (suc n) = wrote 3 ∷ writes n

writes-Progress : (n : ℕ) → All Progress (writes n)
writes-Progress zero = tt
writes-Progress (suc n) = (omega arith, writes-Progress n)

abbrev in_writes : Text → Call
in_writes packet = record { results = writes 20; packet = packet }

abbrev first_reply : Text
first_reply = 0 ∷ 9 ∷ 0 ∷ 0 ∷ 7 ∷ 1 ∷ 2 ∷ []

abbrev third_reply : Text
third_reply = 0 ∷ 8 ∷ 0 ∷ 505 ∷ 7 ∷ []

abbrev three : List Exchanged
three =
    record { call = in_writes (0 ∷ 9 ∷ 0 ∷ 5 ∷ 7 ∷ 1 ∷ 2 ∷ []); replies = first_reply ∷ [] }
    ∷ record { call = in_writes (0 ∷ 0 ∷ 0 ∷ 5 ∷ 7 ∷ 3 ∷ []); replies = [] }
    ∷ record { call = in_writes (0 ∷ 8 ∷ 0 ∷ 5 ∷ 7 ∷ []); replies = third_reply ∷ [] }
    ∷ []

abbrev back : List Call
back = in_writes first_reply ∷ in_writes third_reply ∷ []

first-Served : Served traced limiter table (0 ∷ 9 ∷ 0 ∷ 5 ∷ 7 ∷ 1 ∷ 2 ∷ []) (first_reply ∷ [])
unfolding to_uint64
first-Served = record {
  msg = record {
    sid = pos 9;
    rpc_id = pos 5;
    headers = (codes "traceId", 7 ∷ []) ∷ [];
    packet = 1 ∷ 2 ∷ [];
  };
  item = item;
  call = echo;
  decision = record { code = pos 0; error = none; body = some (1 ∷ 2 ∷ []) };
  read = refl;
  registered = refl;
  has_call = refl;
  decided = refl;
  answered = (first_reply, refl, omega arith, refl);
}

second-Served : Served traced limiter table (0 ∷ 0 ∷ 0 ∷ 5 ∷ 7 ∷ 3 ∷ []) []
unfolding to_uint64
second-Served = record {
  msg = record {
    sid = pos 0;
    rpc_id = pos 5;
    headers = (codes "traceId", 7 ∷ []) ∷ [];
    packet = 3 ∷ [];
  };
  item = item;
  call = echo;
  decision = record { code = pos 0; error = none; body = none };
  read = refl;
  registered = refl;
  has_call = refl;
  decided = refl;
  answered = refl;
}

third-Served : Served traced limiter table (0 ∷ 8 ∷ 0 ∷ 5 ∷ 7 ∷ []) (third_reply ∷ [])
unfolding to_uint64
third-Served = record {
  msg = record {
    sid = pos 8;
    rpc_id = pos 5;
    headers = (codes "traceId", 7 ∷ []) ∷ [];
    packet = [];
  };
  item = item;
  call = echo;
  decision = record { code = pos 505; error = some call_failed; body = some [] };
  read = refl;
  registered = refl;
  has_call = refl;
  decided = refl;
  answered = (third_reply, refl, omega arith, refl);
}

in_writes-Completes :
    (packet : Text) → 0 < length packet → length packet ≤ 12 → Completes (2 ^ 20) (in_writes packet)
in_writes-Completes packet low high = record {
  deliverable = record {
    nonempty = low;
    in_buffer = omega (arith, high);
    in_header = omega (arith, high);
  };
  progress = writes-Progress 20;
  enough = omega (arith, high);
}

abbrev receiver : Receiver
receiver = record { arrived = []; pool = record { rpcconn = λ k. []; dials = 0 } }

pipelined_example :
    (serve_conn traced limiter 4 (write_all (written three) [] ∷ []) server
      ≡ serve_conn traced limiter 4
          ([] ∷ [])
          (record server { req_ch = waiting (pending 4 three) }))
    × ((drain traced limiter 3 (record server { req_ch = waiting (pending 4 three) })).sent
        ≡ (4, first_reply) ∷ (4, third_reply) ∷ [])
    × ((drain traced limiter 3 (record server { req_ch = waiting (pending 4 three) })).req_ch ≡ [])
    × (receive traced (codes "g") (codes "user") (1 ∷ []) (write_all back [] ∷ []) receiver
        ≡ Socket.closed (record {
          arrived = reply_to (pos 9) (pos 0) (1 ∷ 2 ∷ []) ∷ reply_to (pos 8) (pos 505) [] ∷ [];
          pool = remove_by_client (codes "g") (codes "user") (1 ∷ []) receiver.pool;
        }))
unfolding incoming
pipelined_example =
    pipelined traced limiter table 4 (codes "g") (codes "user") (1 ∷ []) three back
      (write_all (written three) [] ∷ []) (write_all back [] ∷ []) [] server receiver refl refl
      (omega arith) (omega arith) (first-Served, (second-Served, (third-Served, tt)))
      (
        in_writes-Completes _ (omega arith) (omega arith),
        (
          in_writes-Completes _ (omega arith) (omega arith),
          (in_writes-Completes _ (omega arith) (omega arith), tt),
        ),
      )
      refl refl
      (
        in_writes-Completes _ (omega arith) (omega arith),
        (in_writes-Completes _ (omega arith) (omega arith), tt),
      )
      (append-nil (write_all back []))
