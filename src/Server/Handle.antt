-- ===== src/Server/Handle.antt =====
-- `Server.handle`, with its two deferred functions, and `Server.reply`.
pub mod Laws
pub mod Branches
pub mod Decision
use gffg.Prelude.{
  ℕ, ◌≡◌, refl, arith, Bool, true, false, Option, none, some, List, [], ◌∷◌, ◌++◌, ◌==◌,
  if◌then◌else◌, length, ◌||◌,
}
use gffg.Prelude.Int.{ℤ, pos, eq_ℤ, to_uint64, inc, dec}
use gffg.Prelude.Text.{Text, codes, lookup}
use gffg.Proto.{Codec, Request, Response, Headers, Unmarshalled, decoded, malformed, out_of_range}
use gffg.Transport.Header.{encoder}
use gffg.Transport.Socket.{Panic, runtime_error, other_value}
use gffg.Server.Handler.{RpcItem, RpcHandler, Called, done, failed, panics, find}

-- The calls of the package metrics. A time stamp is not kept.
pub data Metric : Type 0 where
  counter : Text → Text → Metric
  counter_by_add : Text → Text → ℤ → Metric
  method_code : Text → ℤ → Metric
  summary : Text → Metric

pub data Error : Type 0 where
  unmarshal_failed not_registered no_call limited call_failed marshal_failed : Error

-- `replies` are the packets that `Response.Write` has put on the connection of the request.
pub record State : Type 0 where
  pub reqs : ℤ
  pub conns : ℤ
  pub replies : List Text
  pub metrics : List Metric

-- How a body ends: with an error or nil, or by a panic.
pub data Exit : Type 0 where
  returns : Option Error → Exit
  panics_with : Panic → Exit

pub record Run : Type 0 where
  pub state : State
  pub code : ℤ
  pub exit : Exit

-- `IRegistry.Limiter`.
pub data Limit : Type 0 where
  allowed refused : Limit
  limiter_panics : Panic → Limit

unfoldable pub emit : Metric → State → State
emit m s = record s { metrics = s.metrics ++ m ∷ [] }

-- `incReq`, `decReq`.
unfoldable pub inc_req : State → State
unfolding inc
inc_req s = record s { reqs = inc s.reqs }

unfoldable pub dec_req : State → State
unfolding dec
dec_req s = record s { reqs = dec s.reqs }

abbrev written : State → Text → Option Text → State × Exit
written s bytes none = (s, panics_with runtime_error)
written s bytes (some msg_header) = (record s { replies = s.replies ++ bytes ∷ [] }, returns none)

-- `response.Write(res)`, whose results are dropped: nothing for an empty packet, and the panic of the
-- header for one that is too long.
unfoldable pub response_write : State → Text → State × Exit
response_write s [] = (s, returns none)
response_write s (b ∷ bytes) = written s (b ∷ bytes) (encoder (pos (length (b ∷ bytes))))

abbrev marshalled : State → Option Text → State × Exit
marshalled s none = (s, returns (some marshal_failed))
marshalled s (some bytes) = response_write s bytes

-- After `this.reply(response, res)` as a statement: its error is dropped, a panic is not.
abbrev then_error : Error → ℤ → State × Exit → Run
then_error e code (s, returns r) = record { state = s; code = code; exit = returns (some e) }
then_error e code (s, panics_with p) = record { state = s; code = code; exit = panics_with p }

abbrev then_result : ℤ → State × Exit → Run
then_result code (s, x) = record { state = s; code = code; exit = x }

abbrev pub only_call : Request → Bool
only_call msg = elim (lookup (codes "onlyCall") msg.headers) [
  | some v ↦ true
  | none ↦ eq_ℤ (pos 0) msg.sid
]

abbrev pub trace_id : Request → Text
trace_id msg = elim (lookup (codes "traceId") msg.headers) [ none ↦ [] | some t ↦ t ]

abbrev pub response_of : Request → ℤ → Text → Response
response_of msg code packet = record {
  sid = msg.sid;
  headers = msg.headers;
  code = code;
  packet = packet;
}

-- The outer deferred function: `recover`, whose `r.(error)` panics again on any other value.
-- `finished` carries the error that `handle` returns, `crashed` ends the process.
pub data Handled : Type 0 where
  finished : Option Error → Handled
  crashed : Handled

pub deferred_recover : State × Exit → State × Handled
unfolding emit
deferred_recover (s, returns e) = (emit (counter (codes "server") (codes "recv")) s, finished e)
deferred_recover (s, panics_with runtime_error) = (
  emit (counter (codes "server") (codes "panic"))
      (emit (counter (codes "server") (codes "recv")) s),
  finished none,
)
deferred_recover (s, panics_with other_value) = (
  emit (counter (codes "server") (codes "panic"))
      (emit (counter (codes "server") (codes "recv")) s),
  crashed,
)

module _ (codec : Codec) (limiter : Text → Limit) where
  -- `Server.reply`.
  unfoldable pub reply : State → Response → State × Exit
  unfolding response_write
  reply s res = marshalled s (codec.marshal_response res)

  -- From the result of `item.Call` on.
  pub after_call : Request → State → Called → Run
  unfolding reply
  after_call msg s (done ret) =
      if only_call msg
      then record { state = s; code = pos 0; exit = returns none }
      else then_result (pos 0) (reply s (response_of msg (pos 0) ret))
  after_call msg s failed =
      then_error call_failed (pos 505) (reply s (response_of msg (pos 505) []))
  after_call msg s (panics p) = record { state = s; code = pos 0; exit = panics_with p }

  -- From `this.registry.Limiter` on.
  pub after_limiter : Request → (Text → Text → Called) → State → Limit → Run
  unfolding after_call
  after_limiter msg call s allowed = after_call msg s (call (trace_id msg) msg.packet)
  after_limiter msg call s refused =
      then_error limited (pos 405) (reply s (response_of msg (pos 405) []))
  after_limiter msg call s (limiter_panics p) = record {
    state = s;
    code = pos 0;
    exit = panics_with p;
  }

  -- The deferred function that counts the request out.
  pub deferred_report : Text → Run → State × Exit
  unfolding emit dec_req
  deferred_report name run =
      let s = dec_req run.state in
      (
        emit (summary name) (
            emit (counter_by_add (codes "server") (codes "reqCount") s.reqs)
              (emit (method_code name run.code) s)),
        run.exit,
      )

  -- The request has a registered function: from `incReq` to the first deferred function's end.
  pub serve : Request → Text → (Text → Text → Called) → State → State × Exit
  unfolding after_limiter deferred_report inc_req
  serve msg name call s = deferred_report name (after_limiter msg call (inc_req s) (limiter name))

  pub with_call : Request → Text → Option (Text → Text → Called) → State → State × Exit
  unfolding serve
  with_call msg name none s =
      (emit (counter (codes "server") (codes "not.Call")) s, returns (some no_call))
  with_call msg name (some call) s = serve msg name call s

  pub with_item : Request → Option (Option RpcItem) → State → State × Exit
  unfolding with_call
  with_item msg none s = (s, returns (some not_registered))
  with_item msg (some none) s =
      (emit (counter (codes "server") (codes "not.Call")) s, returns (some no_call))
  with_item msg (some (some item)) s = with_call msg item.name item.call s

  -- `this.rpcHandler` is nil before `NewHandler`: reading its table panics.
  pub with_handler : Request → Option RpcHandler → State → State × Exit
  unfolding with_item
  with_handler msg none s = (s, panics_with runtime_error)
  with_handler msg (some handler) s = with_item msg (find (to_uint64 msg.rpc_id) handler.calls) s

  pub with_request : Option RpcHandler → Unmarshalled Request → State → State × Exit
  unfolding with_handler
  with_request handler malformed s = (s, returns (some unmarshal_failed))
  with_request handler out_of_range s = (s, panics_with runtime_error)
  with_request handler (decoded msg) s = with_handler msg handler s

  unfoldable pub handle : Option RpcHandler → Text → State → State × Handled
  unfolding with_request deferred_recover
  handle handler packet s =
      deferred_recover (with_request handler (codec.unmarshal_request packet) s)
