-- ===== src/Client/Pipeline.antt =====
-- Several requests over one connection: the client's writes, the server's receive loop and workers, and
-- the client's receive loop on the replies.
mod Runs
use gffg.Prelude.{
  ℕ, suc, ◌+◌, ◌^◌, ◌≤◌, ◌≡◌, refl, sym, ap, ◌∙◌, arith, some, List, [], ◌∷◌, ◌++◌, length, map,
  All,
}
use gffg.Prelude.Int.{IsInt64}
use gffg.Prelude.Text.{Text}
use gffg.Proto.{Codec}
use gffg.Transport.Socket
use gffg.Transport.Socket.{Conn, flat}
use gffg.Transport.Link.{Call, Completes, packets, write_all}
use gffg.Server.Handler.{RpcHandler}
use gffg.Server.Handle.{Limit}
use gffg.Server.Queue.{Server, RequestChannel}
use gffg.Server.Queue.Drain.{Pending, waiting, replies_of, AllServed, drain, drain-Served}
use gffg.Server.Connection.{serve_conn}
use gffg.Server.Connection.Laws.{requests, serve_conn-queues}
use gffg.Client.Pool.{remove_by_client}
use gffg.Client.Request.{incoming}
use gffg.Client.Replies.{Receiver, receive, receive-write_all}

-- A request as it is written, and the packets that answer it.
pub record Exchanged : Type 0 where
  pub call : Call
  pub replies : List Text

abbrev pub written : List Exchanged → List Call
written [] = []
written (e ∷ es) = e.call ∷ written es

abbrev pub pending : ℕ → List Exchanged → List Pending
pending conn [] = []
pending conn (e ∷ es) =
    record { req = record { conn = conn; packet = e.call.packet }; replies = e.replies }
    ∷ pending conn es

abbrev pub all_replies : List Exchanged → List Text
all_replies [] = []
all_replies (e ∷ es) = e.replies ++ all_replies es

waiting-pending :
    (conn : ℕ) (es : List Exchanged)
    → requests conn (packets (written es)) ≡ waiting (pending conn es)
waiting-pending conn [] = refl
waiting-pending conn (e ∷ es) =
    ap (λ rs. record { conn = conn; packet = e.call.packet } ∷ rs) (waiting-pending conn es)

length-written : (es : List Exchanged) → length (written es) ≡ length es
length-written [] = refl
length-written (e ∷ es) = ap suc (length-written es)

length-pending : (conn : ℕ) (es : List Exchanged) → length (pending conn es) ≡ length es
length-pending conn [] = refl
length-pending conn (e ∷ es) = ap suc (length-pending conn es)

module _ (codec : Codec) (limiter : Text → Limit) (handler : RpcHandler) (conn : ℕ)
    (group svrname name : Text) where
  -- Requests written by Response.Write on one connection of a server with an empty channel that has
  -- nine places more than they take and a count of requests that is an int64, each registered and
  -- with a decision on it and the packets that answer it: from their bytes, cut in any way, the
  -- receive loop puts them all into the channel, in order, and goes on with the bytes behind them;
  -- as many rounds of a worker empty the channel and send the answers on this connection, in the
  -- order of the requests; and a client whose receive loop gets these packets, written by
  -- Response.Write and cut in any way, hands over what its handler makes of each, in order, and
  -- then removes the connection from its pool.
  pub pipelined :
      (es : List Exchanged) (back : List Call) (segments reply_segments : Conn) (rest : Text)
      (s : Server) (receiver : Receiver)
      → s.handler ≡ some handler
      → s.req_ch ≡ []
      → length es + 9 ≤ s.channels
      → IsInt64 s.state.reqs
      → AllServed codec limiter handler (pending conn es)
      → All (Completes (2 ^ 20)) (written es)
      → flat segments ≡ write_all (written es) [] ++ rest
      → packets back ≡ all_replies es
      → All (Completes (2 ^ 20)) back
      → flat reply_segments ≡ write_all back []
      → (serve_conn codec limiter conn segments s
          ≡ serve_conn codec limiter conn
              (rest ∷ [])
              (record s { req_ch = waiting (pending conn es) }))
        × ((drain codec limiter (length es) (record s { req_ch = waiting (pending conn es) })).sent
            ≡ s.sent ++ replies_of (pending conn es))
        × ((drain codec limiter
              (length es)
              (record s { req_ch = waiting (pending conn es) })).req_ch
            ≡ [])
        × (receive codec group svrname name reply_segments receiver
            ≡ Socket.closed (record {
              arrived = receiver.arrived ++ map (incoming codec) (all_replies es);
              pool = remove_by_client group svrname name receiver.pool;
            }))
  pipelined es back segments reply_segments rest s receiver h empty room r served done e same
        replied e' =
      let queued = record s { req_ch = waiting (pending conn es) } in
      let (sent, left) =
        drain-Served codec limiter handler (pending conn es) queued served h r refl in
      (
        serve_conn-queues codec limiter conn (written es) rest segments s done
              (omega (arith, ap length empty, length-written es, room)) e
            ∙ ap (λ ch. serve_conn codec limiter conn (rest ∷ []) (record s { req_ch = ch }))
                (ap (λ ch. ch ++ requests conn (packets (written es))) empty
                  ∙ waiting-pending conn es),
        ap (λ n. (drain codec limiter n queued).sent) (sym (length-pending conn es)) ∙ sent,
        ap (λ n. (drain codec limiter n queued).req_ch) (sym (length-pending conn es)) ∙ left,
        receive-write_all codec group svrname name back reply_segments receiver replied e'
            ∙ ap
                (λ ps. Socket.closed (record {
                  arrived = receiver.arrived ++ map (incoming codec) ps;
                  pool = remove_by_client group svrname name receiver.pool;
                }))
                same,
      )
