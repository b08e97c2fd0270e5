-- ===== src/Client/WholeCall.antt =====
-- A call over a connection: `Response.Write` of the request on the client's side, the server's receive
-- loop, its channel and a worker, and the client's receive loop with its handler on the reply.
use gffg.Prelude.{
  ℕ, ◌^◌, ◌≤◌, ◌≡◌, ◌≢◌, ap, ◌∙◌, arith, true, false, some, List, [], ◌∷◌, ◌++◌, length,
}
use gffg.Prelude.Int.{ℤ, pos, IsInt64}
use gffg.Prelude.Text.{Text}
use gffg.Proto.Packet
use gffg.Proto.Reply
use gffg.Proto.WireCodec.{wire_codec}
use gffg.Common.{gen_rid}
use gffg.Transport.Socket.{Conn, flat}
use gffg.Transport.Link.{Completes, write_all}
use gffg.Transport.Response.{WriteResult, write}
use gffg.Transport.Response.Laws.{sent}
use gffg.Server.Handler.{RpcItem, RpcHandler, Called, find}
use gffg.Server.Handle.{Limit, handle}
use gffg.Server.Handle.Branches.{expected}
use gffg.Server.Queue.{Server, on_conn, work, go_recv, tagged}
use gffg.Server.Connection.{serve_conn}
use gffg.Server.Connection.Laws.{serve_conn-queues}
use gffg.Client.Request.{Options, request_of, reply_to}
use gffg.Client.Exchange.{verdict}
use gffg.Client.Pool.{remove_by_client}
use gffg.Client.Replies.{Receiver, receive, receive-write_all}
use gffg.Transport.Socket
use gffg.Client.OnWire.{exchange_on_wire}

module _ (limiter : Text → Limit) (handler : RpcHandler) (server : Server) (conn : ℕ) (trace : Text)
    (sid : ℤ) (rpc packet : Text) (opt : Options) (item : RpcItem) (call : Text → Text → Called)
    (group svrname name : Text) where
  -- The server with the request in its channel.
  abbrev pub queued : Server
  queued = record server {
    req_ch =
        record { conn = conn; packet = Packet.marshal (request_of trace sid rpc packet opt) } ∷ [];
  }

  -- A two-way call with an int64 sid other than 0, to a method that a server, whose count of
  -- requests is an int64, has registered under its signature, where the limiter and the function
  -- give a verdict (the result with code 0, an error with code 505, a refusal with code 405), and
  -- where the request and the response fit the receive buffers and are written by Response.Write
  -- with kernel writes that make progress and are enough: from the bytes of the request, cut in any
  -- way, the server's receive loop puts the request into its channel, empty and of ten places at
  -- least, and goes on with the bytes behind it; a worker then sends the marshalled response; and
  -- the client's receive loop, on any cutting of the bytes of the response, hands the sid of the
  -- call, the code and the body on, and then removes the connection from its pool.
  pub whole_call :
      (results reply_results : List WriteResult) (segments reply_segments : Conn) (rest : Text)
      (code : ℤ) (body : Text) (receiver : Receiver)
      → server.handler ≡ some handler
      → server.req_ch ≡ []
      → 10 ≤ server.channels
      → IsInt64 server.state.reqs
      → sid ≢ pos 0
      → IsInt64 sid
      → opt.only_call ≡ false
      → find (gen_rid rpc) handler.calls ≡ some (some item)
      → item.call ≡ some call
      → verdict (limiter item.name) (call trace packet) ≡ some (code, body)
      → Completes (2 ^ 20) (record {
        results = results;
        packet = Packet.marshal (request_of trace sid rpc packet opt);
      })
      → flat segments
        ≡ sent (write true results (Packet.marshal (request_of trace sid rpc packet opt)) [])
          ++ rest
      → Completes (2 ^ 20) (record {
        results = reply_results;
        packet = Reply.marshal (expected (request_of trace sid rpc packet opt) code body);
      })
      → flat reply_segments
        ≡ sent (
            write true reply_results
              (Reply.marshal (expected (request_of trace sid rpc packet opt) code body))
              [])
      → (serve_conn wire_codec limiter conn segments server
          ≡ serve_conn wire_codec limiter conn (rest ∷ []) queued)
        × ((go_recv wire_codec limiter queued).sent
            ≡ server.sent
              ++ (conn, Reply.marshal (expected (request_of trace sid rpc packet opt) code body))
                ∷ [])
        × (receive wire_codec group svrname name reply_segments receiver
            ≡ Socket.closed (record {
              arrived = receiver.arrived ++ reply_to sid code body ∷ [];
              pool = remove_by_client group svrname name receiver.pool;
            }))
  unfolding go_recv work on_conn write_all
  whole_call results reply_results segments reply_segments rest code body receiver h empty room r
        sid_ne sid_fits two f c v done e replied e' =
      let served =
        exchange_on_wire limiter handler (record (server.state) { replies = [] }) r trace sid sid_ne
          sid_fits rpc packet opt two item call f c code body v
          (omega (arith, done.deliverable.in_header)) replied.deliverable.in_header in
      (
        serve_conn-queues wire_codec limiter conn
              (record {
                results = results;
                packet = Packet.marshal (request_of trace sid rpc packet opt);
              }
                ∷ [])
              rest segments server (done, tt) (omega (arith, ap length empty, room)) e
            ∙ ap
                (λ ch. serve_conn wire_codec limiter conn (rest ∷ []) (record server {
                  req_ch =
                      ch
                      ++ record {
                        conn = conn;
                        packet = Packet.marshal (request_of trace sid rpc packet opt);
                      }
                        ∷ [];
                }))
                empty,
        ap
              (λ h.
                server.sent
                ++ tagged conn
                    (handle wire_codec limiter h
                      (Packet.marshal (request_of trace sid rpc packet opt))
                      (record (server.state) { replies = [] })).0.replies)
              h
            ∙ ap (λ rs. server.sent ++ tagged conn rs) served.0,
        receive-write_all wire_codec group svrname name
              (record {
                results = reply_results;
                packet = Reply.marshal (expected (request_of trace sid rpc packet opt) code body);
              }
                ∷ [])
              reply_segments receiver (replied, tt) e'
            ∙ ap
                (λ x. Socket.closed (record {
                  arrived = receiver.arrived ++ x ∷ [];
                  pool = remove_by_client group svrname name receiver.pool;
                }))
                served.1,
      )
