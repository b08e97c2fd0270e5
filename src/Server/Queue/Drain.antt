-- ===== src/Server/Queue/Drain.antt =====
-- Workers that take the requests of the channel one after the other, each with its decision.
use gffg.Prelude.{ℕ, zero, suc, ◌≡◌, refl, sym, ap, ◌∙◌, some, List, [], ◌∷◌, ◌++◌, length}
use gffg.Prelude.Int.{IsInt64, to_uint64}
use gffg.Prelude.Text.{Text}
use mathlib.Core.List.{append_assoc, append-nil}
use gffg.Proto.{Codec, Request, decoded}
use gffg.Server.Handler.{RpcItem, RpcHandler, Called, find}
use gffg.Server.Handle.{State, Limit, only_call, trace_id, finished, Handled, handle}
use gffg.Server.Handle.Branches.{counted}
use gffg.Server.Handle.Decision.{Decision, decide, Answer, handle-decide}
use gffg.Server.Queue.{RequestChannel, Server, tagged, on_conn, work, go_recv}

-- A worker, so many times.
pub drain : Codec → (Text → Limit) → ℕ → Server → Server
drain codec limiter zero s = s
drain codec limiter (suc n) s = drain codec limiter n (go_recv codec limiter s)

-- A packet with a registered request, the decision on it, and the packets that answer it.
pub record Served (codec : Codec) (limiter : Text → Limit) (handler : RpcHandler) (packet : Text)
    (replies : List Text) : Type 0 where
  pub msg : Request
  pub item : RpcItem
  pub call : Text → Text → Called
  pub decision : Decision
  pub read : codec.unmarshal_request packet ≡ decoded msg
  pub registered : find (to_uint64 msg.rpc_id) handler.calls ≡ some (some item)
  pub has_call : item.call ≡ some call
  pub decided :
      decide (only_call msg) (limiter item.name) (call (trace_id msg) msg.packet) ≡ some decision
  pub answered : Answer codec msg decision.code decision.body replies

-- Requests, and the answers to each.
pub record Pending : Type 0 where
  pub req : RequestChannel
  pub replies : List Text

abbrev pub waiting : List Pending → List RequestChannel
waiting [] = []
waiting (p ∷ ps) = p.req ∷ waiting ps

abbrev pub replies_of : List Pending → List (ℕ × Text)
replies_of [] = []
replies_of (p ∷ ps) = tagged p.req.conn p.replies ++ replies_of ps

module _ (codec : Codec) (limiter : Text → Limit) (handler : RpcHandler) where
  abbrev pub AllServed : List Pending → Type 0
  AllServed [] = Unit
  AllServed (p ∷ ps) = Served codec limiter handler p.req.packet p.replies × AllServed ps

  -- A round of a worker on a request that is served.
  go_recv-Served :
      (p : Pending) (rest : List RequestChannel) (s : Server)
      → Served codec limiter handler p.req.packet p.replies
      → s.handler ≡ some handler
      → IsInt64 s.state.reqs
      → s.req_ch ≡ p.req ∷ rest
      → (t : Server) × (go_recv codec limiter s ≡ t)
        × (t.sent ≡ s.sent ++ tagged p.req.conn p.replies)
        × (t.req_ch ≡ rest)
        × (t.handler ≡ some handler)
        × IsInt64 t.state.reqs
  unfolding go_recv work on_conn
  go_recv-Served p rest s v h r e = (
    record s {
      req_ch = rest;
      state = record (counted s.state v.item.name v.decision.code) { replies = [] };
      sent = s.sent ++ tagged p.req.conn p.replies;
    },
    rw e (ap (after_work s) (ap (λ x. handle codec limiter x p.req.packet empty) h ∙ handled)),
    refl,
    refl,
    h,
    r,
  )
    where
      empty : State
      empty = record (s.state) { replies = [] }

      after_work : Server → State × Handled → Server
      after_work s x = record s {
        req_ch = rest;
        state = record (x.0) { replies = [] };
        sent = s.sent ++ tagged p.req.conn x.0.replies;
      }

      handled : handle codec limiter (some handler) p.req.packet empty ≡ (
        record (counted empty v.item.name v.decision.code) { replies = p.replies },
        finished v.decision.error,
      )
      handled =
          handle-decide codec limiter handler p.req.packet empty v.msg v.item v.call v.read
            v.registered v.has_call r v.decision p.replies v.decided v.answered

  -- As many rounds of a worker as there are requests in the channel, each served, send the answers of all
  -- of them, in order, and leave the channel empty.
  pub drain-Served :
      (ps : List Pending) (s : Server)
      → AllServed ps
      → s.handler ≡ some handler
      → IsInt64 s.state.reqs
      → s.req_ch ≡ waiting ps
      → ((drain codec limiter (length ps) s).sent ≡ s.sent ++ replies_of ps)
        × ((drain codec limiter (length ps) s).req_ch ≡ [])
  unfolding drain
  drain-Served [] s all h r e = (sym (append-nil s.sent), e)
  drain-Served (p ∷ ps) s (v, all) h r e =
      let (t, same, sent, left, h', r') = go_recv-Served p (waiting ps) s v h r e in
      let (drained, empty) = drain-Served ps t all h' r' left in
      (
        ap (λ u. (drain codec limiter (length ps) u).sent) same
            ∙ drained
            ∙ ap (λ xs. xs ++ replies_of ps) sent
            ∙ append_assoc s.sent (tagged p.req.conn p.replies) (replies_of ps),
        ap (λ u. (drain codec limiter (length ps) u).req_ch) same ∙ empty,
      )
