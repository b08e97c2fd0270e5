-- ===== src/Server/Queue.antt =====
-- `Server.onRecv`, `Server.goRecv` and the connection events: the channel between the receive loops
-- of the connections and the workers. A step is atomic; the workers' goroutines interleave as steps.
pub mod Laws
pub mod Drain
use gffg.Prelude.{
  ℕ, suc, ◌+◌, Option, none, some, List, [], ◌∷◌, ◌++◌, if◌then◌else◌, length, ltb, leb,
}
use gffg.Prelude.Int.{ℤ, pos, inc, dec}
use gffg.Prelude.Text.{Text, codes}
use gffg.Proto.{Codec, Request, Unmarshalled, decoded, malformed, out_of_range}
use gffg.Transport.Socket.{Panic, runtime_error}
use gffg.Server.Handler.{RpcHandler}
use gffg.Server.Handle.{
  State, Error, unmarshal_failed, Exit, returns, panics_with, Limit, counter, counter_by_add, emit,
  reply, response_of, handle, Handled, finished, crashed,
}

-- `RequetChannel`: the connection that the reply goes to, and the packet.
pub record RequestChannel : Type 0 where
  pub conn : ℕ
  pub packet : Text

-- `channels` is the configured size, which `NewServer` makes the channel with and `onRecv` reads
-- again. `sent` are the replies with their connections.
pub record Server : Type 0 where
  pub channels : ℕ
  pub handler : Option RpcHandler
  pub req_ch : List RequestChannel
  pub state : State
  pub sent : List (ℕ × Text)

-- The result of `onRecv`. `blocked`: the send on the channel waits, since the channel is full.
pub data Received : Type 0 where
  returned : Option Error → Received
  panicked : Panic → Received
  blocked : Received

abbrev pub tagged : ℕ → List Text → List (ℕ × Text)
tagged conn [] = []
tagged conn (bytes ∷ replies) = (conn, bytes) ∷ tagged conn replies

-- Runs an action on the state, with the replies of one connection.
unfoldable pub on_conn {ℓ} : {R : Type ℓ} → ℕ → (State → State × R) → Server → Server × R
on_conn conn action s =
    let (t, r) = action (record (s.state) { replies = [] }) in
    (record s { state = record t { replies = [] }; sent = s.sent ++ tagged conn t.replies }, r)

abbrev received : Exit → Received
received (returns e) = returned e
received (panics_with p) = panicked p

module _ (codec : Codec) (limiter : Text → Limit) where
  -- The channel is nearly full: the request is answered at once, with code 500.
  pub reject : Unmarshalled Request → State → State × Exit
  unfolding reply emit
  reject malformed s =
      (emit (counter (codes "server") (codes "channels_fully")) s, returns (some unmarshal_failed))
  reject out_of_range s =
      (emit (counter (codes "server") (codes "channels_fully")) s, panics_with runtime_error)
  reject (decoded msg) s =
      reply codec limiter (emit (counter (codes "server") (codes "channels_fully")) s)
        (response_of msg (pos 500) [])

  -- `(channels - 10) < len(this.reqCh)`, on int.
  unfoldable pub on_recv : ℕ → Text → Server → Server × Received
  unfolding reject on_conn
  on_recv conn packet s =
      if ltb s.channels (length s.req_ch + 10)
      then (let (t, x) = on_conn conn (reject (codec.unmarshal_request packet)) s in
          (t, received x))
      else if leb s.channels (length s.req_ch)
      then (s, blocked)
      else (
        record s { req_ch = s.req_ch ++ record { conn = conn; packet = packet } ∷ [] },
        returned none,
      )

  -- One round of `goRecv` with a request in the channel.
  unfoldable pub work : RequestChannel → Server → Server × Handled
  unfolding on_conn
  work req s = on_conn req.conn (handle codec limiter s.handler req.packet) s

  abbrev taken : List RequestChannel → Server → Server
  taken [] s = s
  taken (req ∷ rest) s = (work req (record s { req_ch = rest })).0

  unfoldable pub go_recv : Server → Server
  unfolding work
  go_recv s = taken s.req_ch s

-- `Server.connect` and `Server.closed`, the callbacks of the listener.
unfoldable pub connect : State → State
unfolding emit inc
connect s =
    let conns = inc s.conns in
    emit (counter_by_add (codes "server") (codes "connect") conns) (record s { conns = conns })

unfoldable pub closed : State → State
unfolding emit dec
closed s = emit (counter (codes "server") (codes "close")) (record s { conns = dec s.conns })
