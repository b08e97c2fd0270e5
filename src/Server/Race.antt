-- ===== src/Server/Race.antt =====
-- `Server.onRecv` of server/server.go in two steps, the test of the channel and the send, with those of other
-- connections and the workers in between.
pub mod Laws
mod Runs
use gffg.Prelude.{ℕ, All, ◌≢◌, ◌≡◌, ◌<◌, ◌+◌, List, [], ◌∷◌, ◌++◌, length, ltb, true, false}
use gffg.Prelude.Text.{Text}
use gffg.Proto.{Codec}
use gffg.Server.Handle.{Limit}
use gffg.Server.Queue.{RequestChannel, Server, on_recv, go_recv}

-- The server, and the requests of the receive loops that are past the test and before the end of the send.
pub record Racing : Type 0 where
  pub server : Server
  pub sending : List RequestChannel

module _ (codec : Codec) (limiter : Text → Limit) (conns : ℕ) where
  -- The receive loop of a connection takes up a packet, which is not empty, if it is not in `onRecv` for
  -- another one.
  pub record TakesUp (t : Racing) (conn : ℕ) (packet : Text) : Type 0 where
    pub known : conn < conns
    pub free : All (λ q. q.conn ≢ conn) t.sending
    pub some_bytes : packet ≢ []

  -- `conns` connections, each with one receive loop, so that no more than `conns` requests are past the test.
  pub data Step (t : Racing) : Racing → Type 0 where
    -- `(channels - 10) < len(this.reqCh)` is false.
    pass :
        (conn : ℕ) (packet : Text)
        → TakesUp t conn packet
        → length t.sending < conns
        → ltb t.server.channels (length t.server.req_ch + 10) ≡ false
        → Step t (record t { sending = t.sending ++ record { conn = conn; packet = packet } ∷ [] })
    -- It is true, and the request is answered with code 500.
    turn_away :
        (conn : ℕ) (packet : Text)
        → TakesUp t conn packet
        → ltb t.server.channels (length t.server.req_ch + 10) ≡ true
        → Step t (record t { server = (on_recv codec limiter conn packet t.server).0 })
    -- `this.reqCh <- …`, which waits while the channel is full.
    send :
        (before : List RequestChannel) (req : RequestChannel) (after : List RequestChannel)
        → t.sending ≡ before ++ req ∷ after
        → length t.server.req_ch < t.server.channels
        → Step t (record {
          server = record (t.server) { req_ch = t.server.req_ch ++ req ∷ [] };
          sending = before ++ after;
        })
    -- A worker takes a request.
    take : Step t (record t { server = go_recv codec limiter t.server })

  pub data Reach (s : Racing) : Racing → Type 0 where
    here : Reach s s
    next : {t u : Racing} → Reach s t → Step t u → Reach s u

-- A receive loop waits for room in the channel.
abbrev pub Blocks : Racing → Type 0
Blocks t = (0 < length t.sending) × (length t.server.req_ch ≡ t.server.channels)
