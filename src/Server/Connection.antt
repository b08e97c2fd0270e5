-- ===== src/Server/Connection.antt =====
-- A connection of the server: `Socket.onRecv` of transport/socket.go with the callbacks `onRecv` and
-- `closed` of server/server.go, as `blockListen` starts it.
pub mod Laws
use gffg.Prelude.{ℕ, ◌^◌, some}
use gffg.Prelude.Text.{Text}
use gffg.Proto.{Codec}
use gffg.Transport.Socket
use gffg.Server.Handle.{Limit}
use gffg.Server.Queue.{Server, Received, returned, panicked, blocked, on_recv, closed}

-- A send on a full channel would keep the loop waiting; `on_recv` never comes to it.
abbrev pub as_callback : Server × Received → Socket.Callback Server
as_callback (s, returned e) = Socket.returned s
as_callback (s, panicked p) = Socket.panicked p s
as_callback (s, blocked) = Socket.returned s

abbrev pub on_closed : Server → Server
on_closed s = record s { state = closed s.state }

module _ (codec : Codec) (limiter : Text → Limit) where
  abbrev pub on_packet : ℕ → Text → Server → Socket.Callback Server
  on_packet conn packet s = as_callback (on_recv codec limiter conn packet s)

  -- The connection with this number, over the segments that arrive.
  unfoldable pub serve_conn : ℕ → Socket.Conn → Server → Socket.Outcome Server
  unfolding Socket.on_recv
  serve_conn conn segments s =
      Socket.on_recv 8 (2 ^ 20) (on_packet conn) (some on_closed) segments s
