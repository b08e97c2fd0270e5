-- ===== src/Transport/Dial.antt =====
-- How a socket is made and closed, in transport/socket.go. Connections of the system are known by numbers.
use gffg.Prelude.{ℕ, Option, none, some, List, [], ◌∷◌, ◌++◌}
use gffg.Prelude.Text.{Text}

-- `net.ResolveTCPAddr` and `net.DialTCP`; `none` is an error.
pub record Network : Type 0 where
  pub resolve_tcp_addr : Text → Option Text
  pub dial_tcp : Text → Option ℕ

-- `Socket`: the connection, and that of its response and of its request; nil before they are set.
pub record Socket : Type 0 where
  pub conn : Option ℕ
  pub response : Option ℕ
  pub request : Option ℕ

-- `SocketByConn`. `SetKeepAlive` is a call of the system whose error is dropped.
abbrev pub socket_by_conn : ℕ → Socket
socket_by_conn t = record { conn = some t; response = some t; request = some t }

abbrev dialed : Option ℕ → Option Socket
dialed none = none
dialed (some t) = some (socket_by_conn t)

abbrev resolved : Network → Option Text → Option Socket
resolved net none = none
resolved net (some tcp_addr) = dialed (net.dial_tcp tcp_addr)

-- `SocketByAddr`; `none` is an error, with which the callers do not use the socket.
unfoldable pub socket_by_addr : Network → Text → Option Socket
socket_by_addr net addr = resolved net (net.resolve_tcp_addr addr)

-- `Socket.Close`, on the connections that have been closed.
abbrev pub close : Socket → List ℕ → List ℕ
close s closed = closed_by s.conn closed
  where
    closed_by : Option ℕ → List ℕ → List ℕ
    closed_by none closed = closed
    closed_by (some t) closed = closed ++ t ∷ []
