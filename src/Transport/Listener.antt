-- ===== src/Transport/Listener.antt =====
-- transport/listener.go and transport/options.go: the options of a listener with their defaults, and
-- the loop that accepts connections.
pub mod Laws
mod Runs
use gffg.Prelude.{
  ℕ, ◌^◌, ◌≡◌, Option, none, some, List, [], ◌∷◌, ◌++◌, if◌then◌else◌, Bool, true, false,
}
use gffg.Prelude.Int.{ℤ, pos, eq_ℤ}
use gffg.Prelude.Text.{Text}
use gffg.Transport.Socket.{default_header_size, default_max_message_size}

-- `TransEvent`: which callbacks are set. `options` less the context, which nothing reads.
pub record TransEvent : Type 0 where
  pub listen : Bool
  pub connect : Bool
  pub closed : Bool
  pub on_recv : Bool

pub record Options : Type 0 where
  pub max_message_size : ℤ
  pub header_byte_size : ℤ
  pub enable_logging : Bool
  pub address : Text
  pub event : TransEvent

-- `TransOption`.
pub data TransOption : Type 0 where
  set_max_message_size : ℤ → TransOption
  set_header_byte_size : ℤ → TransOption
  set_enable_logging : Bool → TransOption
  set_address : Text → TransOption
  set_event : TransEvent → TransOption
  set_ctx : TransOption

abbrev apply : TransOption → Options → Options
apply (set_max_message_size n) o = record o { max_message_size = n }
apply (set_header_byte_size n) o = record o { header_byte_size = n }
apply (set_enable_logging b) o = record o { enable_logging = b }
apply (set_address a) o = record o { address = a }
apply (set_event e) o = record o { event = e }
apply set_ctx o = o

abbrev apply_all : List TransOption → Options → Options
apply_all [] o = o
apply_all (f ∷ opts) o = apply_all opts (apply f o)

-- `initOpts`.
unfoldable pub init_opts : List TransOption → Options
init_opts opts = apply_all opts (record {
  max_message_size = pos 0;
  header_byte_size = pos 0;
  enable_logging = false;
  address = [];
  event = record { listen = false; connect = false; closed = false; on_recv = false };
})

abbrev default_size : ℕ → ℤ → ℤ
default_size n size = if eq_ℤ size (pos 0) then pos n else size

abbrev with_defaults : Options → Options
with_defaults o = record o {
  max_message_size = default_size default_max_message_size o.max_message_size;
  header_byte_size = default_size default_header_size o.header_byte_size;
}

-- `net.ResolveTCPAddr` and `net.ListenTCP`, with the sockets known by numbers; `none` is an error.
pub record System : Type 0 where
  pub resolve_tcp_addr : Text → Option Text
  pub listen_tcp : Text → Option ℕ

abbrev listened_on : System → Option Text → Option ℕ
listened_on sys none = none
listened_on sys (some tcp_addr) = sys.listen_tcp tcp_addr

-- The socket of `openSocket`.
unfoldable pub open_socket : System → Text → Option ℕ
open_socket sys address = listened_on sys (sys.resolve_tcp_addr address)

-- `NewListener`: the listener with its socket and its options, and whether the `Listen` callback has run; or the error of
-- `openSocket`.
pub data NewListener : Type 0 where
  listening : ℕ → Options → Bool → NewListener
  not_opened : NewListener

abbrev opened : Options → Option ℕ → NewListener
opened cfg (some socket) = listening socket cfg cfg.event.listen
opened cfg none = not_opened

unfoldable pub new_listener : System → List TransOption → NewListener
unfolding init_opts open_socket
new_listener sys opts =
    let cfg = with_defaults (init_opts opts) in opened cfg (open_socket sys cfg.address)

-- What happens to a listener: `AcceptTCP` returns a connection or an error, or `Close` is called.
pub data Event : Type 0 where
  accepted : ℕ → Event
  accept_error : Event
  close : Event

-- `blockListen`, still in its loop or returned, with the connections that it has given a receive loop.
pub data Serving : Type 0 where
  looping : List ℕ → Serving
  returned : List ℕ → Serving

-- `shutdown`: the channel `shutdownChannel` is closed.
unfoldable pub block_listen : Bool → List ℕ → List Event → Serving
block_listen shutdown served [] = looping served
block_listen shutdown served (accepted conn ∷ events) =
    block_listen shutdown (served ++ conn ∷ []) events
block_listen true served (accept_error ∷ events) = returned served
block_listen false served (accept_error ∷ events) = block_listen false served events
block_listen shutdown served (close ∷ events) = block_listen true served events
