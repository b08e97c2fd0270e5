-- ===== src/Server/Start.antt =====
-- `NewServer`, `Server.listen`, `Run` and `Release` of server/server.go, with server/options.go: how a server starts and
-- ends. The registry is an interface, as in registry/interface.go.
pub mod Boot
pub mod Laws
mod Runs
use gffg.Prelude.{
  ℕ, ◌^◌, ◌≡◌, Option, none, some, List, [], ◌∷◌, ◌++◌, if◌then◌else◌, Bool, true, false,
}
use gffg.Prelude.Int.{ℤ, pos, negsuc, pos_part}
use gffg.Prelude.Text.{Text, codes}
use gffg.Prelude.Decimal.{format_int}
use gffg.Config.{Values, Conf, read_string, read_int}
use gffg.Common.{EthAddr, get_eth_ip}
use gffg.Registry.{
  Node, NodeOption, set_group, set_token, set_version, set_name, set_region, set_zone, set_campus,
  node, Ended, done, exited, panicked,
}
use gffg.Transport.Listener.{
  TransEvent, TransOption, set_max_message_size, set_enable_logging, set_address, set_event,
  set_ctx, System, new_listener, NewListener, listening, not_opened,
}

-- The methods of `IRegistry` that a server calls here, on the state of a registry.
pub record Methods (R : Type 0) : Type 0 where
  pub provider : Node → R → Ended R
  pub register : Text → Text → R → Ended R
  pub destroy : R → Ended R

-- The fields of `Server` that its start sets, and the number of workers that run. `sock` says whether
-- there is a listener whose `Close` has not been called, or has.
pub data Sock : Type 0 where
  no_sock : Sock
  open_sock : Sock
  closed_sock : Sock

pub record Started (R : Type 0) : Type 0 where
  pub registry : R
  pub sock : Sock
  pub addrs : Text
  pub coroutines : ℤ
  pub channels : ℕ
  pub workers : ℕ
  pub cancelled : Bool

-- `HandlerOption`: `Bind` and `Port`.
pub data HandlerOption : Type 0 where
  set_bind : Text → HandlerOption
  set_port : ℤ → HandlerOption

pub record RunOptions : Type 0 where
  pub bind : Text
  pub port : ℤ

abbrev apply_run : List HandlerOption → RunOptions → RunOptions
apply_run [] o = o
apply_run (set_bind a ∷ opts) o = apply_run opts (record o { bind = a })
apply_run (set_port n ∷ opts) o = apply_run opts (record o { port = n })

module _ (v : Values) (settings : List Text → Conf v) where
  abbrev str : List Text → Text → Text
  str path def = read_string v (settings (codes "server" ∷ path)) def

  -- The options of the node that `NewServer` gives to `Provider`.
  unfoldable pub server_node : Node
  server_node = node (
      set_version (str (codes "version" ∷ []) (codes "v0.0.1"))
      ∷ set_group (str (codes "group" ∷ []) [])
      ∷ set_name (str (codes "name" ∷ []) [])
      ∷ set_token (str (codes "token" ∷ []) [])
      ∷ set_region (str (codes "location" ∷ codes "region" ∷ []) [])
      ∷ set_zone (str (codes "location" ∷ codes "zone" ∷ []) [])
      ∷ set_campus (str (codes "location" ∷ codes "campus" ∷ []) [])
      ∷ [])

  module _ {R : Type 0} (methods : Methods R) where
    -- A channel of a negative size cannot be made.
    abbrev created : ℤ → ℤ → Ended R → Ended (Started R)
    created coroutines channels exited = exited
    created coroutines channels panicked = panicked
    created coroutines (negsuc n) (done r) = panicked
    created coroutines (pos n) (done r) = done (record {
      registry = r;
      sock = no_sock;
      addrs = [];
      coroutines = coroutines;
      channels = n;
      workers = 0;
      cancelled = false;
    })

    -- `NewServer`, with the registry of the options or the default one.
    unfoldable pub new_server : R → Ended (Started R)
    unfolding server_node
    new_server r =
        created (read_int v (settings (codes "server" ∷ codes "coroutines" ∷ [])) (pos 32))
          (read_int v (settings (codes "server" ∷ codes "channels" ∷ [])) (pos 10000))
          (methods.provider server_node r)

module _ {R : Type 0} (methods : Methods R) where
  abbrev with_registry : Started R → Ended R → Ended (Started R)
  with_registry s (done r) = done (record s { registry = r })
  with_registry s exited = exited
  with_registry s panicked = panicked

  abbrev listened : Started R → Text → Option Text → Ended (Started R)
  listened s port none = done s
  listened s port (some ip) =
      let addrs = ip ++ (codes ":" ++ port) in
      with_registry (record s { addrs = addrs }) (methods.register addrs (codes "rpc") s.registry)

  -- `Server.listen`: `split_host_port` is what `net.SplitHostPort` makes of the listener's address.
  unfoldable pub listen :
      Option (Text × Text) → Option (List EthAddr) → Started R → Ended (Started R)
  unfolding get_eth_ip
  listen none addrs s = done s
  listen (some (ip, port)) addrs s = listened s port (get_eth_ip addrs)

  abbrev started : Ended (Started R) → Ended (Started R)
  started (done s) = done (record s { sock = open_sock; workers = pos_part s.coroutines })
  started exited = exited
  started panicked = panicked

  abbrev with_listener :
      Option (Text × Text) → Option (List EthAddr) → Started R → NewListener → Ended (Started R)
  with_listener bound addrs s not_opened = done s
  with_listener bound addrs s (listening socket cfg false) = started (done s)
  with_listener bound addrs s (listening socket cfg true) = started (listen bound addrs s)

  abbrev run_options : List HandlerOption → RunOptions
  run_options opts = apply_run opts (record { bind = codes "0.0.0.0"; port = pos 0 })

  -- The options of the listener. `format_address` is that of buffstreams.
  abbrev pub listener_options : (Text → Text → Text) → RunOptions → List TransOption
  listener_options format_address o =
      set_max_message_size (pos (2 ^ 20))
      ∷ set_enable_logging true
      ∷ set_address (format_address o.bind (format_int o.port))
      ∷ set_event (record { listen = true; connect = true; closed = true; on_recv = true })
      ∷ set_ctx
      ∷ []

  -- `Run`.
  unfoldable pub run :
      (Text → Text → Text)
      → System
      → Option (Text × Text)
      → Option (List EthAddr)
      → List HandlerOption
      → Started R
      → Ended (Started R)
  unfolding listen
  run format_address sys bound addrs opts s =
      with_listener bound addrs s
        (new_listener sys (listener_options format_address (run_options opts)))

  abbrev closing : Started R → Sock → Ended (Started R)
  closing s no_sock = done (record s { cancelled = true })
  closing s open_sock = done (record s { sock = closed_sock; cancelled = true })
  closing s closed_sock = panicked

  abbrev releasing : Started R → Ended R → Ended (Started R)
  releasing s (done r) = closing (record s { registry = r }) s.sock
  releasing s exited = exited
  releasing s panicked = panicked

  -- `Release`.
  unfoldable pub release : Started R → Ended (Started R)
  release s = releasing s (methods.destroy s.registry)
