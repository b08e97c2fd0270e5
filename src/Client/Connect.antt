-- ===== src/Client/Connect.antt =====
-- `NewClient` of client/client.go, `newPool` and `connect` of client/pools.go: how a client starts, and
-- how it comes to its connections.
pub mod Laws
mod Runs
use gffg.Prelude.{ℕ, ◌≡◌, Option, none, some, List, [], ◌∷◌}
use gffg.Prelude.Int.{ℤ}
use gffg.Prelude.Text.{Text}
use gffg.Common.{EthAddr, get_eth_ip}
use gffg.Config.{Values, Conf}
use gffg.Registry.{
  Registry, empty_registry, Polaris, Ended, done, exited, panicked, consume, get_node, Found, found,
  not_found, NodeError,
}
use gffg.Transport.Dial.{Network, Socket, socket_by_addr}
use gffg.Client.Pool.{Pool, Dialed, dial_addr}

-- `ClientOption`: `Registry`, with a registry of this repository.
pub data ClientOption : Type 0 where
  set_registry : Registry → ClientOption

abbrev pub apply_all : List ClientOption → Option Registry → Option Registry
apply_all [] registry = registry
apply_all (set_registry r ∷ opts) registry = apply_all opts (some r)

abbrev pub or_default : Option Registry → Registry
or_default none = empty_registry
or_default (some r) = r

-- `Client` with its pool, and `metrics.Host`, which `newPool` sets.
pub record Client : Type 0 where
  pub group : Text
  pub registry : Registry
  pub pool : Pool
  pub host : Text

abbrev host_of : Option Text → Text
host_of none = []
host_of (some ip) = ip

abbrev pub pooled : Text → Option (List EthAddr) → Ended Registry → Ended Client
pooled group addrs exited = exited
pooled group addrs panicked = panicked
pooled group addrs (done r) = done (record {
  group = group;
  registry = r;
  pool = record { rpcconn = λ k. []; dials = 0 };
  host = host_of (get_eth_ip addrs);
})

module _ (v : Values) (settings : List Text → Conf v) where
  -- `newPool`.
  unfoldable pub new_pool : Polaris → Option (List EthAddr) → Text → Registry → Ended Client
  unfolding get_eth_ip
  new_pool polaris addrs group r = pooled group addrs (consume v settings polaris r)

  -- `NewClient`.
  unfoldable pub new_client :
      Polaris → Option (List EthAddr) → Text → List ClientOption → Ended Client
  unfolding new_pool
  new_client polaris addrs group opts =
      new_pool polaris addrs group (or_default (apply_all opts none))

-- What a dial meets: the generated name, the answers of Polaris and of the network, and the time.
pub record Attempt : Type 0 where
  pub name : Text
  pub polaris : Polaris
  pub network : Network
  pub now : ℕ

-- `GetHost` and `GetPort` of the instances.
module _ (host : ℕ → Text) (port : ℕ → ℤ) where
  abbrev of_instance : Network → Found → Option (Socket × ℕ)
  of_instance net (not_found e) = none
  of_instance net (found instance_id) =
      of_socket instance_id (socket_by_addr net (dial_addr (host instance_id) (port instance_id)))
    where
      of_socket : ℕ → Option Socket → Option (Socket × ℕ)
      of_socket instance_id none = none
      of_socket instance_id (some s) = some (s, instance_id)

  -- `connect`, up to the goroutine that handles the socket; `none` is an error.
  unfoldable pub connect : Registry → Text → Text → Attempt → Option (Socket × ℕ)
  unfolding get_node socket_by_addr
  connect r group svrname a = of_instance a.network (get_node a.polaris group svrname r)

  -- The body of the loop of `genCon`.
  abbrev client_of : Attempt → Option (Socket × ℕ) → Option Dialed
  client_of a none = none
  client_of a (some (s, instance_id)) = with_conn instance_id a s.conn
    where
      with_conn : ℕ → Attempt → Option ℕ → Option Dialed
      with_conn instance_id a none = none
      with_conn instance_id a (some t) =
          some (record { name = a.name; socket = t; instance_id = instance_id; stamp = a.now })

  unfoldable pub gen_client : Registry → Text → Text → Attempt → Option Dialed
  unfolding connect
  gen_client r group svrname a = client_of a (connect r group svrname a)
