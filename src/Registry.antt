-- ===== src/Registry.antt =====
-- registry/registry.go and registry/options.go: the client of Polaris. What Polaris answers is a
-- parameter; a fatal log line ends the process.
pub mod Laws
mod Runs
use gffg.Prelude.{
  ℕ, ◌≡◌, Option, none, some, List, [], ◌∷◌, ◌++◌, if◌then◌else◌, Bool, true, false, not,
}
use gffg.Prelude.Int.{ℤ, pos}
use gffg.Prelude.Text.{Text, codes, text_eq}
use gffg.Prelude.Decimal.{parse_int}
use gffg.Prelude.Split.{split}
use gffg.Config.{Values, Conf, read_string, read_int64, read_bool}

pub record Location : Type 0 where
  pub region : Text
  pub zone : Text
  pub campus : Text

-- `nodeopts`.
pub record Node : Type 0 where
  pub group : Text
  pub name : Text
  pub version : Text
  pub token : Text
  pub location : Location

-- `NodeOption`: the functions of the names of the constructors.
pub data NodeOption : Type 0 where
  set_group set_token set_version set_name : Text → NodeOption
  set_region set_zone set_campus : Text → NodeOption

abbrev apply_node : NodeOption → Node → Node
apply_node (set_group t) n = record n { group = t }
apply_node (set_token t) n = record n { token = t }
apply_node (set_version t) n = record n { version = t }
apply_node (set_name t) n = record n { name = t }
apply_node (set_region t) n = record n { location = record (n.location) { region = t } }
apply_node (set_zone t) n = record n { location = record (n.location) { zone = t } }
apply_node (set_campus t) n = record n { location = record (n.location) { campus = t } }

abbrev pub apply_nodes : List NodeOption → Node → Node
apply_nodes [] n = n
apply_nodes (o ∷ opts) n = apply_nodes opts (apply_node o n)

-- `Node(opts...)`.
unfoldable pub node : List NodeOption → Node
node opts = apply_nodes opts (record {
  group = [];
  name = [];
  version = [];
  token = [];
  location = record { region = []; zone = []; campus = [] };
})

-- `registry`; of the three interfaces of Polaris it is kept whether they are set.
pub record Registry : Type 0 where
  pub n : Option Node
  pub addr : Text
  pub consumer : Bool
  pub provider : Bool
  pub limiter : Bool

-- `Registry()`.
abbrev pub empty_registry : Registry
empty_registry = record { n = none; addr = []; consumer = false; provider = false; limiter = false }

-- How a method ends; `exited` is `zzlog.Fatal`, which ends the process.
pub data Ended {ℓ} (A : Type ℓ) : Type ℓ where
  done : A → Ended A
  exited : Ended A
  panicked : Ended A

-- The part of the configuration of Polaris that is set, `prometheus.Config` with the interval in seconds.
pub record Reporter : Type 0 where
  pub type : Text
  pub interval : ℤ
  pub address : Text

pub record PolarisConfig : Type 0 where
  pub addresses : List Text
  pub reporter : Option Reporter

-- `InstanceRegisterRequest` and `InstanceDeRegisterRequest`.
pub record RegisterRequest : Type 0 where
  pub service : Text
  pub namespace : Text
  pub version : Text
  pub protocol : Text
  pub location : Location
  pub host : Text
  pub port : ℤ
  pub service_token : Text
  pub ttl : ℕ

pub record DeregisterRequest : Type 0 where
  pub service : Text
  pub namespace : Text
  pub host : Text
  pub port : ℤ
  pub service_token : Text

pub record QuotaRequest : Type 0 where
  pub method : Text
  pub namespace : Text
  pub service : Text

-- `GetQuota`: an error, the code QuotaResultOk, or another code.
pub data Quota : Type 0 where
  quota_error quota_ok quota_limited : Quota

-- Polaris: whether the interfaces can be made, and its answers. An instance is known by its number.
pub record Polaris : Type 0 where
  pub new_consumer : PolarisConfig → Bool
  pub new_provider : PolarisConfig → Bool
  pub register_instance : RegisterRequest → Bool
  pub get_quota : QuotaRequest → Quota
  pub get_one_instance : Text → Text → Option (Option ℕ)

-- The two parts of `strings.Split(addr, ":")` that are read; `addrs[1]` panics where there is one part.
pub data HostPort : Type 0 where
  host_port : Text → ℤ → HostPort
  no_port : HostPort

abbrev first_two : List Text → HostPort
first_two [] = no_port
first_two (host ∷ []) = no_port
first_two (host ∷ port ∷ rest) = host_port host ((parse_int port).value)

unfoldable pub host_and_port : Text → HostPort
host_and_port addr = first_two (split addr b':')

module _ (v : Values) (settings : List Text → Conf v) where
  -- The configuration that `Provider` and `Consumer` make.
  unfoldable pub polaris_config : Text → PolarisConfig
  polaris_config addrs = record {
    addresses = split addrs b',';
    reporter =
        if read_bool v (settings (codes "polaris" ∷ codes "reporter" ∷ codes "enable" ∷ []))
        then some (record {
          type =
              read_string v
                (settings
                  (codes "polaris" ∷ codes "reporter" ∷ codes "prometheus" ∷ codes "type" ∷ []))
                (codes "pull");
          interval =
              read_int64 v
                (settings
                  (codes "polaris" ∷ codes "reporter" ∷ codes "prometheus" ∷ codes "interval" ∷ []))
                (pos 5);
          address =
              read_string v
                (settings
                  (codes "polaris" ∷ codes "reporter" ∷ codes "prometheus" ∷ codes "address" ∷ []))
                (codes "127.0.0.1:9091");
        })
        else none;
  }

  abbrev pub polaris_addrs : Text
  polaris_addrs = read_string v (settings (codes "polaris" ∷ codes "addrs" ∷ [])) []

  -- `Provider`.
  unfoldable pub provide : Polaris → Node → Registry → Ended Registry
  provide polaris n r =
      if text_eq polaris_addrs []
      then exited
      else if polaris.new_provider (polaris_config polaris_addrs)
      then done (record r { n = some n; provider = true; limiter = true })
      else exited

  -- `Consumer`.
  unfoldable pub consume : Polaris → Registry → Ended Registry
  consume polaris r =
      if text_eq polaris_addrs []
      then exited
      else if polaris.new_consumer (polaris_config polaris_addrs)
      then done (record r { consumer = true })
      else exited

module _ (polaris : Polaris) where
  abbrev registering : Node → Text → Registry → HostPort → Ended (Registry × RegisterRequest)
  registering n protocol r no_port = panicked
  registering n protocol r (host_port host port) =
      let req : RegisterRequest = record {
        service = n.name;
        namespace = n.group;
        version = n.version;
        protocol = protocol;
        location = n.location;
        host = host;
        port = port;
        service_token = n.token;
        ttl = 1;
      } in
      if polaris.register_instance req then done (r, req) else exited

  abbrev with_node : Option Node → Text → Text → Registry → Ended (Registry × RegisterRequest)
  with_node none addr protocol r = panicked
  with_node (some n) addr protocol r =
      registering n protocol (record r { addr = addr }) (host_and_port addr)

  -- `Register`, with the request that Polaris has got.
  unfoldable pub register : Text → Text → Registry → Ended (Registry × RegisterRequest)
  register addr protocol r = if r.provider then with_node r.n addr protocol r else exited

abbrev deregistering : Node → HostPort → Ended DeregisterRequest
deregistering n no_port = panicked
deregistering n (host_port host port) = done (record {
  service = n.name;
  namespace = n.group;
  host = host;
  port = port;
  service_token = n.token;
})

abbrev deregister_node : Option Node → Text → Ended DeregisterRequest
deregister_node none addr = panicked
deregister_node (some n) addr = deregistering n (host_and_port addr)

-- `deregister`.
unfoldable pub deregister : Text → Registry → Ended DeregisterRequest
deregister addr r = if r.provider then deregister_node r.n addr else exited

-- What `Destroy` has done at its end: the request to Polaris, and the interfaces destroyed.
pub record Destroyed : Type 0 where
  pub request : DeregisterRequest
  pub provider : Bool
  pub consumer : Bool
  pub limiter : Bool

abbrev destroyed : Registry → Ended DeregisterRequest → Ended Destroyed
destroyed r (done req) =
    done
      (record { request = req; provider = r.provider; consumer = r.consumer; limiter = r.limiter })
destroyed r exited = exited
destroyed r panicked = panicked

-- `Destroy`.
unfoldable pub destroy : Registry → Ended Destroyed
unfolding deregister
destroy r = destroyed r (deregister r.addr r)

pub data LimitError : Type 0 where
  quota_failed too_many_requests : LimitError

abbrev quota_result : Quota → Ended (Option LimitError)
quota_result quota_error = done (some quota_failed)
quota_result quota_ok = done none
quota_result quota_limited = done (some too_many_requests)

abbrev limit_node : Polaris → Bool → Text → Option Node → Ended (Option LimitError)
limit_node polaris set call none = panicked
limit_node polaris false call (some n) = panicked
limit_node polaris true call (some n) =
    quota_result
      (polaris.get_quota (record { method = call; namespace = n.group; service = n.name }))

-- `Limiter`.
unfoldable pub limit : Polaris → Text → Registry → Ended (Option LimitError)
limit polaris call r = limit_node polaris r.limiter call r.n

pub data NodeError : Type 0 where
  no_consumer lookup_failed no_instance : NodeError

pub data Found : Type 0 where
  found : ℕ → Found
  not_found : NodeError → Found

abbrev instance_of : Option (Option ℕ) → Found
instance_of none = not_found lookup_failed
instance_of (some none) = not_found no_instance
instance_of (some (some ins)) = found ins

-- `GetNode`.
unfoldable pub get_node : Polaris → Text → Text → Registry → Found
get_node polaris group name r =
    if r.consumer then instance_of (polaris.get_one_instance group name) else not_found no_consumer
