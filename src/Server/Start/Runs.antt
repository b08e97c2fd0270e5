-- ===== src/Server/Start/Runs.antt =====
-- A server that starts and ends.
use gffg.Prelude.{◌≡◌, refl, arith, Option, none, some, List, [], ◌∷◌, ◌++◌, true, false}
use gffg.Prelude.Int.{pos}
use gffg.Prelude.Text.{Text, codes}
use gffg.Prelude.Decimal.{format_nat, parse_int}
use gffg.Config.{Conf, string, read_string, read_int}
use gffg.Config.Sample.{plain}
use gffg.Common.{EthAddr, ip_net, other_addr, get_eth_ip}
use gffg.Registry.{Node, Registry, empty_registry, done, panicked, Polaris, quota_ok, provide}
use gffg.Transport.Listener.{System, open_socket}
use gffg.Server.Start.{
  no_sock, open_sock, closed_sock, Started, set_port, set_bind, run, release, new_server,
  server_node,
}
use gffg.Server.Start.Laws.{default_methods, release-run}

-- Every setting is one text, which is not a number.
abbrev setting : List Text → Conf plain
setting path = string (codes "127.0.0.1:8091")

abbrev polaris : Polaris
polaris = record {
  new_consumer = λ cfg. true;
  new_provider = λ cfg. true;
  register_instance = λ req. true;
  get_quota = λ req. quota_ok;
  get_one_instance = λ group name. none;
}

abbrev svr : Node
svr = server_node plain setting

abbrev registry : Registry
registry = record { n = some svr; addr = []; consumer = false; provider = true; limiter = true }

abbrev server : Started Registry
server = record {
  registry = registry;
  sock = no_sock;
  addrs = [];
  coroutines = pos 32;
  channels = 10000;
  workers = 0;
  cancelled = false;
}

-- A number that cannot be read leaves the defaults.
created :
    new_server plain setting (default_methods plain setting polaris) empty_registry ≡ done server
unfolding new_server read_int parse_int provide read_string
created = refl

abbrev cards : Option (List EthAddr)
cards = some (
    other_addr
    ∷ ip_net true (some (codes "127.0.0.1"))
    ∷ ip_net false none
    ∷ ip_net false (some (codes "10.0.0.1"))
    ∷ [])

abbrev serving : Started Registry
serving = record server {
  registry = record registry { addr = codes "10.0.0.1:8080" };
  addrs = codes "10.0.0.1:8080";
  sock = open_sock;
  workers = 32;
}

abbrev sys : System
sys = record { resolve_tcp_addr = λ addr. some addr; listen_tcp = λ addr. some 3 }

release-run_example :
    (run
        (default_methods plain setting polaris)
        (λ host port. host ++ (codes ":" ++ port))
        sys
        (some (codes "::", codes "8080"))
        cards
        (set_bind (codes "0.0.0.0") ∷ set_port (pos 0) ∷ [])
        server
      ≡ done serving)
    × (release (default_methods plain setting polaris) serving
        ≡ done (record serving { sock = closed_sock; cancelled = true }))
    × (release (default_methods plain setting polaris) server ≡ panicked)
unfolding get_eth_ip format_nat
release-run_example =
    release-run plain setting polaris (λ req. refl) (λ host port. host ++ (codes ":" ++ port)) sys 3
      (λ addr. unfold open_socket in refl) (codes "10.0.0.1") 8080 (omega arith) (omega arith)
      (codes "::") cards refl (set_bind (codes "0.0.0.0") ∷ set_port (pos 0) ∷ []) server svr refl
      refl refl
