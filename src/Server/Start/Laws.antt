-- ===== src/Server/Start/Laws.antt =====
-- A server from its start to its end on the registry of registry/registry.go.
use gffg.Prelude.{ℕ, ◌^◌, ◌<◌, ◌≡◌, refl, Option, some, List, [], true}
use gffg.Prelude.Int.{pos_part}
use gffg.Prelude.Text.{Text, codes}
use gffg.Prelude.Decimal.{format_nat}
use gffg.Prelude.Split.{split, Lacks}
use gffg.Config.{Values, Conf}
use gffg.Common.{EthAddr, get_eth_ip}
use gffg.Registry.{
  Node, Registry, Ended, done, exited, panicked, RegisterRequest, Destroyed, Polaris, provide,
  register, destroy, deregister, host_and_port,
}
use gffg.Registry.Laws.{address, register-done, host_and_port-address}
use gffg.Transport.Listener.{System, open_socket, new_listener, init_opts}
use gffg.Server.Start.{
  Methods, open_sock, closed_sock, Started, HandlerOption, listen, run, release,
}

abbrev state_of : Ended (Registry × RegisterRequest) → Ended Registry
state_of (done x) = done x.0
state_of exited = exited
state_of panicked = panicked

abbrev kept : Registry → Ended Destroyed → Ended Registry
kept r (done x) = done r
kept r exited = exited
kept r panicked = panicked

-- The registry that `NewServer` takes by default.
abbrev pub default_methods : (v : Values) → (List Text → Conf v) → Polaris → Methods Registry
default_methods v settings polaris = record {
  provider = λ n r. provide v settings polaris n r;
  register = λ addr protocol r. state_of (register polaris addr protocol r);
  destroy = λ r. kept r (destroy r);
}

module _ (v : Values) (settings : List Text → Conf v) (polaris : Polaris)
    (accepts : (req : RegisterRequest) → polaris.register_instance req ≡ true)
    (format_address : Text → Text → Text) (sys : System) (sock : ℕ)
    (opens_all : (addr : Text) → open_socket sys addr ≡ some sock) (ip : Text) (port : ℕ)
    (l : Lacks b':' ip) (h : port < 2 ^ 63) (bound_ip : Text) (eth : Option (List EthAddr))
    (e : get_eth_ip eth ≡ some ip) (opts : List HandlerOption) (s : Started Registry) (n : Node)
    (p : s.registry.provider ≡ true) (q : s.registry.n ≡ some n) where
  -- The server with its listener and its workers, registered at the address.
  abbrev running : Started Registry
  running = record s {
    registry = record (s.registry) { addr = address ip port };
    addrs = address ip port;
    sock = open_sock;
    workers = pos_part s.coroutines;
  }

  run-running :
      run
        (default_methods v settings polaris)
        format_address
        sys
        (some (bound_ip, format_nat port))
        eth
        opts
        s
      ≡ done running
  unfolding run listen new_listener init_opts
  run-running =
      rw
        (
          opens_all _,
          e,
          register-done polaris (codes "rpc") ip port l h s.registry n p q (accepts _),
        )
        refl

  release-running :
      release (default_methods v settings polaris) running
      ≡ done (record running { sock = closed_sock; cancelled = true })
  unfolding release destroy deregister
  release-running = rw (p, q, host_and_port-address ip port l h) refl

  release_unstarted :
      s.registry.addr ≡ [] → release (default_methods v settings polaris) s ≡ panicked
  unfolding release destroy deregister host_and_port split
  release_unstarted a = rw (p, q, a) refl

  -- With the default registry, provided and accepting, with a listener, and where GetEthIp finds an
  -- IP without a colon: Run registers the server at this IP, whatever IP it listens on, and at the
  -- port that it listens on, and starts its workers; Release then ends it with its listener closed;
  -- and Release of a server that has not run panics.
  pub release-run :
      s.registry.addr ≡ []
      → (run
            (default_methods v settings polaris)
            format_address
            sys
            (some (bound_ip, format_nat port))
            eth
            opts
            s
          ≡ done running)
        × (release (default_methods v settings polaris) running
            ≡ done (record running { sock = closed_sock; cancelled = true }))
        × (release (default_methods v settings polaris) s ≡ panicked)
  release-run a = (run-running, release-running, release_unstarted a)
