-- ===== src/Registry/Runs.antt =====
-- A registry on a Polaris that accepts every request.
use gffg.Prelude.{◌≡◌, refl, arith, some, List, [], ◌∷◌, true, false}
use gffg.Prelude.Int.{pos}
use gffg.Prelude.Text.{Text, codes, text_eq}
use gffg.Prelude.Decimal.{format_nat, parse_int}
use gffg.Prelude.Split.{split}
use gffg.Config.{Conf, string, read_string}
use gffg.Registry.{
  Node, node, set_group, set_name, set_zone, Registry, empty_registry, done, exited, panicked,
  Polaris, Quota, quota_ok, quota_limited, QuotaRequest, limit, too_many_requests, get_node, found,
  destroy, deregister, RegisterRequest, register, host_and_port, consume, provide,
}
use gffg.Config.Sample.{plain}
use gffg.Registry.Laws.{register-deregister, destroy_early}
use gffg.Client.Pool.{dial_addr}

-- Every setting is one address.
abbrev settings : List Text → Conf plain
settings path = string (codes "127.0.0.1:8091")

abbrev quota : QuotaRequest → Quota
quota req = elim (text_eq req.method (codes "Echo")) [ true ↦ quota_ok | false ↦ quota_limited ]

abbrev polaris : Polaris
polaris = record {
  new_consumer = λ cfg. true;
  new_provider = λ cfg. true;
  register_instance = λ req. true;
  get_quota = quota;
  get_one_instance = λ group name. some (some 7);
}

abbrev svr : Node
svr = node (set_group (codes "g") ∷ set_name (codes "user") ∷ set_zone (codes "z") ∷ [])

abbrev provided : Registry
provided = record { n = some svr; addr = []; consumer = false; provider = true; limiter = true }

abbrev serving : Registry
serving = record provided { addr = codes "10.0.0.1:8080" }

abbrev sent : RegisterRequest
sent = record {
  service = svr.name;
  namespace = svr.group;
  version = svr.version;
  protocol = codes "rpc";
  location = svr.location;
  host = codes "10.0.0.1";
  port = pos 8080;
  service_token = svr.token;
  ttl = 1;
}

limited : limit polaris (codes "Other") provided ≡ done (some too_many_requests)
unfolding limit
limited = refl

instance_seven :
    get_node polaris (codes "g") (codes "user") (record empty_registry { consumer = true })
    ≡ found 7
unfolding get_node
instance_seven = refl

register-deregister_example :
    (sent.host ≡ codes "10.0.0.1")
    × (sent.port ≡ pos 8080)
    × (dial_addr sent.host sent.port ≡ codes "10.0.0.1:8080")
    × (deregister serving.addr serving
        ≡ done (record {
          service = sent.service;
          namespace = sent.namespace;
          host = sent.host;
          port = sent.port;
          service_token = sent.service_token;
        }))
unfolding register host_and_port split format_nat parse_int
register-deregister_example =
    register-deregister polaris (codes "rpc") (codes "10.0.0.1") 8080 (omega arith) (omega arith)
      provided serving sent refl

destroy_early_example :
    (destroy (record empty_registry { consumer = true }) ≡ exited) × (destroy provided ≡ panicked)
unfolding consume provide read_string
destroy_early_example =
    destroy_early plain settings polaris svr (record empty_registry { consumer = true }) provided
      refl refl
