-- ===== src/Client/Connect/Runs.antt =====
-- A new client whose dials get through every other time.
use gffg.Prelude.{
  ℕ, ◌%◌, ◌==◌, ◌≡◌, refl, none, some, List, [], ◌∷◌, length, All, if◌then◌else◌, true,
}
use gffg.Prelude.Int.{ℤ, pos}
use gffg.Prelude.Text.{Text, codes}
use gffg.Prelude.Decimal.{format_int}
use gffg.Config.{Conf, string, read_string}
use gffg.Config.Sample.{plain}
use gffg.Common.{get_eth_ip}
use gffg.Registry.{empty_registry, Polaris, quota_ok, done, consume}
use gffg.Client.Pool.{gen_con, dial_addr}
use gffg.Client.Connect.{Attempt, Client, new_client, new_pool, gen_client}
use gffg.Client.Connect.Laws.{ConnectedIn, successes, gen_con-Connected}

abbrev settings : List Text → Conf plain
settings path = string (codes "127.0.0.1:8091")

abbrev polaris : Polaris
polaris = record {
  new_consumer = λ cfg. true;
  new_provider = λ cfg. true;
  register_instance = λ req. true;
  get_quota = λ req. quota_ok;
  get_one_instance = λ group name. some (some 7);
}

-- The n-th attempt connects if n is even.
abbrev attempts : ℕ → Attempt
attempts n = record {
  name = n ∷ [];
  polaris = polaris;
  network = record {
    resolve_tcp_addr = λ addr. some addr;
    dial_tcp = λ addr. if n % 2 == 0 then some n else none;
  };
  now = 5;
}

abbrev host : ℕ → Text
host i = codes "10.0.0.1"

abbrev port : ℕ → ℤ
port i = pos 8080

abbrev cl : Client
cl = record {
  group = codes "g";
  registry = record empty_registry { consumer = true };
  pool = record { rpcconn = λ k. []; dials = 0 };
  host = [];
}

cl_started : new_client plain settings polaris none (codes "g") [] ≡ done cl
unfolding new_client new_pool consume get_eth_ip read_string
cl_started = refl

four_of_eight : successes host port (codes "g") (codes "user") attempts 8 0 ≡ 4
unfolding successes dial_addr format_int
four_of_eight = refl

gen_con-Connected_example :
    All (ConnectedIn host port (codes "g") (codes "user") attempts 0 8) (
      gen_con
        (λ k. gen_client host port cl.registry (codes "g") (codes "user") (attempts k))
        (codes "g")
        (codes "user")
        8
        0)
    × (length (
          gen_con
            (λ k. gen_client host port cl.registry (codes "g") (codes "user") (attempts k))
            (codes "g")
            (codes "user")
            8
            0)
        ≡ successes host port (codes "g") (codes "user") attempts 8 0)
gen_con-Connected_example =
    gen_con-Connected plain settings polaris none (codes "g") [] cl host port (codes "g")
      (codes "user") attempts 8 0 cl_started
