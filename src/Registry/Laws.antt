-- ===== src/Registry/Laws.antt =====
-- What a server registers is what its clients dial and what it deregisters; and the early end of a registry.
use gffg.Prelude.{
  ℕ, ◌^◌, ◌<◌, ◌≡◌, ◌≢◌, refl, sym, ap, ◌∙◌, arith, none, some, List, [], ◌∷◌, ◌++◌, if◌then◌else◌,
  Bool, true, false, Bool-cases, Option-cases, inl, inr,
}
use mathlib.Core.Path.{subst}
use gffg.Prelude.Int.{pos}
use gffg.Prelude.Text.{Text, codes}
use gffg.Prelude.Decimal.{
  Parsed, parse_int, format_int, format_nat, IsDigits, format_nat-IsDigits, parse_int-format_int,
}
use gffg.Prelude.Split.{split, Lacks, split-append, split-Lacks}
use gffg.Config.{Values, Conf}
use gffg.Registry.{
  Node, Registry, empty_registry, Ended, done, exited, panicked, RegisterRequest, Polaris,
  host_port, first_two, host_and_port, register, deregister, destroy, provide, consume,
}
use gffg.Client.Pool.{dial_addr}

digits-Lacks : (s : Text) → IsDigits s → Lacks b':' s
digits-Lacks [] h = tt
digits-Lacks (c ∷ s) (lo, hi, h) = (λ e. absurd (omega (arith, hi, e)), digits-Lacks s h)

-- `ip:port`, as `Server.listen` prints it.
abbrev pub address : Text → ℕ → Text
address ip port = ip ++ (codes ":" ++ format_nat port)

pub host_and_port-address :
    (ip : Text) (port : ℕ)
    → Lacks b':' ip
    → port < 2 ^ 63
    → host_and_port (address ip port) ≡ host_port ip (pos port)
unfolding host_and_port
host_and_port-address ip port l h =
    ap first_two (
      split-append ip (format_nat port) b':' l
      ∙ ap (λ parts. ip ∷ parts)
          (split-Lacks (format_nat port) b':'
            (digits-Lacks (format_nat port) (format_nat-IsDigits port))))
    ∙ ap (λ (p : Parsed). host_port ip p.value) (read port h)
  where
    read : (n : ℕ) → n < 2 ^ 63 → parse_int (format_nat n) ≡ record { value = pos n; ok = true }
    read n h = unfold format_int in parse_int-format_int (pos n) h

done_eq : {A : Type 0} (x y : A) → done x ≡ done y → x ≡ y
done_eq x y e = cc e

not_exited : {A : Type 0} (m : Ended A) (x : A) → m ≡ exited → m ≢ done x
not_exited m x e f = cc (e, f)

not_panicked : {A : Type 0} (m : Ended A) (x : A) → m ≡ panicked → m ≢ done x
not_panicked m x e f = cc (e, f)

module _ (polaris : Polaris) (protocol ip : Text) (port : ℕ) (l : Lacks b':' ip)
    (h : port < 2 ^ 63) where
  -- The request for the address.
  abbrev pub request : Node → RegisterRequest
  request n = record {
    service = n.name;
    namespace = n.group;
    version = n.version;
    protocol = protocol;
    location = n.location;
    host = ip;
    port = pos port;
    service_token = n.token;
    ttl = 1;
  }

  -- The request names the address, as its clients dial it, and the registry takes it back.
  abbrev Registered : Registry × RegisterRequest → Type 0
  Registered x =
      (x.1.host ≡ ip)
      × (x.1.port ≡ pos port)
      × (dial_addr x.1.host x.1.port ≡ address ip port)
      × (deregister x.0.addr x.0
          ≡ done (record {
            service = x.1.service;
            namespace = x.1.namespace;
            host = x.1.host;
            port = x.1.port;
            service_token = x.1.service_token;
          }))

  request-Registered :
      (r : Registry) (n : Node)
      → r.provider ≡ true
      → r.n ≡ some n
      → Registered (record r { addr = address ip port }, request n)
  unfolding deregister dial_addr format_int
  request-Registered r n p q = (refl, refl, refl, rw (p, q, host_and_port-address ip port l h) refl)

  register_node :
      (r : Registry) (n : Node)
      → r.provider ≡ true
      → r.n ≡ some n
      → register polaris (address ip port) protocol r ≡ (
          if polaris.register_instance (request n)
          then done (record r { addr = address ip port }, request n)
          else exited)
  unfolding register
  register_node r n p q = rw (p, q, host_and_port-address ip port l h) refl

  -- A registration that Polaris accepts.
  pub register-done :
      (r : Registry) (n : Node)
      → r.provider ≡ true
      → r.n ≡ some n
      → polaris.register_instance (request n) ≡ true
      → register polaris (address ip port) protocol r
        ≡ done (record r { addr = address ip port }, request n)
  register-done r n p q answer = register_node r n p q ∙ rw answer refl

  register_unprovided :
      (r : Registry) → r.provider ≡ false → register polaris (address ip port) protocol r ≡ exited
  unfolding register
  register_unprovided r p = rw p refl

  register_no_node :
      (r : Registry)
      → r.provider ≡ true
      → r.n ≡ none
      → register polaris (address ip port) protocol r ≡ panicked
  unfolding register
  register_no_node r p q = rw (p, q) refl

  -- A registration at an address of an IP without a colon and a decimal port below 2^63, when it is
  -- done, names this IP and this port, clients that get them dial the same address, and the
  -- registry takes back the same service, namespace, host, port and token.
  pub register-deregister :
      (r r' : Registry) (req : RegisterRequest)
      → register polaris (address ip port) protocol r ≡ done (r', req)
      → (req.host ≡ ip)
        × (req.port ≡ pos port)
        × (dial_addr req.host req.port ≡ address ip port)
        × (deregister r'.addr r'
            ≡ done (record {
              service = req.service;
              namespace = req.namespace;
              host = req.host;
              port = req.port;
              service_token = req.service_token;
            }))
  register-deregister r r' req e = elim (Bool-cases r.provider) [
    | inr p ↦ absurd (not_exited _ (r', req) (register_unprovided r p) e)
    | inl p ↦ elim (Option-cases r.n) [
      | inl q ↦ absurd (not_panicked _ (r', req) (register_no_node r p q) e)
      | inr (n, q) ↦ elim (Bool-cases (polaris.register_instance (request n))) [
        | inr no_answer ↦
            absurd (not_exited _ (r', req) (register_node r n p q ∙ rw no_answer refl) e)
        | inl answer ↦
            subst Registered
              (done_eq (record r { addr = address ip port }, request n) (r', req)
                (sym (register-done r n p q answer) ∙ e))
              (request-Registered r n p q)
      ]
    ]
  ]

-- What is done where two tests may end the process.
only_done :
    {A : Type 0} (empty made : Bool) (x y : A)
    → (if empty then exited else if made then done x else exited) ≡ done y
    → x ≡ y
only_done true made x y e = absurd (not_exited exited y refl e)
only_done false true x y e = done_eq x y e
only_done false false x y e = absurd (not_exited exited y refl e)

module _ (v : Values) (settings : List Text → Conf v) (polaris : Polaris) where
  -- Destroy of a registry that has only been a consumer ends the process, and Destroy of one that
  -- has only been provided, and has registered nothing, panics.
  pub destroy_early :
      (n : Node) (client server : Registry)
      → consume v settings polaris empty_registry ≡ done client
      → provide v settings polaris n empty_registry ≡ done server
      → (destroy client ≡ exited) × (destroy server ≡ panicked)
  unfolding consume provide destroy host_and_port split
  destroy_early n client server c p = (
    subst (λ r. destroy r ≡ exited) (only_done _ _ _ client c) refl,
    subst (λ r. destroy r ≡ panicked) (only_done _ _ _ server p) refl,
  )
