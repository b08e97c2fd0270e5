-- ===== src/Client/Connect/Laws.antt =====
-- The connections that a new client makes.
use gffg.Prelude.{
  ℕ, zero, suc, ◌+◌, ◌≤◌, ◌<◌, ◌≡◌, refl, ap, arith, Option, none, some, Option-cases, inl, inr,
  List, [], ◌∷◌, length, All, if◌then◌else◌, Bool, true, false,
}
use mathlib.Core.Path.{subst}
use gffg.Prelude.Int.{ℤ}
use gffg.Prelude.Text.{Text}
use gffg.Common.{EthAddr}
use gffg.Config.{Values, Conf}
use gffg.Registry.{Registry, Polaris, Ended, done, exited, panicked, consume, get_node}
use gffg.Transport.Dial.{socket_by_addr}
use gffg.Client.Pool.{Conn, Dialed, dial_addr, connected, gen_con}
use gffg.Client.Connect.{
  ClientOption, Client, Attempt, apply_all, or_default, pooled, new_pool, new_client, connect,
  gen_client,
}

-- A client that is there has a registry that is a consumer.
consume_lem :
    (v : Values) (settings : List Text → Conf v) (polaris : Polaris) (r q : Registry)
    → consume v settings polaris r ≡ done q
    → q.consumer ≡ true
unfolding consume
consume_lem v settings polaris r q e = ground arith

module _ (host : ℕ → Text) (port : ℕ → ℤ) (group svrname : Text) where
  -- The attempt finds an instance, and the network connects to its address.
  abbrev pub Connected : Attempt → Conn → Type 0
  Connected a c =
      (tcp_addr : Text) × (a.polaris.get_one_instance group svrname ≡ some (some c.instance_id))
      × (a.network.resolve_tcp_addr (dial_addr (host c.instance_id) (port c.instance_id))
          ≡ some tcp_addr)
      × (a.network.dial_tcp tcp_addr ≡ some c.socket)
      × (c.name ≡ a.name)

  abbrev pub ConnectedIn : (ℕ → Attempt) → ℕ → ℕ → Conn → Type 0
  ConnectedIn attempts n m c = (k : ℕ) × (n ≤ k) × (k < m) × Connected (attempts k) c

  abbrev is_conn : Option ℕ → Bool
  is_conn none = false
  is_conn (some t) = true

  abbrev dials : Attempt → Option Text → Bool
  dials a none = false
  dials a (some tcp_addr) = is_conn (a.network.dial_tcp tcp_addr)

  abbrev reaches : Attempt → Option (Option ℕ) → Bool
  reaches a none = false
  reaches a (some none) = false
  reaches a (some (some i)) = dials a (a.network.resolve_tcp_addr (dial_addr (host i) (port i)))

  -- How many of the attempts n, n + 1, … get to a connection.
  unfoldable pub successes : (ℕ → Attempt) → ℕ → ℕ → ℕ
  successes attempts zero n = 0
  successes attempts (suc num) n =
      let rest = successes attempts num (suc n) in
      let a = attempts n in
      if reaches a (a.polaris.get_one_instance group svrname) then suc rest else rest

  data Made (a : Attempt) : Option Dialed → Bool → Type 0 where
    lost : Made a none false
    made :
        (i t : ℕ) (tcp_addr : Text)
        → a.polaris.get_one_instance group svrname ≡ some (some i)
        → a.network.resolve_tcp_addr (dial_addr (host i) (port i)) ≡ some tcp_addr
        → a.network.dial_tcp tcp_addr ≡ some t
        → Made a (some (record { name = a.name; socket = t; instance_id = i; stamp = a.now })) true

  gen_client-Made :
      (r : Registry) (a : Attempt)
      → r.consumer ≡ true
      → Made a
          (gen_client host port r group svrname a)
          (reaches a (a.polaris.get_one_instance group svrname))
  unfolding gen_client connect get_node socket_by_addr
  gen_client-Made r a c = elim (Option-cases (a.polaris.get_one_instance group svrname)) [
    | inl failed ↦ rw (c, failed) lost
    | inr (none, empty) ↦ rw (c, empty) lost
    | inr (some i, e) ↦
        elim (Option-cases (a.network.resolve_tcp_addr (dial_addr (host i) (port i)))) [
          | inl unresolved ↦ rw (c, e, unresolved) lost
          | inr (tcp_addr, f) ↦ elim (Option-cases (a.network.dial_tcp tcp_addr)) [
            | inl refused ↦ rw (c, e, f, refused) lost
            | inr (t, g) ↦ rw (c, e, f, g) (made i t tcp_addr e f g)
          ]
        ]
  ]

  module _ (attempts : ℕ → Attempt) where
    wider :
        (n m : ℕ) (conns : List Conn)
        → All (ConnectedIn attempts (suc n) m) conns
        → All (ConnectedIn attempts n m) conns
    wider n m [] h = tt
    wider n m (c ∷ conns) ((k, low, high, h), hs) =
        ((k, omega (arith, low), high, h), wider n m conns hs)

    grow :
        (n m : ℕ) (x : Option Dialed) (b : Bool) (conns : List Conn)
        → n < m
        → Made (attempts n) x b
        → All (ConnectedIn attempts (suc n) m) conns
        → All (ConnectedIn attempts n m) (connected group svrname x conns)
    grow n m none b conns l h hs = wider n m conns hs
    grow n m (some d) b conns l (made i t tcp_addr e f g) hs =
        ((n, omega arith, l, (tcp_addr, e, f, g, refl)), wider n m conns hs)

    one_more :
        (a : Attempt) (x : Option Dialed) (b : Bool) (conns : List Conn) (num : ℕ)
        → Made a x b
        → length conns ≡ num
        → length (connected group svrname x conns) ≡ (if b then suc num else num)
    one_more a none b conns num lost e = e
    one_more a (some d) b conns num (made i t tcp_addr e' f g) e = ap suc e

    gen_con-All :
        (r : Registry) (num n : ℕ)
        → r.consumer ≡ true
        → All
            (ConnectedIn attempts n (n + num))
            (gen_con (λ k. gen_client host port r group svrname (attempts k)) group svrname num n)
          × (length (
                gen_con
                  (λ k. gen_client host port r group svrname (attempts k))
                  group
                  svrname
                  num
                  n)
              ≡ successes attempts num n)
    unfolding gen_con successes
    gen_con-All r zero n c = (tt, refl)
    gen_con-All r (suc num) n c =
        let h = gen_client-Made r (attempts n) c in
        let (hs, len) = gen_con-All r num (suc n) c in
        (
          grow n (n + suc num) _ _ _ (omega arith) h (
              subst
                (λ m. All (ConnectedIn attempts (suc n) m) (
                  gen_con (λ k. gen_client host port r group svrname (attempts k)) group svrname num
                    (suc n)))
                (omega arith) hs),
          one_more (attempts n) _ _ _ (successes attempts num (suc n)) h len,
        )

-- For a client that NewClient has made, every connection that genCon makes comes from one of its
-- attempts: the instance that Polaris gave to it, whose address resolved, and the connection that
-- dialling this address gave; and there are as many connections as attempts that got an instance,
-- an address and a connection.
pub gen_con-Connected :
    (v : Values) (settings : List Text → Conf v) (polaris : Polaris) (addrs : Option (List EthAddr))
    (name : Text) (opts : List ClientOption) (cl : Client) (host : ℕ → Text) (port : ℕ → ℤ)
    (group svrname : Text) (attempts : ℕ → Attempt) (num n : ℕ)
    → new_client v settings polaris addrs name opts ≡ done cl
    → All (ConnectedIn host port group svrname attempts n (n + num)) (
        gen_con
          (λ k. gen_client host port cl.registry group svrname (attempts k))
          group
          svrname
          num
          n)
      × (length (
            gen_con
              (λ k. gen_client host port cl.registry group svrname (attempts k))
              group
              svrname
              num
              n)
          ≡ successes host port group svrname attempts num n)
unfolding new_client new_pool
gen_con-Connected v settings polaris addrs name opts cl host port group svrname attempts num n e =
    gen_con-All host port group svrname attempts cl.registry num n (
      of_pool (or_default (apply_all opts none))
        (consume v settings polaris (or_default (apply_all opts none))) refl e)
  where
    of_pool :
        (r : Registry) (x : Ended Registry)
        → consume v settings polaris r ≡ x
        → pooled name addrs x ≡ done cl
        → cl.registry.consumer ≡ true
    of_pool r (done q) f g =
        subst (λ (c : Client). c.registry.consumer ≡ true) (same g)
          (consume_lem v settings polaris r q f)
      where
        same : {a b : Client} → done a ≡ done b → a ≡ b
        same g = cc g
    of_pool r exited f g = absurd (cc g)
    of_pool r panicked f g = absurd (cc g)
