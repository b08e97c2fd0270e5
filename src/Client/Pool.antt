-- ===== src/Client/Pool.antt =====
-- client/pools.go: the pool of connections, at most eight for each key. Dialling, the clock and the
-- random choice are arguments.
pub mod Laws
pub mod Removal
use gffg.Prelude.{
  ℕ, zero, suc, ◌+◌, ◌-◌, ◌<◌, ◌≡◌, Option, none, some, List, [], ◌∷◌, ◌++◌, if◌then◌else◌, Bool,
  true, false, length, ltb, ◌==◌, get_elem?, set,
}
use gffg.Prelude.Int.{ℤ}
use gffg.Prelude.Text.{Text, text_eq, codes}
use gffg.Prelude.Decimal.{format_int}

-- `RPC_POOL_SIZE`.
abbrev pub rpc_pool_size : ℕ
rpc_pool_size = 8

-- The struct `client`; sockets and registry instances are known by numbers.
pub record Conn : Type 0 where
  pub socket : ℕ
  pub instance_id : ℕ
  pub name : Text
  pub svrname : Text
  pub stamp : ℕ
  pub group : Text

-- `rpcconn`, where a key that is not in the map has the nil slice, and the number of dials so far.
pub record Pool : Type 0 where
  pub rpcconn : Text → List Conn
  pub dials : ℕ

-- What `connect` and its surroundings give for the n-th dial: the generated name, the socket, the
-- instance and the time; `none` is an error of the registry or of the dial.
pub record Dialed : Type 0 where
  pub name : Text
  pub socket : ℕ
  pub instance_id : ℕ
  pub stamp : ℕ

-- The address that `connect` dials, of the host and the port of an instance.
unfoldable pub dial_addr : Text → ℤ → Text
dial_addr host port = host ++ (codes ":" ++ format_int port)

-- `pool.key`.
unfoldable pub key : Text → Text → Text
key group svrname = group ++ svrname

-- `p.rpcconn[key] = conns`.
unfoldable pub assign : Pool → Text → List Conn → Pool
assign p k conns = record p { rpcconn = λ j. if text_eq k j then conns else p.rpcconn j }

-- The chosen connection with its new stamp, in the pool and as the result; an index out of range
-- would be a panic.
pub data Choice : Type 0 where
  chosen : Conn → Choice
  no_node : Choice
  out_of_range : Choice

abbrev pub connected : Text → Text → Option Dialed → List Conn → List Conn
connected group svrname none conns = conns
connected group svrname (some d) conns =
    record {
      socket = d.socket;
      instance_id = d.instance_id;
      name = d.name;
      svrname = svrname;
      stamp = d.stamp;
      group = group;
    }
    ∷ conns

module _ (dial : ℕ → Option Dialed) where
  -- `genCon(num)`: the dials from the n-th on; those that fail are left out.
  unfoldable pub gen_con : Text → Text → ℕ → ℕ → List Conn
  gen_con group svrname zero n = []
  gen_con group svrname (suc num) n =
      connected group svrname (dial n) (gen_con group svrname num (suc n))

  -- `if 0 == len(p.rpcconn[key]) { p.rpcconn[key] = genCon(RPC_POOL_SIZE) }`
  unfoldable pub fill_empty : Text → Text → Pool → Pool
  unfolding key
  fill_empty group svrname p =
      if length (p.rpcconn (key group svrname)) == 0
      then assign (record p { dials = p.dials + rpc_pool_size }) (key group svrname)
          (gen_con group svrname rpc_pool_size p.dials)
      else p

  -- `if len(p.rpcconn[key]) < RPC_POOL_SIZE { … append … }`
  unfoldable pub top_up : Text → Text → Pool → Pool
  unfolding key
  top_up group svrname p =
      let conns = p.rpcconn (key group svrname) in
      let missing = rpc_pool_size - length conns in
      if ltb (length conns) rpc_pool_size
      then assign (record p { dials = p.dials + missing }) (key group svrname)
          (conns ++ gen_con group svrname missing p.dials)
      else p

  abbrev choose : ℕ → Text → Pool → ℕ → Option Conn → Pool × Choice
  choose now k p i none = (p, out_of_range)
  choose now k p i (some c) = (
    assign p k (set (p.rpcconn k) i (record c { stamp = now })),
    chosen (record c { stamp = now }),
  )

  -- `pool.response`, under the write lock. `intn` is `rng.Intn`.
  unfoldable pub response : (ℕ → ℕ) → ℕ → Text → Text → Pool → Pool × Choice
  unfolding key
  response intn now group svrname p =
      let q = top_up group svrname (fill_empty group svrname p) in
      let k = key group svrname in
      if length (q.rpcconn k) == 0
      then (q, no_node)
      else choose now k q (intn (length (q.rpcconn k)))
          (get_elem? (q.rpcconn k) (intn (length (q.rpcconn k))))

-- The loop of `removeByClient`: the connections but those of the name, copied, and whether there is one.
unfoldable pub without : Text → List Conn → List Conn
without name [] = []
without name (c ∷ conns) =
    let rest = without name conns in if text_eq c.name name then rest else c ∷ rest

unfoldable pub has_name : Text → List Conn → Bool
has_name name [] = false
has_name name (c ∷ conns) =
    let rest = has_name name conns in if text_eq c.name name then true else rest

-- What the first half of `removeByClient` has read under the read lock.
pub record Snapshot : Type 0 where
  pub key_read : Text
  pub found : Bool
  pub kept : List Conn

unfoldable pub remove_read : Text → Text → Text → Pool → Snapshot
unfolding key
remove_read group svrname name p =
    let k = key group svrname in
    record { key_read = k; found = has_name name (p.rpcconn k); kept = without name (p.rpcconn k) }

-- The second half, under the write lock.
unfoldable pub remove_write : Snapshot → Pool → Pool
remove_write s p = if s.found then assign p s.key_read s.kept else p

-- `pool.removeByClient`; `meanwhile` is what other goroutines do to the pool between the two locks.
unfoldable pub remove_during : (Pool → Pool) → Text → Text → Text → Pool → Pool
unfolding remove_read remove_write
remove_during meanwhile group svrname name p =
    remove_write (remove_read group svrname name p) (meanwhile p)

-- The same with nothing in between.
unfoldable pub remove_by_client : Text → Text → Text → Pool → Pool
unfolding remove_during
remove_by_client group svrname name p = remove_during (λ q. q) group svrname name p
