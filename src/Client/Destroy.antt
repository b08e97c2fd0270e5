-- ===== src/Client/Destroy.antt =====
-- `pool.destroy` of client/pools.go, which is `Client.Destroy`: the registry, the sockets, the channels.
pub mod Laws
mod Runs
use gffg.Prelude.{ℕ, Option, none, some, List, [], ◌∷◌, map, Bool, if◌then◌else◌}
use gffg.Registry.{Ended, done, exited, panicked}
use gffg.Client.Pool.{Conn}
use gffg.Client.Calls.{CallCond, Table}

-- How it ends, with the sockets that it has closed: the process exits in the registry, a panic goes to
-- the caller, or all is closed; or it waits in one of its two `RLock`.
pub data Closing : Type 0 where
  exits : Closing
  panics : List ℕ → Closing
  closed_all : List ℕ → Closing
  waits : List ℕ → Closing

-- The second loop: closing a channel that is closed panics.
abbrev pub close_calls : List ℕ → List CallCond → Closing
close_calls sockets [] = closed_all sockets
close_calls sockets (c ∷ items) =
    let rest = close_calls sockets items in if c.is_open then rest else panics sockets

-- Whether `RLock` returns for `rw` and for `wrw`: no other goroutine holds the lock or waits for it to
-- write.
pub record Locks : Type 0 where
  pub rw_read : Bool
  pub wrw_read : Bool

-- `conns` and `items` are the values of `rpcconn` and of `callItem`, in the order of the two ranges.
abbrev pub destroy {ℓ} : {A : Type ℓ} → Locks → Ended A → List Conn → List CallCond → Closing
destroy locks exited conns items = exits
destroy locks panicked conns items = panics []
destroy locks (done r) conns items =
    let sockets = map (λ c. c.socket) conns in
    if locks.rw_read
    then (if locks.wrw_read then close_calls sockets items else waits sockets)
    else waits []

-- The entries of the table at some of its keys.
abbrev pub put_entry : Option CallCond → List CallCond → List CallCond
put_entry none items = items
put_entry (some c) items = c ∷ items

abbrev pub entries : Table → List ℕ → List CallCond
entries t [] = []
entries t (sid ∷ sids) = put_entry (t.call_item sid) (entries t sids)
