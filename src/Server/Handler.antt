-- ===== src/Server/Handler.antt =====
-- server/handler.go: the table of methods, and what the server keeps beside it.
use gffg.Prelude.{ℕ, ◌≡◌, refl, arith, Option, none, some, List, [], ◌∷◌, ◌==◌, if◌then◌else◌}
use gffg.Prelude.Text.{Text}
use gffg.Transport.Socket.{Panic}

-- How a `Call` ends.
pub data Called : Type 0 where
  done : Text → Called
  failed : Called
  panics : Panic → Called

-- The trace id comes in the context. `none` is a nil function.
pub record RpcItem : Type 0 where
  pub call : Option (Text → Text → Called)
  pub name : Text

-- `map[uint64]*RpcItem`; an entry may be a nil pointer.
pub record RpcHandler : Type 0 where
  pub calls : List (ℕ × Option RpcItem)

-- `RpcHandler()`.
unfoldable pub rpc_handler : RpcHandler
rpc_handler = record { calls = [] }

abbrev pub find : ℕ → List (ℕ × Option RpcItem) → Option (Option RpcItem)
find rid [] = none
find rid ((r, item) ∷ calls) = if r == rid then some item else find rid calls

abbrev put : ℕ → Option RpcItem → List (ℕ × Option RpcItem) → List (ℕ × Option RpcItem)
put rid item [] = (rid, item) ∷ []
put rid item ((r, old) ∷ calls) =
    if r == rid then (r, item) ∷ calls else (r, old) ∷ put rid item calls

-- `rpcHandler.Add`.
unfoldable pub add : RpcHandler → ℕ → Option RpcItem → RpcHandler
add c rid rpc = record c { calls = put rid rpc c.calls }

find-put :
    (k rid : ℕ) (item : Option RpcItem) (calls : List (ℕ × Option RpcItem))
    → find k (put rid item calls) ≡ (if rid == k then some item else find k calls)
find-put k rid item [] = refl
find-put k rid item ((r, old) ∷ calls) = ground (arith, find-put k rid item calls)

-- After Add the table has the new item under its id, and under every other id what it had before.
pub find-add :
    (k rid : ℕ) (item : Option RpcItem) (c : RpcHandler)
    → find k (add c rid item).calls ≡ (if rid == k then some item else find k c.calls)
unfolding add
find-add k rid item c = find-put k rid item c.calls
