-- ===== src/Server/Workers/Runs.antt =====
-- Two workers that return, and three packets: two that wait for ever and one that is turned away.
use gffg.Prelude.{ℕ, ◌≡◌, some, List, [], ◌∷◌, ◌++◌, false}
use gffg.Prelude.Int.{pos}
use gffg.Prelude.Text.{Text}
use gffg.Proto.Sample.{traced}
use gffg.Server.Handler.{rpc_handler}
use gffg.Server.Handle.{Limit, allowed}
use gffg.Server.Queue.{Server, RequestChannel, on_recv}
use gffg.Server.Queue.Laws.{all_put, step}
use gffg.Server.Workers.{Event, receive, take, leave, cancel, run}
use gffg.Server.Workers.Laws.{leaves, run_released}

abbrev limiter : Text → Limit
limiter name = allowed

abbrev waiting : RequestChannel
waiting = record { conn = 1; packet = 0 ∷ 9 ∷ 0 ∷ 5 ∷ 7 ∷ [] }

abbrev server : Server
server = record {
  channels = 12;
  handler = some rpc_handler;
  req_ch = waiting ∷ [];
  state = record { reqs = pos 0; conns = pos 1; replies = []; metrics = [] };
  sent = [];
}

abbrev packet : ℕ → Text
packet n = 0 ∷ n ∷ 0 ∷ 5 ∷ 7 ∷ []

abbrev events : List Event
events = receive 1 (packet 1) ∷ take ∷ receive 2 (packet 2) ∷ receive 1 (packet 3) ∷ leave ∷ []

run_released_example :
    (run traced limiter
      (cancel ∷ (leaves 2 ++ events))
      (record { server = server; running = 2; cancelled = false })).server.req_ch
    ≡ waiting ∷ record { conn = 1; packet = packet 1 } ∷ record { conn = 2; packet = packet 2 } ∷ []
unfolding all_put step on_recv
run_released_example = run_released traced limiter 2 server events
