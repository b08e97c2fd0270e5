-- ===== src/Server/Workers.antt =====
-- The workers of a server, `goRecv` of server/server.go with both cases of its `select`, around `Release`.
pub mod Laws
mod Runs
use gffg.Prelude.{ℕ, zero, suc, List, [], ◌∷◌, Bool, true, false}
use gffg.Prelude.Text.{Text}
use gffg.Proto.{Codec}
use gffg.Server.Handle.{Limit}
use gffg.Server.Queue.{Server, on_recv, go_recv}

-- `running` is the number of workers that have not returned; `cancelled` is whether `Release` has cancelled
-- the context.
pub record Working : Type 0 where
  pub server : Server
  pub running : ℕ
  pub cancelled : Bool

-- A packet arrives; a worker's `select` takes a request, or the end of the context; `Release` cancels.
pub data Event : Type 0 where
  receive : ℕ → Text → Event
  take : Event
  leave : Event
  cancel : Event

module _ (codec : Codec) (limiter : Text → Limit) where
  -- With no worker nothing is taken.
  abbrev taken_by : ℕ → Working → Working
  taken_by zero w = w
  taken_by (suc n) w = record w { server = go_recv codec limiter w.server }

  -- `case <-this.ctx.Done(): return`
  abbrev left_by : Bool → ℕ → Working → Working
  left_by false n w = w
  left_by true zero w = w
  left_by true (suc n) w = record w { running = n }

  unfoldable pub step : Event → Working → Working
  step (receive conn packet) w = record w {
    server = (on_recv codec limiter conn packet w.server).0;
  }
  step take w = taken_by w.running w
  step leave w = left_by w.cancelled w.running w
  step cancel w = record w { cancelled = true }

  unfoldable pub run : List Event → Working → Working
  unfolding step
  run [] w = w
  run (e ∷ events) w = run events (step e w)
