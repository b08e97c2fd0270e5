-- ===== src/Server/Ticker.antt =====
-- The goroutine of `Run` in server/server.go that reports two gauges at every tick of its timer.
pub mod Laws
mod Runs
use gffg.Prelude.{ℕ, List, [], ◌∷◌, Bool, length}
use gffg.Prelude.Int.{pos}
use gffg.Prelude.Text.{Text, codes}
use gffg.Kafka.{NewSyncProducer}
use gffg.Metrics.{Metric, counter_by_add}
use gffg.Metrics.Obj.{Singleton, Reported, sent, panicked, report}
use gffg.Server.Queue.{RequestChannel}

-- The timer fires, with the requests in the channel, the number of goroutines, and the brokers that sarama
-- reaches by then; or the context is done.
pub data Event : Type 0 where
  fired : List RequestChannel → ℕ → NewSyncProducer → Event
  ctx_done : Event

-- Waiting in the `select`, returned, or the process ended: the goroutine recovers no panic.
pub data Ticking : Type 0 where
  waiting : Singleton → Ticking
  returned : Singleton → Ticking
  crashed : Ticking

-- `host` and `configured` are `metrics.Host` and the name of the server in the settings.
abbrev pub server_gauge : Text → Text → Text → ℕ → Metric
server_gauge host configured value n =
    counter_by_add host configured (codes "server") value (pos n) []

module _ (host configured : Text) (settings : Text → Text) where
  -- A report as a statement, before the rest of the code.
  abbrev pub reported : Singleton × Reported → (Singleton → Ticking) → Ticking
  reported (s, sent x) next = next s
  reported (s, panicked p) next = crashed

  unfoldable pub ticker : List Event → Singleton → Ticking
  unfolding report
  ticker [] s = waiting s
  ticker (ctx_done ∷ events) s = returned s
  ticker (fired req_ch goroutines dials ∷ events) s =
      reported
        (report settings dials (server_gauge host configured (codes "channels") (length req_ch)) s)
        (λ t.
          reported
            (report settings dials (server_gauge host configured (codes "coroutines") goroutines) t)
            (ticker events))
