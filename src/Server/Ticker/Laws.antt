-- ===== src/Server/Ticker/Laws.antt =====
-- The ticker with a producer, and without.
use gffg.Prelude.{ℕ, ◌≡◌, refl, sym, ap, ◌∙◌, List, [], ◌∷◌, ◌++◌, length}
use gffg.Prelude.Text.{Text, codes}
use mathlib.Core.List.{append-nil}
use gffg.Kafka
use gffg.Metrics.{Metric, Reporter}
use gffg.Metrics.Obj.{unused, product, obj, report, reports}
use gffg.Metrics.Obj.Laws.{reports-broken, broken, sends, made_with}
use gffg.Server.Queue.{RequestChannel}
use gffg.Server.Ticker.{Event, fired, ctx_done, waiting, returned, crashed, server_gauge, ticker}

-- The timer has fired with these.
pub record Tick : Type 0 where
  pub req_ch : List RequestChannel
  pub goroutines : ℕ
  pub dials : Kafka.NewSyncProducer

abbrev pub ticks : List Tick → List Event
ticks [] = []
ticks (t ∷ ts) = fired t.req_ch t.goroutines t.dials ∷ ticks ts

-- The two gauges of every fired, in order.
pub gauges : Text → Text → List Tick → List Metric
gauges host configured [] = []
gauges host configured (t ∷ ts) =
    server_gauge host configured (codes "channels") (length t.req_ch)
    ∷ server_gauge host configured (codes "coroutines") t.goroutines
    ∷ gauges host configured ts

module _ (host configured : Text) (settings : Text → Text) where
  on_broken :
      (req_ch : List RequestChannel) (goroutines : ℕ) (dials : Kafka.NewSyncProducer)
      (events : List Event)
      → ticker host configured settings (fired req_ch goroutines dials ∷ events) broken ≡ crashed
  unfolding ticker report obj
  on_broken req_ch goroutines dials events = refl

  -- Where the producer of the metrics cannot be made at the first report, the process ends at the
  -- first tick, if that report is the tick's own, and at the first tick after it, if it is
  -- another's, whatever brokers can be reached by then.
  pub ticker_crashes :
      (dials : Kafka.NewSyncProducer) (req_ch : List RequestChannel) (goroutines : ℕ)
      (events : List Event) (it : Metric) (its : List (Kafka.NewSyncProducer × Metric))
      (later : Kafka.NewSyncProducer)
      → product settings dials ≡ Kafka.panics
      → (ticker host configured settings (fired req_ch goroutines dials ∷ events) unused ≡ crashed)
        × (ticker host configured settings
              (fired req_ch goroutines later ∷ events)
              (reports settings ((dials, it) ∷ its) unused).0
            ≡ crashed)
  unfolding ticker report obj
  ticker_crashes dials req_ch goroutines events it its later h = (
    rw h refl,
    ap (λ x. ticker host configured settings (fired req_ch goroutines later ∷ events) x.0)
          (reports-broken settings dials it its h)
        ∙ on_broken req_ch goroutines later events,
  )

  ticked :
      (opts : Kafka.Options) (ts : List Tick) (rest : List Event) (r : Reporter)
      → ticker host configured settings (ticks ts ++ rest) (made_with opts r)
        ≡ ticker host configured settings rest
            (made_with opts (sends (gauges host configured ts) r).0)
  unfolding ticker report obj sends gauges
  ticked opts [] rest r = refl
  ticked opts (t ∷ ts) rest r = ticked opts ts rest _

  -- With a producer that has been made, the ticks of the server's timer hand the number of requests
  -- in the channel and the number of goroutines to the metrics, two for each tick and in order, and
  -- the ticker goes on until the context is done, and then returns.
  pub ticker-sends :
      (opts : Kafka.Options) (ts : List Tick) (rest : List Event) (r : Reporter)
      → (ticker host configured settings (ticks ts) (made_with opts r)
          ≡ waiting (made_with opts (sends (gauges host configured ts) r).0))
        × (ticker host configured settings (ticks ts ++ ctx_done ∷ rest) (made_with opts r)
            ≡ returned (made_with opts (sends (gauges host configured ts) r).0))
  unfolding ticker
  ticker-sends opts ts rest r = (
    ap (λ es. ticker host configured settings es (made_with opts r)) (sym (append-nil (ticks ts)))
        ∙ ticked opts ts [] r,
    ticked opts ts (ctx_done ∷ rest) r,
  )
