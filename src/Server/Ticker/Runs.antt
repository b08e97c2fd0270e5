-- ===== src/Server/Ticker/Runs.antt =====
-- A tick without a producer.
use gffg.Prelude.{◌≡◌, refl, [], ◌∷◌, true, false}
use gffg.Prelude.Int.{pos}
use gffg.Prelude.Text.{Text, codes}
use gffg.Kafka.{NewSyncProducer, new_product}
use gffg.Metrics.{Metric, counted}
use gffg.Metrics.Obj.{unused, reports}
use gffg.Server.Ticker.{fired, crashed, ticker}
use gffg.Server.Ticker.Laws.{ticker_crashes}

abbrev settings : Text → Text
settings name = name

abbrev call : Metric
call = record { host = []; svrname = []; micro = pos 0; detail = counted (codes "m") (codes "0") }

abbrev up : NewSyncProducer
up kc brokers = true

abbrev down : NewSyncProducer
down kc brokers = false

ticker_crashes_example :
    (ticker (codes "h") (codes "s") settings (fired [] 40 down ∷ []) unused ≡ crashed)
    × (ticker
          (codes "h")
          (codes "s")
          settings
          (fired [] 40 up ∷ [])
          (reports settings ((down, call) ∷ (up, call) ∷ []) unused).0
        ≡ crashed)
ticker_crashes_example =
    ticker_crashes (codes "h") (codes "s") settings down [] 40 [] call ((up, call) ∷ []) up
      (unfold new_product in refl)
