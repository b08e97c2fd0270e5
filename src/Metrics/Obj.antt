-- ===== src/Metrics/Obj.antt =====
-- The singleton of metrics/metrics.go: `obj` with its Kafka producer, made by the first report, and the
-- reports that go through it. How sarama answers a connection is a parameter of each report.
pub mod Laws
use gffg.Prelude.{Option, none, some, List, [], ◌∷◌, Bool, true, false, if◌then◌else◌}
use gffg.Prelude.Text.{Text, codes}
use gffg.Transport.Socket.{Panic, runtime_error}
use gffg.Kafka
use gffg.Metrics.{Metric, Reporter, Sent, to}

-- `_m`, nil until it is assigned: the options of `pub`, and the channel with its loop. `done` is that of
-- `once`, which holds after a panic as well.
pub record Metrics : Type 0 where
  pub producer : Kafka.Options
  pub reporter : Reporter

pub record Singleton : Type 0 where
  pub done : Bool
  pub m : Option Metrics

abbrev pub unused : Singleton
unused = record { done = false; m = none }

-- What a report does: `to`, or a panic.
pub data Reported : Type 0 where
  sent : Sent → Reported
  panicked : Panic → Reported

abbrev pub fresh : Reporter
fresh = record { m_ch = []; lists = []; batches = [] }

-- `once.Do`: `kafka.NewProduct` with the three settings; its panic leaves `_m` nil.
abbrev pub made_by : Kafka.NewClient → Singleton
made_by (Kafka.made opts) = record {
  done = true;
  m = some (record { producer = opts; reporter = fresh });
}
made_by Kafka.panics = record { done = true; m = none }

-- `obj().to(metrc)`, where `to` of a nil pointer panics.
abbrev pub to_of : Metric → Option Metrics → Singleton × Reported
to_of it none = (record { done = true; m = none }, panicked runtime_error)
to_of it (some m) =
    let (r, s) = to it m.reporter in
    (record { done = true; m = some (record m { reporter = r }) }, sent s)

-- `settings` is `config.Get("metrics", name).String("")`.
module _ (settings : Text → Text) where
  abbrev pub product : Kafka.NewSyncProducer → Kafka.NewClient
  product dials = Kafka.new_product dials (
      Kafka.set_brokers (settings (codes "brokers"))
      ∷ Kafka.set_group (settings (codes "group"))
      ∷ Kafka.set_topic (settings (codes "topic"))
      ∷ [])

  -- `obj`. The panic of `NewProduct` is an error of sarama, which `r.(error)` takes like one of the
  -- runtime.
  unfoldable pub obj : Kafka.NewSyncProducer → Singleton → Singleton
  obj dials s = if s.done then s else made_by (product dials)

  unfoldable pub report : Kafka.NewSyncProducer → Metric → Singleton → Singleton × Reported
  unfolding obj to
  report dials it s = to_of it (obj dials s).m

  -- Reports one after the other, each with the answer that sarama would give a connection now.
  pub reports : List (Kafka.NewSyncProducer × Metric) → Singleton → Singleton × List Reported
  unfolding report
  reports [] s = (s, [])
  reports ((dials, it) ∷ its) s =
      let (t, r) = report dials it s in let (u, rs) = reports its t in (u, r ∷ rs)
