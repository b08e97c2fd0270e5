-- ===== src/Metrics/Obj/Laws.antt =====
-- Reports through the singleton, made with its producer or without.
use gffg.Prelude.{◌≡◌, refl, none, some, List, [], ◌∷◌, true, map}
use gffg.Prelude.Text.{Text}
use gffg.Transport.Socket.{runtime_error}
use gffg.Kafka
use gffg.Metrics.{Metric, Reporter, Sent, to}
use gffg.Metrics.Obj.{Singleton, unused, sent, panicked, fresh, product, obj, report, reports}

-- The reports given to `to`, one after the other.
unfoldable pub sends : List Metric → Reporter → Reporter × List Sent
sends [] r = (r, [])
sends (it ∷ its) r = let (t, s) = to it r in let (u, ss) = sends its t in (u, s ∷ ss)

abbrev pub broken : Singleton
broken = record { done = true; m = none }

abbrev pub made_with : Kafka.Options → Reporter → Singleton
made_with opts r = record { done = true; m = some (record { producer = opts; reporter = r }) }

module _ (settings : Text → Text) where
  -- Once the singleton is nil, it stays so.
  still_broken :
      (its : List (Kafka.NewSyncProducer × Metric))
      → reports settings its broken ≡ (broken, map (λ x. panicked runtime_error) its)
  unfolding reports report obj
  still_broken [] = refl
  still_broken ((dials, it) ∷ its) = rw (still_broken its) refl

  -- Where the producer cannot be made at the first report, this report and all that follow panic, whatever
  -- brokers can be reached by then.
  pub reports-broken :
      (dials : Kafka.NewSyncProducer) (it : Metric) (its : List (Kafka.NewSyncProducer × Metric))
      → product settings dials ≡ Kafka.panics
      → reports settings ((dials, it) ∷ its) unused
        ≡ (broken, panicked runtime_error ∷ map (λ x. panicked runtime_error) its)
  unfolding reports report obj
  reports-broken dials it its h = rw (h, still_broken its) refl

  still_made :
      (opts : Kafka.Options) (its : List (Kafka.NewSyncProducer × Metric)) (r : Reporter)
      → reports settings its (made_with opts r) ≡ (
        made_with opts (sends (map (λ x. x.1) its) r).0,
        map sent (sends (map (λ x. x.1) its) r).1,
      )
  unfolding reports report obj sends
  still_made opts [] r = refl
  still_made opts ((dials, it) ∷ its) r = rw (still_made opts its (to it r).0) refl

  -- Where the producer is made at the first report, it is kept, and all reports go to the channel in order.
  pub reports-sends :
      (opts : Kafka.Options) (dials : Kafka.NewSyncProducer) (it : Metric)
      (its : List (Kafka.NewSyncProducer × Metric))
      → product settings dials ≡ Kafka.made opts
      → reports settings ((dials, it) ∷ its) unused ≡ (
        made_with opts (sends (it ∷ map (λ x. x.1) its) fresh).0,
        map sent (sends (it ∷ map (λ x. x.1) its) fresh).1,
      )
  unfolding reports report obj sends
  reports-sends opts dials it its h = rw (h, still_made opts its (to it fresh).0) refl
