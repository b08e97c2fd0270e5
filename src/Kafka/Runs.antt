-- ===== src/Kafka/Runs.antt =====
-- A consumer of two partitions: at work, and with a partition that cannot be opened.
use gffg.Prelude.{
  ℕ, zero, suc, Option, none, ◌+◌, ◌≤◌, ◌≡◌, refl, some, List, [], ◌∷◌, ◌++◌, map, length, true,
  false, ◌==◌,
}
use gffg.Prelude.Int.{ℤ, pos}
use gffg.Prelude.Text.{Text, codes, text_eq}
use gffg.Kafka.{
  Consumption, Event, opens, open_fails, interrupt, receives, breaks, takes_signal, waited, aborted,
  returned, message, error, known, consume, in_progress, step, run, made, Setting, Options, panics,
  set_brokers, new_consumer, new_product, release,
}
use gffg.Kafka.Trace.{endings}
use gffg.Kafka.Laws.{consume_returns, consume_aborted}

abbrev two : List ℤ
two = pos 0 ∷ pos 1 ∷ []

-- Both partitions are opened; the first brings a message and breaks, and the second is interrupted.
abbrev whole : List Event
whole =
    opens
    ∷ receives 0 (pos 7) (codes "m")
    ∷ opens
    ∷ breaks 0 (codes "lost")
    ∷ interrupt
    ∷ takes_signal 1
    ∷ waited
    ∷ []

abbrev ended : Consumption
ended = record {
  pending = [];
  loops =
      record { partition = pos 0; running = false }
      ∷ record { partition = pos 1; running = false }
      ∷ [];
  signals = false;
  callbacks = message (pos 0) (pos 7) (codes "m") ∷ error (codes "lost") ∷ [];
  shut = two;
  stage = returned;
}

run-whole : run whole (consume (known two)) ≡ some ended
unfolding run step consume
run-whole = refl

consume_returns_example :
    (ended.shut ≡ two) × (in_progress ended.loops ≡ 0) × (length two ≤ endings whole)
consume_returns_example = consume_returns two whole ended run-whole refl

-- The second partition is refused, and the first goes on.
abbrev leaking : Consumption
leaking = record {
  pending = pos 1 ∷ [];
  loops = record { partition = pos 0; running = true } ∷ [];
  signals = false;
  callbacks = error (codes "no") ∷ message (pos 0) (pos 3) (codes "m") ∷ [];
  shut = [];
  stage = aborted;
}

run-leaking :
    run
      ((opens ∷ []) ++ open_fails (codes "no") ∷ receives 0 (pos 3) (codes "m") ∷ [])
      (consume (known two))
    ≡ some leaking
unfolding run step consume
run-leaking = refl

consume_aborted_example :
    (leaking.stage ≡ aborted)
    × (leaking.shut ≡ [])
    × (map (λ l. l.partition) leaking.loops ++ leaking.pending ≡ two)
    × (length leaking.loops
        ≤ in_progress leaking.loops
          + endings ((opens ∷ []) ++ open_fails (codes "no") ∷ receives 0 (pos 3) (codes "m") ∷ []))
consume_aborted_example =
    consume_aborted two (opens ∷ []) (codes "no") (receives 0 (pos 3) (codes "m") ∷ []) leaking
      run-leaking

abbrev named : List Setting
named = set_brokers (codes "a,b") ∷ []

abbrev broker_ab : Options
broker_ab = record { topic = []; group = []; brokers = codes "a,b" }

abbrev head_or : Text → List Text → Text
head_or t [] = t
head_or t (x ∷ xs) = x

-- The list of the brokers is cut at the commas.
brokers_cut :
    (new_consumer (λ config addrs. text_eq (head_or [] addrs) (codes "a")) named ≡ made broker_ab)
    × (new_product (λ kc addrs. kc.retry_max == 10) named ≡ made broker_ab)
    × (new_product (λ kc addrs. text_eq (head_or [] addrs) (codes "b")) named ≡ panics)
unfolding new_consumer new_product
brokers_cut = (refl, refl, refl)

-- A consumer that is its number of open partitions.
abbrev close_one : ℕ → ℕ × Option Text
close_one zero = (zero, some (codes "closed"))
close_one (suc n) = (n, none)

released : release close_one 3 ≡ 2
unfolding release
released = refl
