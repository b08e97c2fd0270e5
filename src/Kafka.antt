-- ===== src/Kafka.antt =====
-- The kafka folder: the options of a consumer and of a producer, how they are made, `Consumer.Consume`
-- as events, and `Product.Product`. The client of Kafka, sarama, is a parameter.
mod Loops
mod Trace
mod Invariant
pub mod Laws
mod Runs
use gffg.Prelude.{
  ℕ, zero, suc, ◌≡◌, Option, none, some, List, [], ◌∷◌, ◌++◌, if◌then◌else◌, Bool, true, false, map,
}
use gffg.Prelude.Int.{ℤ}
use gffg.Prelude.Text.{Text, codes}
use gffg.Prelude.Split.{split}

-- `options`, less the context, which nothing reads.
pub record Options : Type 0 where
  pub topic : Text
  pub group : Text
  pub brokers : Text

-- The type `Options` of option functions.
pub data Setting : Type 0 where
  set_topic : Text → Setting
  set_group : Text → Setting
  set_brokers : Text → Setting
  set_ctx : Setting

abbrev apply : Setting → Options → Options
apply (set_topic topic) o = record o { topic = topic }
apply (set_group group) o = record o { group = group }
apply (set_brokers brokers) o = record o { brokers = brokers }
apply set_ctx o = o

abbrev apply_all : List Setting → Options → Options
apply_all [] o = o
apply_all (f ∷ opts) o = apply_all opts (apply f o)

abbrev pub settings_of : List Setting → Options
settings_of opts = apply_all opts (record { topic = []; group = []; brokers = [] })

-- sarama's `WaitForAll` and its siblings; the settings of a producer and of a consumer that are not
-- sarama's own defaults, the version as the number of its release.
pub data RequiredAcks : Type 0 where
  no_response wait_for_local wait_for_all : RequiredAcks

pub record ProducerConfig : Type 0 where
  pub required_acks : RequiredAcks
  pub retry_max : ℕ
  pub return_successes : Bool

pub record ConsumerConfig : Type 0 where
  pub return_errors : Bool
  pub version : List ℕ

abbrev producer_config : ProducerConfig
producer_config = record { required_acks = wait_for_all; retry_max = 10; return_successes = true }

abbrev consumer_config : ConsumerConfig
consumer_config = record { return_errors = true; version = 2 ∷ 6 ∷ 0 ∷ 0 ∷ [] }

-- `NewConsumer` and `NewProduct`: sarama connects to the brokers, or the function panics.
pub data NewClient : Type 0 where
  made : Options → NewClient
  panics : NewClient

abbrev connect : Options → Bool → NewClient
connect opt true = made opt
connect opt false = panics

-- sarama's `NewSyncProducer`: whether it succeeds with these settings and brokers.
abbrev pub NewSyncProducer : Type 0
NewSyncProducer = ProducerConfig → List Text → Bool

-- `NewProduct`.
unfoldable pub new_product : NewSyncProducer → List Setting → NewClient
unfolding split
new_product new_sync_producer opts =
    let opt = settings_of opts in
    connect opt (new_sync_producer producer_config (split opt.brokers 44))

-- `NewConsumer`.
unfoldable pub new_consumer : (ConsumerConfig → List Text → Bool) → List Setting → NewClient
unfolding split
new_consumer sarama_new_consumer opts =
    let opt = settings_of opts in
    connect opt (sarama_new_consumer consumer_config (split opt.brokers 44))

-- `Consumer.Release`, by what sarama's `Close` makes of the consumer; its error is dropped.
unfoldable pub release {ℓ κ} : {C : Type ℓ} {E : Type κ} → (C → C × Option E) → C → C
release close consumer = (close consumer).0

-- `Product.Product`: the error of `SendMessage`, which gets the topic of the options and the bytes.
unfoldable pub product {ℓ} : {E : Type ℓ} → (Text → Text → Option E) → Options → Text → Option E
product send_message opt bytes = send_message opt.topic bytes

-- The goroutine of a partition: still in its `for`, or past `wg.Done()`.
pub record Goroutine : Type 0 where
  pub partition : ℤ
  pub running : Bool

-- What `Consume` calls on its `IConsumer`.
pub data Callback : Type 0 where
  message : ℤ → ℤ → Text → Callback
  error : Text → Callback

-- Where `Consume` stands: before the end of `wg.Wait()`, returned early, or returned at its end.
pub data Stage : Type 0 where
  serving : Stage
  aborted : Stage
  returned : Stage

-- `pending` are the partitions that the first loop has not come to; `signals` is whether the channel,
-- which has room for one, holds a signal; `shut` are the partition consumers that are closed.
pub record Consumption : Type 0 where
  pub pending : List ℤ
  pub loops : List Goroutine
  pub signals : Bool
  pub callbacks : List Callback
  pub shut : List ℤ
  pub stage : Stage

-- What `Consumer.Partitions` returns.
pub data Partitions : Type 0 where
  known : List ℤ → Partitions
  unknown : Text → Partitions

abbrev pub entered : List ℤ → Consumption
entered parts = record {
  pending = parts;
  loops = [];
  signals = false;
  callbacks = [];
  shut = [];
  stage = serving;
}

unfoldable pub consume : Partitions → Consumption
consume (known parts) = entered parts
consume (unknown e) = record (entered []) { callbacks = error e ∷ []; stage = aborted }

-- `ConsumePartition` succeeds or fails for the next partition; the system delivers an interrupt, which
-- `signal.Notify` drops if the channel is full; the goroutine of a number takes one of the three
-- cases of its `select`; `wg.Wait()` returns.
pub data Event : Type 0 where
  opens : Event
  open_fails : Text → Event
  interrupt : Event
  receives : ℕ → ℤ → Text → Event
  breaks : ℕ → Text → Event
  takes_signal : ℕ → Event
  waited : Event

abbrev pub add_loop : Goroutine → Option (List Goroutine) → Option (List Goroutine)
add_loop l none = none
add_loop l (some ls) = some (l ∷ ls)

-- The goroutine of a number, if it runs, returns.
abbrev pub halt : ℕ → List Goroutine → Option (List Goroutine)
halt i [] = none
halt zero (l ∷ ls) = if l.running then some (record l { running = false } ∷ ls) else none
halt (suc i) (l ∷ ls) = add_loop l (halt i ls)

-- The partition of the goroutine of a number, if it runs.
abbrev pub running_at : ℕ → List Goroutine → Option ℤ
running_at i [] = none
running_at zero (l ∷ ls) = if l.running then some l.partition else none
running_at (suc i) (l ∷ ls) = running_at i ls

-- The counter of the wait group.
abbrev pub in_progress : List Goroutine → ℕ
in_progress [] = 0
in_progress (l ∷ ls) = if l.running then suc (in_progress ls) else in_progress ls

abbrev pub call : Callback → Consumption → Consumption
call c s = record s { callbacks = s.callbacks ++ c ∷ [] }

abbrev pub open_next : Stage → List ℤ → Consumption → Option Consumption
open_next serving (p ∷ parts) s =
    some (record s {
      pending = parts;
      loops = s.loops ++ record { partition = p; running = true } ∷ [];
    })
open_next _ _ s = none

abbrev pub abort : Stage → List ℤ → Text → Consumption → Option Consumption
abort serving (p ∷ parts) e s = some (record (call (error e) s) { stage = aborted })
abort _ _ e s = none

abbrev pub on_message : Option ℤ → ℤ → Text → Consumption → Option Consumption
on_message none offset value s = none
on_message (some p) offset value s = some (call (message p offset value) s)

abbrev pub with_loops : Option (List Goroutine) → Consumption → Option Consumption
with_loops none s = none
with_loops (some ls) s = some (record s { loops = ls })

abbrev pub close_all : Stage → List ℤ → ℕ → Consumption → Option Consumption
close_all serving [] zero s =
    some (record s { shut = map (λ l. l.partition) s.loops; stage = returned })
close_all _ _ _ s = none

-- `none` where the event cannot happen.
unfoldable pub step : Event → Consumption → Option Consumption
step opens s = open_next s.stage s.pending s
step (open_fails e) s = abort s.stage s.pending e s
step interrupt s = some (record s { signals = true })
step (receives i offset value) s = on_message (running_at i s.loops) offset value s
step (breaks i e) s = with_loops (halt i s.loops) (call (error e) s)
step (takes_signal i) s =
    if s.signals then with_loops (halt i s.loops) (record s { signals = false }) else none
step waited s = close_all s.stage s.pending (in_progress s.loops) s

infixl 1 ◌>>=◌
abbrev pub ◌>>=◌ : Option Consumption → (Consumption → Option Consumption) → Option Consumption
none >>= f = none
some s >>= f = f s

pub run : List Event → Consumption → Option Consumption
unfolding step
run [] s = some s
run (e ∷ events) s = do t ← step e s; run events t
