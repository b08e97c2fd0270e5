-- ===== src/Kafka/Laws.antt =====
-- Consume at its end, after an early return, and when it is interrupted.
use gffg.Prelude.{
  ℕ, zero, suc, ◌+◌, ◌≤◌, ◌≡◌, refl, ap, arith, Option, none, some, List, [], ◌∷◌, ◌++◌, false, map,
  length, length-append, length-map, Bool-cases, inl, inr,
}
use gffg.Prelude.Int.{ℤ}
use gffg.Prelude.Text.{Text}
use mathlib.Core.Path.{subst}
use gffg.Kafka.{
  Goroutine, Stage, serving, aborted, returned, Consumption, known, consume, Event, opens,
  open_fails, interrupt, receives, breaks, takes_signal, waited, halt, running_at, in_progress,
  call, abort, on_message, with_loops, step, run, error,
}
use gffg.Kafka.Loops.{first_running}
use gffg.Kafka.Trace.{endings, Holds, run_reaches, run_through}
use gffg.Kafka.Invariant.{Closing, Consistent, reached}

closed_all :
    (ps : List ℤ) (n : ℕ) (s : Consumption)
    → s.stage ≡ returned
    → Consistent ps n s
    → (s.shut ≡ ps) × (in_progress s.loops ≡ 0) × (length ps ≤ n)
closed_all ps n s r c =
    let (shut, done, idle) =
      subst (λ g. Closing g ps s.shut s.pending (in_progress s.loops)) r c.closing in
    (
      shut,
      idle,
      omega (
        arith,
        c.live,
        idle,
        ap length c.order,
        ap length done,
        length-append (map (λ l. l.partition) s.loops) s.pending,
        length-map s.loops (λ l. l.partition),
      ),
    )

-- However the events of Consume of a known list of partitions come, when it has returned at its end
-- it has closed the consumer of every partition once, in order, no goroutine runs, and there have
-- been at least as many interrupts and broken partitions, in sum, as partitions.
pub consume_returns :
    (ps : List ℤ) (events : List Event) (s : Consumption)
    → run events (consume (known ps)) ≡ some s
    → s.stage ≡ returned
    → (s.shut ≡ ps) × (in_progress s.loops ≡ 0) × (length ps ≤ endings events)
consume_returns ps events s h r = closed_all ps (endings events) s r (reached ps events s h)

abbrev IsAborted : Consumption → Type 0
IsAborted s = s.stage ≡ aborted

message-IsAborted :
    (o : Option ℤ) (offset : ℤ) (value : Text) (s : Consumption)
    → IsAborted s
    → Holds IsAborted (on_message o offset value s)
message-IsAborted none offset value s a = tt
message-IsAborted (some p) offset value s a = a

loops-IsAborted :
    (o : Option (List Goroutine)) (s : Consumption) → IsAborted s → Holds IsAborted (with_loops o s)
loops-IsAborted none s a = tt
loops-IsAborted (some ls) s a = a

-- Once it has returned early, Consume is not entered again.
step-IsAborted : (n : ℕ) (e : Event) (s : Consumption) → IsAborted s → Holds IsAborted (step e s)
unfolding step
step-IsAborted n opens s a = rw a tt
step-IsAborted n (open_fails e) s a = rw a tt
step-IsAborted n interrupt s a = a
step-IsAborted n (receives i offset value) s a =
    message-IsAborted (running_at i s.loops) offset value s a
step-IsAborted n (breaks i e) s a = loops-IsAborted (halt i s.loops) (call (error e) s) a
step-IsAborted n (takes_signal i) s a = elim (Bool-cases s.signals) [
  | inl held ↦ rw held (loops-IsAborted (halt i s.loops) (record s { signals = false }) a)
  | inr idle ↦ rw idle tt
]
step-IsAborted n waited s a = rw a tt

abort-some :
    (g : Stage) (parts : List ℤ) (e : Text) (s t : Consumption)
    → abort g parts e s ≡ some t
    → IsAborted t
abort-some serving [] e s t h = cc
abort-some serving (p ∷ parts) e s t h = subst (Holds IsAborted) h refl
abort-some aborted parts e s t h = cc
abort-some returned parts e s t h = cc

open_fails-IsAborted : (e : Text) (m u : Consumption) → step (open_fails e) m ≡ some u → IsAborted u
unfolding step
open_fails-IsAborted e m u f = abort-some m.stage m.pending e m u f

-- Once a partition cannot be opened, Consume has returned early in every later state: no partition
-- consumer is closed, the goroutines are those of the partitions that were opened, and as many of
-- them run as there are, less at most the interrupts and broken partitions.
pub consume_aborted :
    (ps : List ℤ) (before : List Event) (e : Text) (later : List Event) (s : Consumption)
    → run (before ++ open_fails e ∷ later) (consume (known ps)) ≡ some s
    → (s.stage ≡ aborted)
      × (s.shut ≡ [])
      × (map (λ l. l.partition) s.loops ++ s.pending ≡ ps)
      × (length s.loops ≤ in_progress s.loops + endings (before ++ open_fails e ∷ later))
consume_aborted ps before e later s h =
    let (m, u, f, g) = run_through before (open_fails e) later _ s h in
    let a =
      run_reaches (λ k. IsAborted) step-IsAborted later u s g (open_fails-IsAborted e m u f) in
    let c = reached ps (before ++ open_fails e ∷ later) s h in
    (
      a,
      subst (λ x. Closing x ps s.shut s.pending (in_progress s.loops)) a c.closing,
      c.order,
      omega (arith, c.live),
    )

-- From a state of Consume, still serving, in which every partition is opened, there is a sequence
-- of events with as many interrupts and broken partitions as goroutines run, after which it has
-- returned at its end, with no further call of the consumer's functions.
pub consume_stops :
    (k : ℕ) (s : Consumption)
    → s.stage ≡ serving
    → s.pending ≡ []
    → in_progress s.loops ≡ k
    → (more : List Event) × (t : Consumption) × (run more s ≡ some t)
      × (t.stage ≡ returned)
      × (t.callbacks ≡ s.callbacks)
      × (endings more ≡ k)
unfolding run step
consume_stops zero s g p h = (
  waited ∷ [],
  record s { shut = map (λ l. l.partition) s.loops; stage = returned },
  rw (g, p, h) refl,
  refl,
  refl,
  refl,
)
consume_stops (suc k) s g p h =
    let (i, ms, e, f) = first_running s.loops k h in
    let (more, t, ran, done, same, count) =
      consume_stops k (record s { loops = ms; signals = false }) g p f in
    (interrupt ∷ takes_signal i ∷ more, t, rw e ran, done, same, omega (arith, count))
