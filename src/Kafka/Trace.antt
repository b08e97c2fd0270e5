-- ===== src/Kafka/Trace.antt =====
-- Sequences of the events of Consume, with the count of what may end a goroutine.
use gffg.Prelude.{ℕ, ◌+◌, ◌≡◌, refl, arith, Option, none, some, List, [], ◌∷◌, ◌++◌}
use mathlib.Core.Path.{subst}
use gffg.Kafka.{Consumption, Event, interrupt, breaks, step, run, ◌>>=◌}

-- What an event lets end: one goroutine.
abbrev pub ending : Event → ℕ
ending interrupt = 1
ending (breaks i e) = 1
ending _ = 0

abbrev pub endings : List Event → ℕ
endings [] = 0
endings (e ∷ events) = ending e + endings events

abbrev pub Holds : (Consumption → Type 0) → Option Consumption → Type 0
Holds P none = Unit
Holds P (some t) = P t

-- What every step keeps, with the count of the endings, a run keeps.
module _ (P : ℕ → Consumption → Type 0)
    (step_keeps : (n : ℕ) (e : Event) (s : Consumption)
      → P n s
      → Holds (P (n + ending e)) (step e s)) where
  run_keeps :
      (n : ℕ) (events : List Event) (s : Consumption)
      → P n s
      → Holds (P (n + endings events)) (run events s)
  unfolding run
  run_keeps n [] s p = subst (λ k. P k s) (omega arith) p
  run_keeps n (e ∷ events) s p =
      continue (step e s) (step_keeps n e s p) (run_keeps (n + ending e) events)
    where
      continue :
          (o : Option Consumption)
          → Holds (P (n + ending e)) o
          → ((t : Consumption)
              → P (n + ending e) t
              → Holds (P (n + ending e + endings events)) (run events t))
          → Holds (P (n + (ending e + endings events))) (o >>= run events)
      continue none q keeps = tt
      continue (some t) q keeps = subst (λ k. Holds (P k) (run events t)) (omega arith) (keeps t q)

  pub run_reaches :
      (events : List Event) (s t : Consumption)
      → run events s ≡ some t
      → P 0 s
      → P (endings events) t
  run_reaches events s t h p =
      subst (λ k. P k t) (omega arith)
        (subst (Holds (P (0 + endings events))) h (run_keeps 0 events s p))

bind_some :
    (o : Option Consumption) (f : Consumption → Option Consumption) (t : Consumption)
    → (o >>= f) ≡ some t
    → (m : Consumption) × (o ≡ some m) × (f m ≡ some t)
bind_some none f t h = cc
bind_some (some m) f t h = (m, refl, h)

-- A run through an event goes through the step.
pub run_through :
    (before : List Event) (e : Event) (later : List Event) (s t : Consumption)
    → run (before ++ e ∷ later) s ≡ some t
    → (m u : Consumption) × (step e m ≡ some u) × (run later u ≡ some t)
unfolding run
run_through [] e later s t h = let (u, f, g) = bind_some (step e s) (run later) t h in (s, u, f, g)
run_through (d ∷ before) e later s t h =
    let (u, f, g) = bind_some (step d s) (run (before ++ e ∷ later)) t h in
    run_through before e later u t g
