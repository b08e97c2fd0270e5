-- ===== src/Kafka/Invariant.antt =====
-- The partitions, the goroutines and the closed consumers of Consume, through its steps.
use gffg.Prelude.{
  ℕ, zero, suc, ◌+◌, ◌≤◌, ◌≡◌, refl, sym, ap, ◌∙◌, arith, Option, none, some, List, [], ◌∷◌, ◌++◌,
  Bool, true, false, map, length, length-append, Bool-cases, inl, inr,
}
use gffg.Prelude.Int.{ℤ}
use gffg.Prelude.Text.{Text}
use mathlib.Core.Path.{subst}
use mathlib.Core.List.{append_assoc, append-nil}
use gffg.Kafka.{
  Goroutine, Stage, serving, aborted, returned, Consumption, entered, known, consume, Event, opens,
  open_fails, interrupt, receives, breaks, takes_signal, waited, halt, running_at, in_progress,
  open_next, abort, on_message, with_loops, close_all, step, run, Callback,
}
use gffg.Kafka.Loops.{halt_lem, in_progress-append, map-append}
use gffg.Kafka.Trace.{ending, endings, Holds, run_reaches}

abbrev flag : Bool → ℕ
flag true = 1
flag false = 0

-- What is closed, by where Consume stands.
abbrev pub Closing : Stage → List ℤ → List ℤ → List ℤ → ℕ → Type 0
Closing returned ps shut pending live = (shut ≡ ps) × (pending ≡ []) × (live ≡ 0)
Closing _ ps shut pending live = shut ≡ []

pub record Consistent (ps : List ℤ) (n : ℕ) (s : Consumption) : Type 0 where
  pub order : map (λ l. l.partition) s.loops ++ s.pending ≡ ps
  pub live : length s.loops + flag s.signals ≤ in_progress s.loops + n
  pub closing : Closing s.stage ps s.shut s.pending (in_progress s.loops)

abbrev Next : List ℤ → ℕ → Option Consumption → Type 0
Next ps n = Holds (Consistent ps n)

module _ (ps : List ℤ) (n : ℕ) where
  open_lem :
      (g : Stage) (parts : List ℤ) (s : Consumption)
      → Consistent ps n (record s { stage = g; pending = parts })
      → Next ps n (open_next g parts (record s { stage = g; pending = parts }))
  open_lem serving [] s c = tt
  open_lem serving (p ∷ parts) s c = record {
    order =
        ap (◌++ parts) (map-append s.loops (record { partition = p; running = true } ∷ []))
        ∙ append_assoc (map (λ l. l.partition) s.loops) (p ∷ []) parts
        ∙ c.order;
    live = omega (
      arith,
      c.live,
      length-append s.loops (record { partition = p; running = true } ∷ []),
      in_progress-append s.loops (record { partition = p; running = true } ∷ []),
    );
    closing = c.closing;
  }
  open_lem aborted parts s c = tt
  open_lem returned parts s c = tt

  abort_lem :
      (g : Stage) (parts : List ℤ) (e : Text) (s : Consumption)
      → Consistent ps n (record s { stage = g; pending = parts })
      → Next ps n (abort g parts e (record s { stage = g; pending = parts }))
  abort_lem serving [] e s c = tt
  abort_lem serving (p ∷ parts) e s c = record {
    order = c.order;
    live = c.live;
    closing = c.closing;
  }
  abort_lem aborted parts e s c = tt
  abort_lem returned parts e s c = tt

  close_lem :
      (g : Stage) (parts : List ℤ) (k : ℕ) (s : Consumption)
      → in_progress s.loops ≡ k
      → Consistent ps n (record s { stage = g; pending = parts })
      → Next ps n (close_all g parts k (record s { stage = g; pending = parts }))
  close_lem serving [] zero s h c = record {
    order = c.order;
    live = c.live;
    closing = (sym (append-nil (map (λ l. l.partition) s.loops)) ∙ c.order, refl, h);
  }
  close_lem serving [] (suc k) s h c = tt
  close_lem serving (p ∷ parts) k s h c = tt
  close_lem aborted parts k s h c = tt
  close_lem returned parts k s h c = tt

  message_lem :
      (o : Option ℤ) (offset : ℤ) (value : Text) (s : Consumption)
      → Consistent ps n s
      → Next ps n (on_message o offset value s)
  message_lem none offset value s c = tt
  message_lem (some p) offset value s c = record {
    order = c.order;
    live = c.live;
    closing = c.closing;
  }

  closing_less :
      (g : Stage) (shut parts : List ℤ) (k : ℕ)
      → Closing g ps shut parts (suc k)
      → Closing g ps shut parts k
  closing_less serving shut parts k h = h
  closing_less aborted shut parts k h = h
  closing_less returned shut parts k (a, b, h) = absurd (omega (arith, h))

  -- A goroutine returns, for a signal or for an error.
  halted :
      (o : Option (List Goroutine)) (s : Consumption) (i extra : ℕ) (signal : Bool)
      (cs : List Callback)
      → halt i s.loops ≡ o
      → flag signal + 1 ≤ flag s.signals + extra
      → Consistent ps n s
      → Next ps (n + extra) (with_loops o (record s { signals = signal; callbacks = cs }))
  halted none s i extra signal cs h f c = tt
  halted (some ls) s i extra signal cs h f c =
      let (parts, len, live) = halt_lem i s.loops ls h in
      record {
        order = ap (◌++ s.pending) parts ∙ c.order;
        live = omega (arith, c.live, f, len, live);
        closing =
            closing_less s.stage s.shut s.pending (in_progress ls)
              (subst (Closing s.stage ps s.shut s.pending) live c.closing);
      }

  weaken : (k : ℕ) (s : Consumption) → Consistent ps n s → Consistent ps (n + k) s
  weaken k s c = record { order = c.order; live = omega (arith, c.live); closing = c.closing }

step-Next :
    (ps : List ℤ) (n : ℕ) (e : Event) (s : Consumption)
    → Consistent ps n s
    → Next ps (n + ending e) (step e s)
unfolding step
step-Next ps n opens s c = open_lem ps (n + 0) s.stage s.pending s (weaken ps n 0 s c)
step-Next ps n (open_fails e) s c = abort_lem ps (n + 0) s.stage s.pending e s (weaken ps n 0 s c)
step-Next ps n interrupt s c = record {
  order = c.order;
  live = omega (arith, c.live);
  closing = c.closing;
}
step-Next ps n (receives i offset value) s c =
    message_lem ps (n + 0) (running_at i s.loops) offset value s (weaken ps n 0 s c)
step-Next ps n (breaks i e) s c =
    halted ps n (halt i s.loops) s i 1 s.signals _ refl (omega arith) c
step-Next ps n (takes_signal i) s c = elim (Bool-cases s.signals) [
  | inl held ↦
      rw held (halted ps n (halt i s.loops) s i 0 false s.callbacks refl (rw held (omega arith)) c)
  | inr idle ↦ rw idle tt
]
step-Next ps n waited s c =
    close_lem ps (n + 0) s.stage s.pending (in_progress s.loops) s refl (weaken ps n 0 s c)

entered-Consistent : (ps : List ℤ) → Consistent ps 0 (entered ps)
entered-Consistent ps = record { order = refl; live = omega arith; closing = refl }

pub reached :
    (ps : List ℤ) (events : List Event) (s : Consumption)
    → run events (consume (known ps)) ≡ some s
    → Consistent ps (endings events) s
unfolding consume
reached ps events s h =
    run_reaches (Consistent ps) (step-Next ps) events (entered ps) s h (entered-Consistent ps)
