-- ===== src/Kafka/Loops.antt =====
-- The goroutines of the partitions: which of them run, and what ends one.
use gffg.Prelude.{
  ℕ, zero, suc, ◌+◌, ◌≡◌, refl, sym, ap, ◌∙◌, arith, Option, none, some, List, [], ◌∷◌, ◌++◌, true,
  false, map, length, Bool-cases, inl, inr,
}
use gffg.Kafka.{Goroutine, halt, in_progress, add_loop}

add_loop-some :
    (l : Goroutine) (o : Option (List Goroutine)) (ms : List Goroutine)
    → add_loop l o ≡ some ms
    → (rest : List Goroutine) × (o ≡ some rest) × (l ∷ rest ≡ ms)
add_loop-some l none ms h = cc
add_loop-some l (some rest) ms h = (rest, refl, cc)

-- What one goroutine adds to the counter.
pub in_progress_running :
    (l : Goroutine) (ls : List Goroutine)
    → l.running ≡ true
    → in_progress (l ∷ ls) ≡ suc (in_progress ls)
in_progress_running l ls r = rw r refl

pub in_progress_idle :
    (l : Goroutine) (ls : List Goroutine)
    → l.running ≡ false
    → in_progress (l ∷ ls) ≡ in_progress ls
in_progress_idle l ls r = rw r refl

live_cons :
    (l : Goroutine) (ls ms : List Goroutine)
    → in_progress ls ≡ suc (in_progress ms)
    → in_progress (l ∷ ls) ≡ suc (in_progress (l ∷ ms))
live_cons l ls ms h = elim (Bool-cases l.running) [ inl r ↦ rw r (ap suc h) | inr r ↦ rw r h ]

pub halt_lem :
    (i : ℕ) (ls ms : List Goroutine)
    → halt i ls ≡ some ms
    → (map (λ l. l.partition) ms ≡ map (λ l. l.partition) ls)
      × (length ms ≡ length ls)
      × (in_progress ls ≡ suc (in_progress ms))
halt_lem i [] ms h = cc
halt_lem zero (l ∷ ls) ms h = ground arith
halt_lem (suc i) (l ∷ ls) ms h =
    let (rest, e, same) = add_loop-some l (halt i ls) ms h in
    let (parts, len, live) = halt_lem i ls rest e in
    (
      rw (sym same) (ap (◌∷◌ l.partition) parts),
      rw (sym same) (ap suc len),
      rw (sym same) (live_cons l ls rest live),
    )

pub in_progress-append :
    (xs ys : List Goroutine) → in_progress (xs ++ ys) ≡ in_progress xs + in_progress ys
in_progress-append [] ys = omega arith
in_progress-append (l ∷ xs) ys = elim (Bool-cases l.running) [
  | inl r ↦ rw r (omega (arith, in_progress-append xs ys))
  | inr r ↦ rw r (in_progress-append xs ys)
]

pub map-append :
    (xs ys : List Goroutine)
    → map (λ l. l.partition) (xs ++ ys) ≡ map (λ l. l.partition) xs ++ map (λ l. l.partition) ys
map-append [] ys = refl
map-append (l ∷ xs) ys = ap (◌∷◌ l.partition) (map-append xs ys)

pub first_running :
    (ls : List Goroutine) (k : ℕ)
    → in_progress ls ≡ suc k
    → (i : ℕ) × (ms : List Goroutine) × (halt i ls ≡ some ms) × (in_progress ms ≡ k)
first_running [] k h = absurd (omega (arith, h))
first_running (l ∷ ls) k h = elim (Bool-cases l.running) [
  | inl r ↦ (
    0,
    record l { running = false } ∷ ls,
    rw r refl,
    omega (arith, h, in_progress_running l ls r),
  )
  | inr r ↦
      let (i, ms, e, f) = first_running ls k (sym (in_progress_idle l ls r) ∙ h) in
      (suc i, l ∷ ms, ap (add_loop l) e, in_progress_idle l ms r ∙ f)
]
