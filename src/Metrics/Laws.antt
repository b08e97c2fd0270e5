-- ===== src/Metrics/Laws.antt =====
-- The batches lose nothing, and the channel never blocks the goroutine that reports.
use gffg.Prelude.{
  ℕ, zero, suc, ◌-◌, ◌≤◌, ◌<◌, ◌≡◌, ◌≢◌, refl, sym, ap, ◌∙◌, arith, Option, some, List, [], ◌∷◌,
  ◌++◌, false, length, take, drop, ltb, leb, ◌==◌, Bool-cases, inl, inr, take-append-drop,
  length-take, length-drop, ltb→lt, ltb→le,
}
use mathlib.Core.List.{append-nil, append_assoc}
use gffg.Metrics.{
  Metric, max_ch, max_push, put_batch, combine_loop, combine, Reporter, Sent, accepted, dropped,
  blocked, to, gathered, gather, tick,
}

abbrev pub concat : List (List Metric) → List Metric
concat [] = []
concat (batch ∷ batches) = batch ++ concat batches

-- Batches of one to a thousand metrics.
pub data Sized : List (List Metric) → Type 0 where
  no_batch : Sized []
  one_more :
      (batch : List Metric) (batches : List (List Metric))
      → 0 < length batch
      → length batch ≤ 1000
      → Sized batches
      → Sized (batch ∷ batches)

abbrev Batched : List Metric → Option (List (List Metric)) → Type 0
Batched its o =
    (batches : List (List Metric)) × (o ≡ some batches) × (concat batches ≡ its) × Sized batches

combine_loop-Batched :
    (fuel : ℕ) (its : List Metric)
    → 0 < length its
    → length its ≤ fuel
    → Batched its (combine_loop fuel its)
unfolding combine_loop
combine_loop-Batched zero its some_left enough = absurd (omega arith)
combine_loop-Batched (suc fuel) its some_left enough =
    elim (Bool-cases (ltb max_push (length its))) [
      | inl more ↦
          let lt = ltb→lt max_push (length its) more in
          let shorter = length-drop max_push its in
          rw more (
            put its
              (combine_loop-Batched fuel (drop max_push its) (omega (arith, lt, shorter))
                (omega (arith, lt, shorter)))
              (omega (arith, lt, length-take max_push its))
              (omega (arith, length-take max_push its)))
      | inr all ↦ rw all (
        its ∷ [],
        refl,
        append-nil its,
        one_more its [] some_left (omega (arith, ltb→le max_push (length its) all)) no_batch,
      )
    ]
  where
    put :
        (its : List Metric)
        → Batched (drop max_push its) (combine_loop fuel (drop max_push its))
        → 0 < length (take max_push its)
        → length (take max_push its) ≤ 1000
        → Batched its (put_batch (take max_push its) (combine_loop fuel (drop max_push its)))
    put its (batches, e, c, sized) nonempty small = (
      take max_push its ∷ batches,
      rw e refl,
      ap (λ rest. take max_push its ++ rest) c ∙ take-append-drop max_push its,
      one_more (take max_push its) batches nonempty small sized,
    )

-- combine ends on every list of metrics, and the batches that it reports are the list cut into
-- pieces of one to a thousand metrics, in order.
pub combine-Sized :
    (its : List Metric)
    → (batches : List (List Metric)) × (combine its ≡ some batches)
      × (concat batches ≡ its)
      × Sized batches
unfolding combine
combine-Sized [] = ([], refl, refl, no_batch)
combine-Sized (it ∷ its) =
    rw (not_zero (length its))
      (combine_loop-Batched (length (it ∷ its)) (it ∷ its) (omega arith) (omega arith))
  where
    not_zero : (n : ℕ) → (suc n == 0) ≡ false
    not_zero n = ground arith

-- A metric that is reported, a receive of the loop, and a tick of its timer, in any order.
pub data Event : Type 0 where
  send : Metric → Event
  receive : Event
  timer : Event

unfoldable pub step : Event → Reporter → Reporter
unfolding to gather tick
step (send it) r = (to it r).0
step receive r = gather r
step timer r = tick r

unfoldable pub run : List Event → Reporter → Reporter
run [] r = r
run (e ∷ events) r = run events (step e r)

-- What `to` has accepted.
abbrev kept : Metric → Sent → List Metric
kept it accepted = it ∷ []
kept it dropped = []
kept it blocked = []

unfoldable pub all_accepted : List Event → Reporter → List Metric
unfolding to
all_accepted [] r = []
all_accepted (send it ∷ events) r = kept it (to it r).1 ++ all_accepted events (step (send it) r)
all_accepted (receive ∷ events) r = all_accepted events (step receive r)
all_accepted (timer ∷ events) r = all_accepted events (step timer r)

-- All that a reporter has, the oldest first.
abbrev pub held : Reporter → List Metric
held r = concat r.batches ++ (r.lists ++ r.m_ch)

concat-append : (xs ys : List (List Metric)) → concat (xs ++ ys) ≡ concat xs ++ concat ys
concat-append [] ys = refl
concat-append (x ∷ xs) ys = rw (concat-append xs ys) (sym (append_assoc x (concat xs) (concat ys)))

held-tick : (r : Reporter) → held (tick r) ≡ held r
unfolding tick
held-tick r =
    let (batches, e, c, sized) = combine-Sized r.lists in
    rw (e, concat-append r.batches batches, c) (append_assoc (concat r.batches) r.lists r.m_ch)

held-gather : (r : Reporter) → held (gather r) ≡ held r
unfolding gather
held-gather r = go r.m_ch
  where
    go :
        (queue : List Metric)
        → held (gathered (record r { m_ch = queue }) queue) ≡ concat r.batches ++ (r.lists ++ queue)
    go [] = refl
    go (it ∷ rest) = ap (λ x. concat r.batches ++ x) (append_assoc r.lists (it ∷ []) rest)

not_leb : (n : ℕ) → n ≤ 9990 → leb max_ch n ≡ false
not_leb n h = ground arith

held-to : (it : Metric) (r : Reporter) → held (to it r).0 ≡ held r ++ kept it (to it r).1
unfolding to
held-to it r = elim (Bool-cases (ltb (max_ch - 10) (length r.m_ch))) [
  | inl full ↦ rw full (sym (append-nil (held r)))
  | inr room ↦
      rw (room, not_leb (length r.m_ch) (ltb→le (max_ch - 10) (length r.m_ch) room))
        (ap (λ x. concat r.batches ++ x) (sym (append_assoc r.lists r.m_ch (it ∷ [])))
          ∙ sym (append_assoc (concat r.batches) (r.lists ++ r.m_ch) (it ∷ [])))
]

-- In any sequence of reported metrics, receives of the loop and ticks of its timer, the batches,
-- the gathered list and the channel hold, in this order, what they held before followed by the
-- metrics that the channel has accepted.
pub run-held :
    (events : List Event) (r : Reporter) → held (run events r) ≡ held r ++ all_accepted events r
unfolding run all_accepted step
run-held [] r = sym (append-nil (held r))
run-held (send it ∷ events) r =
    run-held events (to it r).0
    ∙ ap (λ x. x ++ all_accepted events (to it r).0) (held-to it r)
    ∙ append_assoc (held r) (kept it (to it r).1) (all_accepted events (to it r).0)
run-held (receive ∷ events) r =
    run-held events (gather r) ∙ ap (λ x. x ++ all_accepted events (gather r)) (held-gather r)
run-held (timer ∷ events) r =
    run-held events (tick r) ∙ ap (λ x. x ++ all_accepted events (tick r)) (held-tick r)

-- A metric that is reported, in one step, is accepted or dropped: the send never waits for room in
-- the channel.
pub to-ne-blocked : (it : Metric) (r : Reporter) → (to it r).1 ≢ blocked
unfolding to
to-ne-blocked it r = elim (Bool-cases (ltb (max_ch - 10) (length r.m_ch))) [
  | inl full ↦ rw full (λ e. cc e)
  | inr room ↦
      rw (room, not_leb (length r.m_ch) (ltb→le (max_ch - 10) (length r.m_ch) room)) (λ e. cc e)
]
