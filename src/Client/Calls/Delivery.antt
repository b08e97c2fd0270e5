-- ===== src/Client/Calls/Delivery.antt =====
-- A response that arrives while its call waits: the steps that bring it to the caller.
use gffg.Prelude.{ℕ, ◌≡◌, ◌≢◌, ◌∙◌, inl, inr, none, some, true}
use gffg.Prelude.Int.{ℤ}
use gffg.Prelude.Text.{Text}
use gffg.Client.Calls.{
  CallCond, waiting, woken, finished, Handling, idle, Table, update, Unlocked, result_of,
  rendezvous, collect, Reach, next,
}
use gffg.Client.Calls.Deadlock.{update_cases, update_self, to_sending}

-- A call in its `select`, with its entry, while no goroutine holds the lock.
pub record IsWaiting (t : Table) (sid : ℕ) (c : CallCond) : Type 0 where
  pub in_select : t.phase sid ≡ waiting
  pub entry : t.call_item sid ≡ some c
  pub open_ch : c.is_open ≡ true
  pub free : Unlocked t

-- The entry with the response in it.
abbrev pub filled : CallCond → ℤ → Text → CallCond
filled c code body = record c { code = code; packet = body }

released :
    (before after : ℕ → Handling) (conn : ℕ)
    → ((k : ℕ) → before k ≡ idle)
    → ((k : ℕ) → conn ≢ k → after k ≡ before k)
    → (k : ℕ) → update after conn idle k ≡ idle
released before after conn free same k = elim (update_cases after conn idle k) [
  | inl (at, e) ↦ e
  | inr (other, e) ↦ e ∙ same k other ∙ free k
]

module _ (Arrives : ℕ → ℤ → Text → Type 0) where
  -- The handler of a connection stores the response and sends, the call wakes, and then takes it: the call
  -- ends with the result of the response, its entry is gone, and no goroutine holds the lock.
  pub delivered :
      (t : Table) (conn sid : ℕ) (c : CallCond) (code : ℤ) (body : Text)
      → IsWaiting t sid c
      → Arrives sid code body
      → (u : Table) × Reach Arrives t u
        × (u.phase sid ≡ finished (result_of (filled c code body)))
        × (u.call_item sid ≡ none)
        × Unlocked u
  delivered t conn sid c code body w a =
      let (items, receiver, sent, entry, holds, same) =
        to_sending Arrives t conn sid c code body (w.free.0 conn) w.entry w.open_ch
          (λ k e. cc (w.free.0 k, e)) a in
      let met = rendezvous conn sid holds w.in_select in
      let unlocked : Unlocked (record t {
        call_item = items;
        phase = update t.phase sid woken;
        receiver = update receiver conn idle;
      }) =
        (released t.receiver receiver conn w.free.0 same, w.free.1) in
      let taken = collect sid (filled c code body) (update_self t.phase sid woken) unlocked entry in
      (
        _,
        next (next sent met) taken,
        update_self (update t.phase sid woken) sid _,
        update_self items sid none,
        unlocked,
      )
