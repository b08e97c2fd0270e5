-- ===== src/Client/Calls/Sample.antt =====
-- A call that is answered, step by step, for runs.
use gffg.Prelude.{ℕ, ◌≡◌, ◌≢◌, refl, none, some, [], ◌∷◌, true, ◌==◌, Bool-cases, inl, inr}
use gffg.Prelude.Int.{ℤ, pos}
use gffg.Prelude.Text.{Text}
use gffg.Client.Calls.{
  CallCond, writing, waiting, woken, finished, Table, update, fresh, register, wait, idle, storing,
  coding, testing, sending, take_up, store_packet, store_code, test_open, rendezvous, collect,
  Reach, here, next, start, result_of,
}

-- The one response of these runs.
abbrev pub Answer : ℕ → ℤ → Text → Type 0
Answer sid code body = (sid ≡ 3) × (code ≡ pos 0) × (body ≡ 1 ∷ [])

abbrev pub answered : CallCond
answered = record { is_open = true; code = pos 0; packet = 1 ∷ [] }

abbrev pub sent : Table
sent = record start {
  call_item = update start.call_item 3 (some fresh);
  phase = update start.phase 3 writing;
}

abbrev pub selecting : Table
selecting = record sent { phase = update sent.phase 3 waiting }

abbrev taken_up : Table
taken_up = record selecting { receiver = update selecting.receiver 0 (storing 3 (pos 0) (1 ∷ [])) }

abbrev stored : Table
stored = record taken_up {
  call_item = update taken_up.call_item 3 (some (record fresh { packet = 1 ∷ [] }));
  receiver = update taken_up.receiver 0 (coding 3 (pos 0));
}

abbrev coded : Table
coded = record stored {
  call_item = update stored.call_item 3 (some answered);
  receiver = update stored.receiver 0 (testing 3);
}

abbrev pub delivered : Table
delivered = record coded { receiver = update coded.receiver 0 (sending 3) }

abbrev pub met : Table
met = record delivered {
  phase = update delivered.phase 3 woken;
  receiver = update delivered.receiver 0 idle;
}

abbrev pub done : Table
done = record met {
  call_item = update met.call_item 3 none;
  phase = update met.phase 3 (finished (result_of answered));
}

pub to_selecting : Reach Answer start selecting
to_selecting = next (next here (register 3 refl (λ c. refl, refl))) (wait 3 refl)

nobody_sends : (conn : ℕ) → coded.receiver conn ≢ sending 3
nobody_sends conn = elim (Bool-cases (0 == conn)) [
  | inl same ↦ rw same (λ e. cc e)
  | inr other ↦ rw other (λ e. cc e)
]

to_delivered : Reach Answer start delivered
to_delivered =
    next
      (next
        (next (next to_selecting (take_up 0 3 (pos 0) (1 ∷ []) fresh refl (refl, refl, refl) refl))
          (store_packet 0 3 (pos 0) (1 ∷ []) fresh refl refl))
        (store_code 0 3 (pos 0) (record fresh { packet = 1 ∷ [] }) refl refl))
      (test_open 0 3 answered refl refl refl nobody_sends)

nobody : (conn : ℕ) → met.receiver conn ≡ idle
nobody conn = elim (Bool-cases (0 == conn)) [ inl same ↦ rw same refl | inr other ↦ rw other refl ]

pub to_done : Reach Answer start done
to_done =
    next (next to_delivered (rendezvous 0 3 refl refl))
      (collect 3 answered refl (nobody, refl) refl)
