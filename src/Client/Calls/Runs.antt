-- ===== src/Client/Calls/Runs.antt =====
-- A call that is answered, one that jams the client, and the theorems on them.
use gffg.Prelude.{ℕ, ◌≡◌, refl, some, false, [], ◌∷◌}
use gffg.Prelude.Int.{pos}
use gffg.Client.Calls.{
  writing, waiting, expired, packet, sending, Table, update, fresh, wait, Reach, here, next, start,
}
use gffg.Client.Calls.Deadlock.{Leaving, by_timer, Jam, deadlock_forever, deadlock_reachable}
use gffg.Client.Calls.Sample.{Answer, answered, to_done}
use gffg.Client.Calls.Laws.{Good, returned-Good}

returned-Good_example : Good Answer 3 (packet (1 ∷ []))
returned-Good_example = returned-Good Answer 3 (packet (1 ∷ [])) to_done refl

-- Call 3 is past its timer, call 4 writes.
abbrev jammed : Table
jammed = record {
  call_item = update (update start.call_item 3 (some answered)) 4 (some fresh);
  phase = update (update start.phase 3 expired) 4 writing;
  receiver = update start.receiver 0 (sending 3);
  leaked = false;
}

abbrev later : Table
later = record jammed { phase = update jammed.phase 4 waiting }

deadlock_forever_example :
    Jam later × ((sid : ℕ) → Leaving (jammed.phase sid) → later.phase sid ≡ jammed.phase sid)
deadlock_forever_example =
    deadlock_forever Answer (next here (wait 4 refl)) (record {
      conn = 0;
      sid = 3;
      holds = refl;
      leaves = by_timer;
      entry = (answered, refl, refl);
    })

deadlock_reachable_example : (t : Table) × Reach Answer start t × Jam t
deadlock_reachable_example = deadlock_reachable Answer 0 3 (pos 0) (1 ∷ []) (refl, refl, refl)
