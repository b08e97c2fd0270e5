-- ===== src/Client/Destroy/Runs.antt =====
-- A client that is destroyed after a call whose write has failed.
use gffg.Prelude.{ℕ, ◌≡◌, refl, [], ◌∷◌, ◌++◌, some, true, false}
use gffg.Prelude.Int.{ℤ}
use gffg.Prelude.Text.{Text, codes}
use gffg.Registry.{done}
use gffg.Client.Pool.{Conn}
use gffg.Client.Calls.{
  writing, shutting, finished, write_failed, Table, update, fresh, register, fail, shut, Reach,
  here, next, start,
}
use gffg.Client.Destroy.{panics, closed_all, waits, Locks, destroy, entries}
use gffg.Client.Destroy.Laws.{destroy_panics}

abbrev Nothing : ℕ → ℤ → Text → Type 0
Nothing sid code body = ⊥

abbrev sent : Table
sent = record start {
  call_item = update start.call_item 3 (some fresh);
  phase = update start.phase 3 writing;
}

abbrev lost : Table
lost = record sent {
  call_item = update sent.call_item 3 (some (record fresh { is_open = false }));
  phase = update (update sent.phase 3 shutting) 3 (finished write_failed);
}

to_lost : Reach Nothing start lost
to_lost =
    next (next (next here (register 3 refl (λ c. refl, refl))) (fail 3 refl (λ c e. cc e)))
      (shut 3 fresh refl refl)

abbrev free : Locks
free = record { rw_read = true; wrw_read = true }

abbrev conn : Conn
conn = record {
  socket = 5;
  instance_id = 0;
  name = codes "n";
  svrname = codes "s";
  stamp = 0;
  group = codes "g";
}

destroy_panics_example :
    destroy {A = ℕ} free (done 0) (conn ∷ []) (entries lost ((1 ∷ []) ++ 3 ∷ [])) ≡ panics (5 ∷ [])
destroy_panics_example =
    destroy_panics Nothing {A = ℕ} 0 (conn ∷ []) 3 (1 ∷ []) [] free to_lost refl refl refl

-- While the call writes, its channel is open.
all_open :
    destroy {A = ℕ} free (done 0) (conn ∷ []) (entries sent (1 ∷ 3 ∷ [])) ≡ closed_all (5 ∷ [])
all_open = refl

-- A writer that waits for the lock of the calls keeps Destroy in its `RLock`.
jammed :
    destroy {A = ℕ} (record free { wrw_read = false }) (done 0) (conn ∷ []) (entries lost (3 ∷ []))
    ≡ waits (5 ∷ [])
jammed = refl
