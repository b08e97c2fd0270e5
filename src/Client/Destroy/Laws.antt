-- ===== src/Client/Destroy/Laws.antt =====
-- Destroy of a client whose calls have failed to write, and of one whose calls have not.
use gffg.Prelude.{
  ℕ, ◌≡◌, ◌≢◌, refl, sym, ap, ◌∙◌, ◌⊎◌, inl, inr, Option, none, some, List, [], ◌∷◌, ◌++◌, map,
  true, false, Bool-cases,
}
use mathlib.Core.Path.{subst}
use gffg.Prelude.Int.{ℤ, pos, eq_ℤ}
use gffg.Prelude.Text.{Text}
use gffg.Registry.{done}
use gffg.Client.Pool.{Conn}
use gffg.Client.Calls.{
  CallCond, Phase, writing, shutting, waiting, expired, woken, finished, write_failed, timed_out,
  Table, update, result_of, Step, register, wait, fail, fail_met, shut, take_up, store_packet,
  store_code, test_open, test_met, test_closed, send_panics, rendezvous, expire, give_up, collect,
  Reach, here, next, start,
}
use gffg.Client.Calls.Deadlock.{update_cases, update_self}
use gffg.Client.Destroy.{panics, close_calls, Locks, destroy, put_entry, entries}

-- The entry of a call is there, with its channel closed.
abbrev Stale : (ℕ → Option CallCond) → ℕ → Type 0
Stale items sid = (c : CallCond) × (items sid ≡ some c) × (c.is_open ≡ false)

abbrev Failed : Table → Type 0
Failed t = (sid : ℕ) → t.phase sid ≡ finished write_failed → Stale t.call_item sid

result_apart : (c : CallCond) → finished (result_of c) ≢ finished write_failed
result_apart c = elim (Bool-cases (eq_ℤ (pos 0) c.code)) [
  | inl zero_code ↦ rw zero_code (λ e. cc e)
  | inr other ↦ rw other (λ e. cc e)
]

-- The phase of one call changes, and its entry may.
elsewhere :
    (t : Table) (k : ℕ) (v : Option CallCond) (x : Phase)
    → Failed t
    → (x ≡ finished write_failed → Stale (update t.call_item k v) k)
    → (sid : ℕ) → update t.phase k x sid ≡ finished write_failed
    → Stale (update t.call_item k v) sid
elsewhere t k v x f at sid e = elim (update_cases t.phase k x sid) [
  | inl (same, p) ↦ subst (Stale (update t.call_item k v)) same (at (sym p ∙ e))
  | inr (other, p) ↦ moved other (f sid (sym p ∙ e)) (update_cases t.call_item k v sid)
]
  where
    moved :
        k ≢ sid
        → Stale t.call_item sid
        → ((k ≡ sid) × (update t.call_item k v sid ≡ v))
          ⊎ ((k ≢ sid) × (update t.call_item k v sid ≡ t.call_item sid))
        → Stale (update t.call_item k v) sid
    moved other (c, i, o) (inl (same, u)) = absurd (other same)
    moved other (c, i, o) (inr (apart, u)) = (c, u ∙ i, o)

phase_only :
    (t : Table) (k : ℕ) (x : Phase)
    → Failed t
    → x ≢ finished write_failed
    → (sid : ℕ) → update t.phase k x sid ≡ finished write_failed
    → Stale t.call_item sid
phase_only t k x f ne sid e = elim (update_cases t.phase k x sid) [
  | inl (same, p) ↦ absurd (ne (sym p ∙ e))
  | inr (other, p) ↦ f sid (sym p ∙ e)
]

-- A store into an entry leaves its channel as it is.
stored :
    (items : ℕ → Option CallCond) (k : ℕ) (c c' : CallCond)
    → items k ≡ some c
    → c'.is_open ≡ c.is_open
    → (sid : ℕ) → Stale items sid
    → Stale (update items k (some c')) sid
stored items k c c' i same_open sid (d, e, o) = elim (update_cases items k (some c') sid) [
  | inl (same, u) ↦ (
    c',
    u,
    same_open ∙ ap (λ (x : CallCond). x.is_open) (entry_eq c d (sym i ∙ ap items same ∙ e)) ∙ o,
  )
  | inr (other, u) ↦ (d, u ∙ e, o)
]
  where
    entry_eq : (c d : CallCond) → some c ≡ some d → c ≡ d
    entry_eq c d e = cc e

closed :
    (items : ℕ → Option CallCond) (k : ℕ) (c : CallCond)
    → Stale (update items k (some (record c { is_open = false }))) k
closed items k c = (record c { is_open = false }, update_self items k _, refl)

module _ (Arrives : ℕ → ℤ → Text → Type 0) where
  kept_stale : {t u : Table} → Step Arrives t u → Failed t → Failed u
  kept_stale {t} (register sid p free) f = elsewhere t sid _ writing f (λ e. cc e)
  kept_stale {t} (wait sid p) f = phase_only t sid waiting f (λ e. cc e)
  kept_stale {t} (fail sid p away) f = phase_only t sid shutting f (λ e. cc e)
  kept_stale {t} (fail_met conn sid p q) f = phase_only t sid shutting f (λ e. cc e)
  kept_stale {t} (shut sid c p i) f =
      elsewhere t sid _ (finished write_failed) f (λ e. closed t.call_item sid c)
  kept_stale {t} (take_up conn sid code body c p a i) f = f
  kept_stale {t} (store_packet conn sid code body c p i) f =
      λ s e. stored t.call_item sid c _ i refl s (f s e)
  kept_stale {t} (store_code conn sid code c p i) f =
      λ s e. stored t.call_item sid c _ i refl s (f s e)
  kept_stale {t} (test_open conn sid c p i o away) f = f
  kept_stale {t} (test_met conn other sid c p q i o) f = f
  kept_stale {t} (test_closed conn sid c p i o) f = f
  kept_stale {t} (send_panics conn sid c p i o) f = f
  kept_stale {t} (rendezvous conn sid r p) f = phase_only t sid woken f (λ e. cc e)
  kept_stale {t} (expire sid p) f = phase_only t sid expired f (λ e. cc e)
  kept_stale {t} (give_up sid p free) f = elsewhere t sid _ (finished timed_out) f (λ e. cc e)
  kept_stale {t} (collect sid c p free i) f =
      elsewhere t sid _ (finished (result_of c)) f (λ e. absurd (result_apart c e))

  reached_stale : {t : Table} → Reach Arrives start t → Failed t
  reached_stale here = λ sid e. cc e
  reached_stale (next r st) = kept_stale st (reached_stale r)

  closing_panics :
      (t : Table) (sockets : List ℕ) (before : List ℕ) (sid : ℕ) (after : List ℕ)
      → Stale t.call_item sid
      → close_calls sockets (entries t (before ++ sid ∷ after)) ≡ panics sockets
  closing_panics t sockets [] sid after (c, i, o) = rw (i, o) refl
  closing_panics t sockets (k ∷ before) sid after s =
      at (t.call_item k) (closing_panics t sockets before sid after s)
    where
      at :
          (v : Option CallCond)
          → close_calls sockets (entries t (before ++ sid ∷ after)) ≡ panics sockets
          → close_calls sockets (put_entry v (entries t (before ++ sid ∷ after))) ≡ panics sockets
      at none h = h
      at (some c) h = elim (Bool-cases c.is_open) [ inl o ↦ rw o h | inr o ↦ rw o refl ]

  -- In every state that the calls can reach, if the write of a call has failed, then Destroy, with
  -- its registry destroyed, and if it gets both read locks, closes the sockets and panics in the
  -- range over the calls, in whatever order it meets their entries.
  pub destroy_panics {ℓ} :
      {A : Type ℓ} {t : Table} (a : A) (conns : List Conn) (sid : ℕ) (before after : List ℕ)
      (locks : Locks)
      → Reach Arrives start t
      → t.phase sid ≡ finished write_failed
      → locks.rw_read ≡ true
      → locks.wrw_read ≡ true
      → destroy locks (done a) conns (entries t (before ++ sid ∷ after))
        ≡ panics (map (λ c. c.socket) conns)
  destroy_panics {t = t} a conns sid before after locks r e l l' =
      rw (l, l')
        (closing_panics t (map (λ c. c.socket) conns) before sid after (reached_stale r sid e))
