-- ===== src/Client/Calls/Deadlock.antt =====
-- A response that arrives while its call is past the timer but has not yet taken the lock.
use gffg.Prelude.{
  ℕ, ◌≡◌, ◌≢◌, refl, sym, ap, ◌∙◌, ◌⊎◌, inl, inr, Option, some, true, false, ◌==◌, Bool-cases,
  ==_iff,
}
use mathlib.Core.Path.{subst}
use gffg.Prelude.Int.{ℤ}
use gffg.Prelude.Text.{Text}
use gffg.Client.Calls.{
  CallCond, Phase, absent, writing, shutting, waiting, expired, woken, finished, write_failed,
  Handling, idle, storing, coding, testing, sending, Table, update, Unlocked, fresh, Step, register,
  wait, fail, fail_met, shut, take_up, store_packet, store_code, test_open, test_met, test_closed,
  send_panics, rendezvous, expire, give_up, collect, Reach, here, next, start,
}

-- A call past its `select`: what is left for it is to take the lock and to return.
pub data Leaving : Phase → Type 0 where
  by_timer : Leaving expired
  by_channel : Leaving woken

-- The entry of a call is there, with its channel open.
abbrev pub OpenEntry : (ℕ → Option CallCond) → ℕ → Type 0
OpenEntry items sid = (c : CallCond) × (items sid ≡ some c) × (c.is_open ≡ true)

-- A receiver holds the read lock in `Ch <- 0`, for a call that no longer reads the channel and has not
-- closed it.
pub record Jam (t : Table) : Type 0 where
  pub conn : ℕ
  pub sid : ℕ
  pub holds : t.receiver conn ≡ sending sid
  pub leaves : Leaving (t.phase sid)
  pub entry : OpenEntry t.call_item sid

pub update_cases {ℓ} :
    {A : Type ℓ} (f : ℕ → A) (k : ℕ) (v : A) (j : ℕ)
    → ((k ≡ j) × (update f k v j ≡ v)) ⊎ ((k ≢ j) × (update f k v j ≡ f j))
update_cases f k v j = elim (Bool-cases (k == j)) [
  | inl e ↦ inl ((==_iff k j).0 e, rw e refl)
  | inr e ↦ inr ((λ same. cc ((==_iff k j).1 same, e)), rw e refl)
]

pub update_self {ℓ} : {A : Type ℓ} (f : ℕ → A) (k : ℕ) (v : A) → update f k v k ≡ v
update_self f k v = rw ((==_iff k k).1 refl) refl

update_other {ℓ} : {A : Type ℓ} (f : ℕ → A) (k : ℕ) (v : A) (j : ℕ) → k ≢ j → update f k v j ≡ f j
update_other f k v j ne = elim (update_cases f k v j) [
  | inl (same, u) ↦ absurd (ne same)
  | inr (other, u) ↦ u
]

-- Where a call stands that is not past its `select`.
data Early : Phase → Type 0 where
  not_yet : Early absent
  in_write : Early writing
  in_close : Early shutting
  in_select : Early waiting

Leaving-Early : (x y : Phase) → Leaving x → Early y → x ≢ y
Leaving-Early x y by_timer not_yet = λ e. cc e
Leaving-Early x y by_timer in_write = λ e. cc e
Leaving-Early x y by_timer in_close = λ e. cc e
Leaving-Early x y by_timer in_select = λ e. cc e
Leaving-Early x y by_channel not_yet = λ e. cc e
Leaving-Early x y by_channel in_write = λ e. cc e
Leaving-Early x y by_channel in_close = λ e. cc e
Leaving-Early x y by_channel in_select = λ e. cc e

-- A call that is early at `k` is not one that leaves at `j`.
apart : (f : ℕ → Phase) (k j : ℕ) (y : Phase) → Early y → f k ≡ y → Leaving (f j) → k ≢ j
apart f k j y e p l = λ same. Leaving-Early (f j) y l e (ap f (sym same) ∙ p)

-- A phase that is changed at an early call stays what it was at a leaving one.
phase_kept :
    (f : ℕ → Phase) (k j : ℕ) (v y : Phase)
    → Early y
    → f k ≡ y
    → Leaving (f j)
    → update f k v j ≡ f j
phase_kept f k j v y e p l = elim (update_cases f k v j) [
  | inl (same, u) ↦ absurd (apart f k j y e p l same)
  | inr (other, u) ↦ u
]

open_elsewhere :
    (items : ℕ → Option CallCond) (k : ℕ) (v : Option CallCond) (sid : ℕ)
    → k ≢ sid
    → OpenEntry items sid
    → OpenEntry (update items k v) sid
open_elsewhere items k v sid ne (c, e, o) = elim (update_cases items k v sid) [
  | inl (same, u) ↦ absurd (ne same)
  | inr (other, u) ↦ (c, u ∙ e, o)
]

-- A store into an entry leaves its channel as it is.
open_stored :
    (items : ℕ → Option CallCond) (k : ℕ) (c c' : CallCond) (sid : ℕ)
    → items k ≡ some c
    → c'.is_open ≡ c.is_open
    → OpenEntry items sid
    → OpenEntry (update items k (some c')) sid
open_stored items k c c' sid i same_open (d, e, o) = elim (update_cases items k (some c') sid) [
  | inl (same, u) ↦ (
    c',
    u,
    same_open ∙ ap (λ (x : CallCond). x.is_open) (entry_eq c d (sym i ∙ ap items same ∙ e)) ∙ o,
  )
  | inr (other, u) ↦ (d, u ∙ e, o)
]
  where
    entry_eq : (c d : CallCond) → some c ≡ some d → c ≡ d
    entry_eq c d e = cc e

-- A receiver that is not in the send changes.
sender_kept :
    (f : ℕ → Handling) (conn : ℕ) (v h : Handling) (at sid : ℕ)
    → f conn ≡ h
    → h ≢ sending sid
    → f at ≡ sending sid
    → update f conn v at ≡ sending sid
sender_kept f conn v h at sid p ne holds = elim (update_cases f conn v at) [
  | inl (same, u) ↦ absurd (ne (sym p ∙ ap f same ∙ holds))
  | inr (other, u) ↦ u ∙ holds
]

-- A sender to another call leaves.
other_sender :
    (f : ℕ → Handling) (conn k : ℕ) (v : Handling) (at sid : ℕ)
    → f conn ≡ sending k
    → k ≢ sid
    → f at ≡ sending sid
    → update f conn v at ≡ sending sid
other_sender f conn k v at sid p ne = sender_kept f conn v (sending k) at sid p (λ e. ne (sid_eq e))
  where
    sid_eq : sending k ≡ sending sid → k ≡ sid
    sid_eq e = cc e

module _ (Arrives : ℕ → ℤ → Text → Type 0) where
  -- One step from a jam.
  record Kept (t u : Table) : Type 0 where
    jam : Jam u
    phases : (sid : ℕ) → Leaving (t.phase sid) → u.phase sid ≡ t.phase sid

  locked : {t : Table} → Jam t → Unlocked t → ⊥
  locked j free = cc (free.0 j.conn, j.holds)

  -- An early call goes on; the jam has its sender and its entry.
  moves_on :
      {t : Table} (u : Table) (k : ℕ) (v y : Phase) (j : Jam t)
      → Early y
      → t.phase k ≡ y
      → u.phase ≡ update t.phase k v
      → u.receiver j.conn ≡ sending j.sid
      → OpenEntry u.call_item j.sid
      → Kept t u
  moves_on {t} u k v y j early p same holds entry = record {
    jam = record {
      conn = j.conn;
      sid = j.sid;
      holds = holds;
      leaves = subst Leaving (sym (now j.sid j.leaves)) j.leaves;
      entry = entry;
    };
    phases = now;
  }
    where
      now : (sid : ℕ) → Leaving (t.phase sid) → u.phase sid ≡ t.phase sid
      now sid l = ap (λ (f : ℕ → Phase). f sid) same ∙ phase_kept t.phase k sid v y early p l

  -- A handler goes on.
  handles :
      {t : Table} (u : Table) (j : Jam t)
      → u.phase ≡ t.phase
      → u.receiver j.conn ≡ sending j.sid
      → OpenEntry u.call_item j.sid
      → Kept t u
  handles {t} u j same holds entry = record {
    jam = record {
      conn = j.conn;
      sid = j.sid;
      holds = holds;
      leaves = subst Leaving (ap (λ (f : ℕ → Phase). f j.sid) (sym same)) j.leaves;
      entry = entry;
    };
    phases = λ sid l. ap (λ (f : ℕ → Phase). f sid) same;
  }

  -- A handler whose test takes the value of another one that sends to the call takes its place.
  taken_over :
      {t : Table} (conn other sid : ℕ)
      → t.receiver conn ≡ testing sid
      → t.receiver other ≡ sending sid
      → Jam t
      → Jam (record t { receiver = update (update t.receiver other idle) conn (sending sid) })
  taken_over {t} conn other sid p q j = elim (update_cases t.receiver other idle j.conn) [
    | inl (same, u) ↦ record {
      conn = conn;
      sid = sid;
      holds = update_self (update t.receiver other idle) conn (sending sid);
      leaves = subst (λ k. Leaving (t.phase k)) (sym (one_sid same)) j.leaves;
      entry = subst (OpenEntry t.call_item) (sym (one_sid same)) j.entry;
    }
    | inr (different, u) ↦ record {
      conn = j.conn;
      sid = j.sid;
      holds = elsewhere (u ∙ j.holds);
      leaves = j.leaves;
      entry = j.entry;
    }
  ]
    where
      sid_eq : (a b : ℕ) → sending a ≡ sending b → a ≡ b
      sid_eq a b e = cc e

      one_sid : other ≡ j.conn → sid ≡ j.sid
      one_sid same = sid_eq sid j.sid (sym q ∙ ap t.receiver same ∙ j.holds)

      elsewhere :
          update t.receiver other idle j.conn ≡ sending j.sid
          → update (update t.receiver other idle) conn (sending sid) j.conn ≡ sending j.sid
      elsewhere h = elim (update_cases (update t.receiver other idle) conn (sending sid) j.conn) [
        | inl (same, e) ↦ absurd (cc (sym (ap t.receiver same) ∙ p, j.holds))
        | inr (different, e) ↦ e ∙ h
      ]

  -- A channel that is closed is not the one of the jam.
  closed_apart :
      {t : Table} (sid : ℕ) (c : CallCond) (j : Jam t)
      → t.call_item sid ≡ some c
      → c.is_open ≡ false
      → sid ≢ j.sid
  closed_apart {t} sid c j i shut_ch = λ same. both same j.entry
    where
      both : sid ≡ j.sid → OpenEntry t.call_item j.sid → ⊥
      both same (d, e, o) = opens c d (sym i ∙ ap t.call_item same ∙ e) shut_ch o
        where
          opens : (c d : CallCond) → some c ≡ some d → c.is_open ≡ false → d.is_open ≡ true → ⊥
          opens c d e shut_ch o = cc (sym shut_ch ∙ ap (λ (x : CallCond). x.is_open) (eq c d e) ∙ o)
            where
              eq : (c d : CallCond) → some c ≡ some d → c ≡ d
              eq c d e = cc e

  deadlock_lasts : {t u : Table} → Step Arrives t u → Jam t → Kept t u
  deadlock_lasts (register sid p free) j = absurd (locked j free)
  deadlock_lasts {t} (wait sid p) j =
      moves_on _ sid waiting writing j in_write p refl j.holds j.entry
  deadlock_lasts {t} (fail sid p away) j =
      moves_on _ sid shutting writing j in_write p refl j.holds j.entry
  deadlock_lasts {t} (fail_met conn sid p q) j =
      moves_on _ sid shutting writing j in_write p refl
        (other_sender t.receiver conn sid idle j.conn j.sid q
          (apart t.phase sid j.sid writing in_write p j.leaves) j.holds)
        j.entry
  deadlock_lasts {t} (shut sid c p i) j =
      moves_on _ sid (finished write_failed) shutting j in_close p refl j.holds (
        open_elsewhere t.call_item sid _ j.sid
          (apart t.phase sid j.sid shutting in_close p j.leaves) j.entry)
  deadlock_lasts {t} (take_up conn sid code body c p a i) j =
      handles _ j refl (sender_kept t.receiver conn _ idle j.conn j.sid p (λ e. cc e) j.holds)
        j.entry
  deadlock_lasts {t} (store_packet conn sid code body c p i) j =
      handles _ j refl
        (sender_kept t.receiver conn _ (storing sid code body) j.conn j.sid p (λ e. cc e) j.holds)
        (open_stored t.call_item sid c _ j.sid i refl j.entry)
  deadlock_lasts {t} (store_code conn sid code c p i) j =
      handles _ j refl
        (sender_kept t.receiver conn _ (coding sid code) j.conn j.sid p (λ e. cc e) j.holds)
        (open_stored t.call_item sid c _ j.sid i refl j.entry)
  deadlock_lasts {t} (test_open conn sid c p i o away) j =
      handles _ j refl
        (sender_kept t.receiver conn _ (testing sid) j.conn j.sid p (λ e. cc e) j.holds) j.entry
  deadlock_lasts {t} (test_met conn other sid c p q i o) j = record {
    jam = taken_over conn other sid p q j;
    phases = λ s l. refl;
  }
  deadlock_lasts {t} (test_closed conn sid c p i o) j =
      handles _ j refl
        (sender_kept t.receiver conn _ (testing sid) j.conn j.sid p (λ e. cc e) j.holds) j.entry
  deadlock_lasts {t} (send_panics conn sid c p i o) j =
      handles _ j refl
        (other_sender t.receiver conn sid idle j.conn j.sid p (closed_apart sid c j i o) j.holds)
        j.entry
  deadlock_lasts {t} (rendezvous conn sid r p) j =
      moves_on _ sid woken waiting j in_select p refl
        (other_sender t.receiver conn sid idle j.conn j.sid r
          (apart t.phase sid j.sid waiting in_select p j.leaves) j.holds)
        j.entry
  deadlock_lasts {t} (expire sid p) j =
      moves_on _ sid expired waiting j in_select p refl j.holds j.entry
  deadlock_lasts (give_up sid p free) j = absurd (locked j free)
  deadlock_lasts (collect sid c p free e) j = absurd (locked j free)

  -- Once a receiver holds the read lock in the send to a call that is past its select, with its
  -- entry in the table and its channel open, a receiver does so in every later state, and no call
  -- that is past its select ever returns.
  pub deadlock_forever :
      {t u : Table}
      → Reach Arrives t u
      → Jam t
      → Jam u × ((sid : ℕ) → Leaving (t.phase sid) → u.phase sid ≡ t.phase sid)
  deadlock_forever here j = (j, λ sid l. refl)
  deadlock_forever (next r st) j =
      let before = deadlock_forever r j in
      let after = deadlock_lasts st before.0 in
      (
        after.jam,
        λ sid l. after.phases sid (subst Leaving (sym (before.1 sid l)) l) ∙ before.1 sid l,
      )

  -- A handler brings a response to its send, for a call in whatever phase whose channel is open,
  -- where no other handler sends to it.
  pub to_sending :
      (t : Table) (conn sid : ℕ) (c : CallCond) (code : ℤ) (body : Text)
      → t.receiver conn ≡ idle
      → t.call_item sid ≡ some c
      → c.is_open ≡ true
      → ((other : ℕ) → t.receiver other ≢ sending sid)
      → Arrives sid code body
      → (items : ℕ → Option CallCond) × (receiver : ℕ → Handling) × Reach Arrives t
          (record t { call_item = items; receiver = receiver })
        × (items sid ≡ some (record c { code = code; packet = body }))
        × (receiver conn ≡ sending sid)
        × ((other : ℕ) → conn ≢ other → receiver other ≡ t.receiver other)
  to_sending t conn sid c code body p i o away a =
      let r1 = update t.receiver conn (storing sid code body) in
      let r2 = update r1 conn (coding sid code) in
      let r3 = update r2 conn (testing sid) in
      let i1 = update t.call_item sid (some (record c { packet = body })) in
      let c2 = record c { code = code; packet = body } in
      let i2 = update i1 sid (some c2) in
      (
        i2,
        update r3 conn (sending sid),
        next
            (next
              (next (next here (take_up conn sid code body c p a i))
                (store_packet conn sid code body c (update_self t.receiver conn _) i))
              (store_code conn sid code (record c { packet = body }) (update_self r1 conn _)
                (update_self t.call_item sid _)))
            (test_open conn sid c2 (update_self r2 conn _) (update_self i1 sid _) o no_sender),
        update_self i1 sid (some c2),
        update_self r3 conn (sending sid),
        λ other ne. update_other r3 conn (sending sid) other ne ∙ unchanged other ne,
      )
    where
      unchanged :
          (other : ℕ)
          → conn ≢ other
          → update
              (update (update t.receiver conn (storing sid code body)) conn (coding sid code))
              conn
              (testing sid)
              other
            ≡ t.receiver other
      unchanged other ne =
          update_other
            (update (update t.receiver conn (storing sid code body)) conn (coding sid code)) conn
            (testing sid) other ne
          ∙ update_other (update t.receiver conn (storing sid code body)) conn (coding sid code)
              other ne
          ∙ update_other t.receiver conn (storing sid code body) other ne

      no_sender :
          (other : ℕ)
          → update
              (update (update t.receiver conn (storing sid code body)) conn (coding sid code))
              conn
              (testing sid)
              other
            ≢ sending sid
      no_sender other = λ e.
          elim (update_cases
            (update (update t.receiver conn (storing sid code body)) conn (coding sid code)) conn
            (testing sid) other) [
              | inl (same, u) ↦ absurd (cc (sym u ∙ e))
              | inr (ne, u) ↦ away other (sym (unchanged other ne) ∙ e)
            ]

  registered :
      (sid : ℕ)
      → Reach Arrives start (record start {
        call_item = update start.call_item sid (some fresh);
        phase = update start.phase sid writing;
      })
  registered sid = next here (register sid refl (λ k. refl, refl))

  both : {a b c : Table} → Reach Arrives a b → Reach Arrives b c → Reach Arrives a c
  both r here = r
  both r (next r' st) = next (both r r') st

  -- For every response that may arrive, a state is reachable from the start in which a receiver
  -- holds the read lock in the send to a call that is past its select, with its entry in the table
  -- and its channel open.
  pub deadlock_reachable :
      (conn sid : ℕ) (code : ℤ) (body : Text)
      → Arrives sid code body
      → (t : Table) × Reach Arrives start t × Jam t
  deadlock_reachable conn sid code body a =
      let r1 = registered sid in
      let r2 = next r1 (wait sid (update_self start.phase sid writing)) in
      let r3 = next r2 (expire sid (update_self (update start.phase sid writing) sid waiting)) in
      let past = update (update (update start.phase sid writing) sid waiting) sid expired in
      let (items, receiver, r4, i, holds, others) =
        to_sending
          (record start { call_item = update start.call_item sid (some fresh); phase = past }) conn
          sid fresh code body refl (update_self start.call_item sid (some fresh)) refl (λ k e. cc e)
          a in
      (
        _,
        both r3 r4,
        record {
          conn = conn;
          sid = sid;
          holds = holds;
          leaves =
              subst Leaving
                (sym
                  (update_self (update (update start.phase sid writing) sid waiting) sid expired))
                by_timer;
          entry = (record fresh { code = code; packet = body }, i, refl);
        },
      )
