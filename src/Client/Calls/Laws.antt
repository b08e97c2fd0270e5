-- ===== src/Client/Calls/Laws.antt =====
-- What a call returns came from the server, for its own sid.
use gffg.Prelude.{ℕ, ◌≡◌, ◌≢◌, sym, ap, ◌∙◌, ◌⊎◌, inl, inr, Option, none, some, false, Bool-cases}
use mathlib.Core.Path.{subst}
use gffg.Prelude.Int.{ℤ, pos, eq_ℤ}
use gffg.Prelude.Text.{Text}
use gffg.Client.Calls.{
  CallCond, Result, Phase, writing, shutting, waiting, expired, woken, finished, write_failed,
  timed_out, packet, refused, Handling, idle, storing, coding, testing, sending, Table, update,
  result_of, fresh, Step, register, wait, fail, fail_met, shut, take_up, store_packet, store_code,
  test_open, test_met, test_closed, send_panics, rendezvous, expire, give_up, collect, Reach, here,
  next, start,
}
use gffg.Client.Calls.Deadlock.{update_cases, update_self}
use gffg.Transport.Header.Laws.{eq_ℤ→eq}

-- The entry of a call is there, and satisfies `Q`.
Holds : (CallCond → Type 0) → (ℕ → Option CallCond) → ℕ → Type 0
Holds Q items sid = (c : CallCond) × (items sid ≡ some c) × Q c

entry_eq : (d c : CallCond) → some d ≡ some c → d ≡ c
entry_eq d c e = cc e

new_entry :
    (Q : CallCond → Type 0) (items : ℕ → Option CallCond) (k : ℕ) (c : CallCond)
    → Q c
    → Holds Q (update items k (some c)) k
unfolding Holds
new_entry Q items k c q = (c, update_self items k (some c), q)

entry_holds :
    (Q : CallCond → Type 0) (items : ℕ → Option CallCond) (k : ℕ) (c : CallCond)
    → Holds Q items k
    → items k ≡ some c
    → Q c
unfolding Holds
entry_holds Q items k c (d, e, q) i = subst Q (entry_eq d c (sym e ∙ i)) q

-- A store into an entry, where it keeps `Q` if the entry is this one.
stored :
    (Q : CallCond → Type 0) (items : ℕ → Option CallCond) (k : ℕ) (c c' : CallCond)
    → items k ≡ some c
    → (sid : ℕ) → (k ≡ sid → Q c → Q c')
    → Holds Q items sid
    → Holds Q (update items k (some c')) sid
unfolding Holds
stored Q items k c c' i sid keeps (d, e, q) = elim (update_cases items k (some c') sid) [
  | inl (same, u) ↦ (c', u, keeps same (subst Q (entry_eq d c (sym e ∙ ap items (sym same) ∙ i)) q))
  | inr (other, u) ↦ (d, u ∙ e, q)
]

-- An entry that goes away, or a new one, at another call.
other_entry :
    (Q : CallCond → Type 0) (items : ℕ → Option CallCond) (k : ℕ) (v : Option CallCond) (sid : ℕ)
    → k ≢ sid
    → Holds Q items sid
    → Holds Q (update items k v) sid
unfolding Holds
other_entry Q items k v sid ne (d, e, b) = elim (update_cases items k v sid) [
  | inl (same, f) ↦ absurd (ne same)
  | inr (other, f) ↦ (d, f ∙ e, b)
]

module _ (Arrives : ℕ → ℤ → Text → Type 0) where
  -- A response with this packet has arrived for the call, and one with this code.
  abbrev pub PacketCame : ℕ → Text → Type 0
  PacketCame sid body = (code : ℤ) × Arrives sid code body

  abbrev pub CodeCame : ℕ → ℤ → Type 0
  CodeCame sid code = (body : Text) × Arrives sid code body

  abbrev PacketIn : ℕ → CallCond → Type 0
  PacketIn sid c = PacketCame sid c.packet

  -- The entry of the call holds what responses to it brought.
  abbrev Answered : ℕ → CallCond → Type 0
  Answered sid c = PacketCame sid c.packet × CodeCame sid c.code

  -- What a call that has ended may have returned.
  abbrev pub Good : ℕ → Result → Type 0
  Good sid (packet body) = PacketCame sid body × CodeCame sid (pos 0)
  Good sid (refused code) = (code ≢ pos 0) × CodeCame sid code
  Good sid timed_out = Unit
  Good sid write_failed = Unit

  -- How far a handler has filled the entry.
  abbrev Filled : (ℕ → Option CallCond) → Handling → Type 0
  Filled items idle = Unit
  Filled items (storing sid code body) = Arrives sid code body
  Filled items (coding sid code) = CodeCame sid code × Holds (PacketIn sid) items sid
  Filled items (testing sid) = Holds (Answered sid) items sid
  Filled items (sending sid) = Holds (Answered sid) items sid

  record Inv (t : Table) : Type 0 where
    woke : (sid : ℕ) → t.phase sid ≡ woken → Holds (Answered sid) t.call_item sid
    filled : (conn : ℕ) → Filled t.call_item (t.receiver conn)
    returned : (sid : ℕ) (r : Result) → t.phase sid ≡ finished r → Good sid r

  not_zero : (code : ℤ) → eq_ℤ (pos 0) code ≡ false → code ≢ pos 0
  not_zero code h e = cc (sym (ap (eq_ℤ (pos 0)) e) ∙ h)

  result_of-Good : (sid : ℕ) (c : CallCond) → Answered sid c → Good sid (result_of c)
  result_of-Good sid c (p, a) = elim (Bool-cases (eq_ℤ (pos 0) c.code)) [
    | inl zero_code ↦
        rw zero_code (p, subst (λ k. CodeCame sid k) (sym (eq_ℤ→eq (pos 0) c.code zero_code)) a)
    | inr other ↦ rw other (not_zero c.code other, a)
  ]

  -- A phase that becomes `v` at one call: elsewhere it was there before.
  phase_at :
      (f : ℕ → Phase) (k : ℕ) (v : Phase) (sid : ℕ) (x : Phase)
      → update f k v sid ≡ x
      → ((k ≡ sid) × (v ≡ x)) ⊎ ((k ≢ sid) × (f sid ≡ x))
  phase_at f k v sid x e = elim (update_cases f k v sid) [
    | inl (same, u) ↦ inl (same, sym u ∙ e)
    | inr (other, u) ↦ inr (other, sym u ∙ e)
  ]

  result_eq : (x r : Result) → finished x ≡ finished r → x ≡ r
  result_eq x r e = cc e

  -- The returned calls after `k` has returned `v`.
  returns :
      (f : ℕ → Phase) (k : ℕ) (v : Result)
      → Good k v
      → ((sid : ℕ) (r : Result) → f sid ≡ finished r → Good sid r)
      → (sid : ℕ) (r : Result) → update f k (finished v) sid ≡ finished r
      → Good sid r
  returns f k v g before sid r e = elim (phase_at f k (finished v) sid (finished r) e) [
    | inl (same, now) ↦ subst (λ j. Good j r) same (subst (Good k) (result_eq v r now) g)
    | inr (other, old) ↦ before sid r old
  ]

  -- What handlers have filled stays so where the entries keep what they hold.
  filled_kept :
      (items items' : ℕ → Option CallCond)
      → ((sid : ℕ) → Holds (PacketIn sid) items sid → Holds (PacketIn sid) items' sid)
      → ((sid : ℕ) → Holds (Answered sid) items sid → Holds (Answered sid) items' sid)
      → (h : Handling) → Filled items h
      → Filled items' h
  filled_kept items items' p a idle f = f
  filled_kept items items' p a (storing sid code body) f = f
  filled_kept items items' p a (coding sid code) (c, f) = (c, p sid f)
  filled_kept items items' p a (testing sid) f = a sid f
  filled_kept items items' p a (sending sid) f = a sid f

  -- One handler goes on.
  goes_on :
      (items : ℕ → Option CallCond) (f : ℕ → Handling) (conn : ℕ) (v : Handling)
      → Filled items v
      → ((k : ℕ) → Filled items (f k))
      → (k : ℕ) → Filled items (update f conn v k)
  goes_on items f conn v now before k = elim (update_cases f conn v k) [
    | inl (same, u) ↦ subst (Filled items) (sym u) now
    | inr (other, u) ↦ subst (Filled items) (sym u) (before k)
  ]

  nobody_fills :
      (items : ℕ → Option CallCond) (f : ℕ → Handling)
      → ((conn : ℕ) → f conn ≡ idle)
      → (conn : ℕ) → Filled items (f conn)
  nobody_fills items f free conn = subst (Filled items) (sym (free conn)) tt

  at_handler :
      {t : Table} (conn : ℕ) (h : Handling) → Inv t → t.receiver conn ≡ h → Filled t.call_item h
  at_handler {t} conn h v p = subst (Filled t.call_item) p (v.filled conn)

  woke_kept :
      {t : Table} (k : ℕ) (x : Phase)
      → x ≢ woken
      → Inv t
      → (sid : ℕ) → update t.phase k x sid ≡ woken
      → (k ≢ sid) × Holds (Answered sid) t.call_item sid
  woke_kept {t} k x ne v sid e = elim (phase_at t.phase k x sid woken e) [
    | inl (same, bad) ↦ absurd (ne bad)
    | inr (other, old) ↦ (other, v.woke sid old)
  ]

  returned_kept :
      {t : Table} (k : ℕ) (x : Phase)
      → ((r : Result) → x ≢ finished r)
      → Inv t
      → (sid : ℕ) (r : Result) → update t.phase k x sid ≡ finished r
      → Good sid r
  returned_kept {t} k x ne v sid r e = elim (phase_at t.phase k x sid (finished r) e) [
    | inl (same, bad) ↦ absurd (ne r bad)
    | inr (other, old) ↦ v.returned sid r old
  ]

  -- A step of a handler that leaves the entries alone.
  handler_step :
      {t : Table} (conn : ℕ) (h : Handling)
      → Inv t
      → Filled t.call_item h
      → Inv (record t { receiver = update t.receiver conn h })
  handler_step {t} conn h v now = record {
    woke = v.woke;
    filled = goes_on t.call_item t.receiver conn h now v.filled;
    returned = v.returned;
  }

  -- A step of a call that leaves the entries and the handlers alone.
  phase_step :
      {t : Table} (k : ℕ) (x : Phase)
      → x ≢ woken
      → ((r : Result) → x ≢ finished r)
      → Inv t
      → Inv (record t { phase = update t.phase k x })
  phase_step {t} k x ne ne' v = record {
    woke = λ s e. (woke_kept k x ne v s e).1;
    filled = v.filled;
    returned = returned_kept k x ne' v;
  }

  -- A handler stores into the entry of its call.
  store_step :
      {t : Table} (conn k : ℕ) (c c' : CallCond) (h : Handling)
      → Inv t
      → t.call_item k ≡ some c
      → (PacketIn k c → PacketIn k c')
      → (Answered k c → Answered k c')
      → Filled (update t.call_item k (some c')) h
      → Inv (record t {
        call_item = update t.call_item k (some c');
        receiver = update t.receiver conn h;
      })
  store_step {t} conn k c c' h v i p a now = record {
    woke = λ s e. answered s (v.woke s e);
    filled =
        goes_on _ t.receiver conn h now
          (λ o. filled_kept t.call_item _ packets answered (t.receiver o) (v.filled o));
    returned = v.returned;
  }
    where
      packets :
          (sid : ℕ)
          → Holds (PacketIn sid) t.call_item sid
          → Holds (PacketIn sid) (update t.call_item k (some c')) sid
      packets sid =
          stored (PacketIn sid) t.call_item k c c' i sid
            (λ same. subst (λ j. PacketIn j c → PacketIn j c') same p)

      answered :
          (sid : ℕ)
          → Holds (Answered sid) t.call_item sid
          → Holds (Answered sid) (update t.call_item k (some c')) sid
      answered sid =
          stored (Answered sid) t.call_item k c c' i sid
            (λ same. subst (λ j. Answered j c → Answered j c') same a)

  kept_once : {t u : Table} → Step Arrives t u → Inv t → Inv u
  kept_once {t} (register sid p free) v = record {
    woke = λ s e.
        let (other, old) = woke_kept sid writing (λ e. cc e) v s e in
        other_entry (Answered s) t.call_item sid (some fresh) s other old;
    filled = nobody_fills _ t.receiver free.0;
    returned = returned_kept sid writing (λ r e. cc e) v;
  }
  kept_once {t} (wait sid p) v = phase_step sid waiting (λ e. cc e) (λ r e. cc e) v
  kept_once {t} (fail sid p away) v = phase_step sid shutting (λ e. cc e) (λ r e. cc e) v
  kept_once {t} (fail_met conn sid p q) v =
      handler_step conn idle (phase_step sid shutting (λ e. cc e) (λ r e. cc e) v) tt
  kept_once {t} (shut sid c p i) v = record {
    woke = λ s e.
        let (other, old) = woke_kept sid (finished write_failed) (λ e. cc e) v s e in
        closed (Answered s) s (λ a. a) old;
    filled = λ o.
        filled_kept t.call_item _ (λ s. closed (PacketIn s) s (λ a. a))
          (λ s. closed (Answered s) s (λ a. a)) (t.receiver o) (v.filled o);
    returned = returns t.phase sid write_failed tt v.returned;
  }
    where
      closed :
          (Q : CallCond → Type 0) (s : ℕ)
          → (Q c → Q (record c { is_open = false }))
          → Holds Q t.call_item s
          → Holds Q (update t.call_item sid (some (record c { is_open = false }))) s
      closed Q s keeps = stored Q t.call_item sid c _ i s (λ same. keeps)
  kept_once {t} (take_up conn sid code body c p a i) v =
      handler_step conn (storing sid code body) v a
  kept_once {t} (store_packet conn sid code body c p i) v =
      let a = at_handler conn (storing sid code body) v p in
      store_step conn sid c _ (coding sid code) v i (λ q. (code, a)) (λ q. ((code, a), q.1))
        ((body, a), new_entry (PacketIn sid) t.call_item sid _ (code, a))
  kept_once {t} (store_code conn sid code c p i) v =
      let (a, q) = at_handler conn (coding sid code) v p in
      store_step conn sid c _ (testing sid) v i (λ q. q) (λ q. (q.0, a))
        (new_entry (Answered sid) t.call_item sid _
          (entry_holds (PacketIn sid) t.call_item sid c q i, a))
  kept_once {t} (test_open conn sid c p i o away) v =
      handler_step conn (sending sid) v (at_handler conn (testing sid) v p)
  kept_once {t} (test_met conn other sid c p q i o) v =
      handler_step conn (sending sid) (handler_step other idle v tt)
        (at_handler conn (testing sid) v p)
  kept_once {t} (test_closed conn sid c p i o) v = handler_step conn idle v tt
  kept_once {t} (send_panics conn sid c p i o) v =
      let w = handler_step conn idle v tt in
      record { woke = w.woke; filled = w.filled; returned = w.returned }
  kept_once {t} (rendezvous conn sid r p) v = record {
    woke = λ s e. elim (phase_at t.phase sid woken s woken e) [
      | inl (same, now) ↦
          subst (λ k. Holds (Answered k) t.call_item k) same (at_handler conn (sending sid) v r)
      | inr (other, old) ↦ v.woke s old
    ];
    filled = goes_on t.call_item t.receiver conn idle tt v.filled;
    returned = returned_kept sid woken (λ r e. cc e) v;
  }
  kept_once {t} (expire sid p) v = phase_step sid expired (λ e. cc e) (λ r e. cc e) v
  kept_once {t} (give_up sid p free) v = record {
    woke = λ s e.
        let (other, old) = woke_kept sid (finished timed_out) (λ e. cc e) v s e in
        other_entry (Answered s) t.call_item sid none s other old;
    filled = nobody_fills _ t.receiver free.0;
    returned = returns t.phase sid timed_out tt v.returned;
  }
  kept_once {t} (collect sid c p free i) v = record {
    woke = λ s e.
        let (other, old) = woke_kept sid (finished (result_of c)) (λ e. cc e) v s e in
        other_entry (Answered s) t.call_item sid none s other old;
    filled = nobody_fills _ t.receiver free.0;
    returned =
        returns t.phase sid (result_of c)
          (result_of-Good sid c (entry_holds (Answered sid) t.call_item sid c (v.woke sid p) i))
          v.returned;
  }

  kept_along : {t u : Table} → Reach Arrives t u → Inv t → Inv u
  kept_along here v = v
  kept_along (next r st) v = kept_once st (kept_along r v)

  -- In every state that the goroutines of the calls and of the connections can reach from the
  -- start, where handlers for one sid may interleave: if a call has returned a packet, a response
  -- with this packet has arrived for its own sid, and one with the code 0; if it has returned an
  -- error with a code, this code is not 0 and a response with it has arrived for its own sid.
  pub returned-Good :
      {t : Table} (sid : ℕ) (result : Result)
      → Reach Arrives start t
      → t.phase sid ≡ finished result
      → Good sid result
  returned-Good {t} sid result r e =
      (kept_along r
          (record { woke = λ s e. cc e; filled = λ conn. tt; returned = λ s r e. cc e })).returned
        sid result e

  -- Where all responses to a call are the same, a packet that it returns came with the code 0.
  pub one_response :
      (sid : ℕ) (body : Text)
      → ((code code' : ℤ) (x y : Text) → Arrives sid code x → Arrives sid code' y → code ≡ code')
      → Good sid (packet body)
      → Arrives sid (pos 0) body
  one_response sid body same ((code, a), (other, b)) =
      subst (λ k. Arrives sid k body) (same code (pos 0) body other a b) a
