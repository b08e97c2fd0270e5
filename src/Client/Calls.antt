-- ===== src/Client/Calls.antt =====
-- The table of waiting calls, `callItem`, of client/client.go and client/pools.go: the goroutines of
-- the calls and of the connections as steps, with the lock `wrw` and the unbuffered channel of a call.
-- A handler holds only the read lock, so that each of its statements is a step of its own; a section
-- under `wrw.Lock()` is one step, as it excludes the handlers.
pub mod Laws
pub mod Deadlock
pub mod Delivery
pub mod Sample
mod Runs
use gffg.Prelude.{[], ℕ, ◌≡◌, ◌≢◌, Option, none, some, if◌then◌else◌, Bool, true, false, ◌==◌}
use gffg.Prelude.Int.{ℤ, pos, eq_ℤ}
use gffg.Prelude.Text.{Text}

-- `CallCond`; `is_open` is false once the channel is closed.
pub record CallCond : Type 0 where
  pub is_open : Bool
  pub code : ℤ
  pub packet : Text

-- How `call` ends: the packet, an error with the code of the response, 408 or 500.
pub data Result : Type 0 where
  packet : Text → Result
  refused : ℤ → Result
  timed_out : Result
  write_failed : Result

-- Where the goroutine of a call stands: before it starts, in `res.Write`, past a failed write and past
-- the test of the deferred function but before its `close`, in the `select`, past one of its two cases
-- and before `wrw.Lock()`, or returned.
pub data Phase : Type 0 where
  absent : Phase
  writing : Phase
  shutting : Phase
  waiting : Phase
  expired : Phase
  woken : Phase
  finished : Result → Phase

-- Where the handler of a connection stands: without the read lock; or with it, for the call of a sid,
-- before the store of the packet, before that of the code, before the test `ClosedChanInt`, and in
-- `Ch <- 0`.
pub data Handling : Type 0 where
  idle : Handling
  storing : ℕ → ℤ → Text → Handling
  coding : ℕ → ℤ → Handling
  testing : ℕ → Handling
  sending : ℕ → Handling

-- Calls are named by their `Sid`, which `atomic.AddInt64` makes unique. `leaked` is whether a handler has
-- left by a panic, without `wrw.RUnlock()`.
pub record Table : Type 0 where
  pub call_item : ℕ → Option CallCond
  pub phase : ℕ → Phase
  pub receiver : ℕ → Handling
  pub leaked : Bool

abbrev pub update {ℓ} : {A : Type ℓ} → (ℕ → A) → ℕ → A → ℕ → A
update f k v j = if k == j then v else f j

-- No goroutine holds the read lock, so that `wrw.Lock()` can be had.
abbrev pub Unlocked : Table → Type 0
Unlocked t = ((conn : ℕ) → t.receiver conn ≡ idle) × (t.leaked ≡ false)

abbrev pub result_of : CallCond → Result
result_of c = if eq_ℤ (pos 0) c.code then packet c.packet else refused c.code

abbrev pub fresh : CallCond
fresh = record { is_open = true; code = pos 0; packet = [] }

-- `Arrives` says which responses come in from the server: a sid, a code and a packet.
module _ (Arrives : ℕ → ℤ → Text → Type 0) where
  pub data Step (t : Table) : Table → Type 0 where
    -- `c.p.wrw.Lock(); c.p.callItem[Sid] = cc`, and then the write.
    register :
        (sid : ℕ)
        → t.phase sid ≡ absent
        → Unlocked t
        → Step t (record t {
          call_item = update t.call_item sid (some fresh);
          phase = update t.phase sid writing;
        })
    -- `res.Write` is done, and the `select` begins.
    wait :
        (sid : ℕ) → t.phase sid ≡ writing → Step t (record t { phase = update t.phase sid waiting })
    -- `res.Write` fails, and the test of the deferred function finds the channel open.
    fail :
        (sid : ℕ)
        → t.phase sid ≡ writing
        → ((conn : ℕ) → t.receiver conn ≢ sending sid)
        → Step t (record t { phase = update t.phase sid shutting })
    -- The same, with a handler in `Ch <- 0` for the call: the test takes its value.
    fail_met :
        (conn sid : ℕ)
        → t.phase sid ≡ writing
        → t.receiver conn ≡ sending sid
        → Step t (record t {
          phase = update t.phase sid shutting;
          receiver = update t.receiver conn idle;
        })
    -- The deferred function closes the channel, and the entry stays.
    shut :
        (sid : ℕ) (c : CallCond)
        → t.phase sid ≡ shutting
        → t.call_item sid ≡ some c
        → Step t (record t {
          call_item = update t.call_item sid (some (record c { is_open = false }));
          phase = update t.phase sid (finished write_failed);
        })
    -- `p.wrw.RLock()` of a handler whose response has an entry. Without one it unlocks at once.
    take_up :
        (conn sid : ℕ) (code : ℤ) (body : Text) (c : CallCond)
        → t.receiver conn ≡ idle
        → Arrives sid code body
        → t.call_item sid ≡ some c
        → Step t (record t { receiver = update t.receiver conn (storing sid code body) })
    -- `p.callItem[Sid].Packet = msg.Packet`
    store_packet :
        (conn sid : ℕ) (code : ℤ) (body : Text) (c : CallCond)
        → t.receiver conn ≡ storing sid code body
        → t.call_item sid ≡ some c
        → Step t (record t {
          call_item = update t.call_item sid (some (record c { packet = body }));
          receiver = update t.receiver conn (coding sid code);
        })
    -- `p.callItem[Sid].Code = msg.Code`
    store_code :
        (conn sid : ℕ) (code : ℤ) (c : CallCond)
        → t.receiver conn ≡ coding sid code
        → t.call_item sid ≡ some c
        → Step t (record t {
          call_item = update t.call_item sid (some (record c { code = code }));
          receiver = update t.receiver conn (testing sid);
        })
    -- `ClosedChanInt` finds the channel open.
    test_open :
        (conn sid : ℕ) (c : CallCond)
        → t.receiver conn ≡ testing sid
        → t.call_item sid ≡ some c
        → c.is_open ≡ true
        → ((other : ℕ) → t.receiver other ≢ sending sid)
        → Step t (record t { receiver = update t.receiver conn (sending sid) })
    -- The same, with another handler in `Ch <- 0` for the call: the test takes its value.
    test_met :
        (conn other sid : ℕ) (c : CallCond)
        → t.receiver conn ≡ testing sid
        → t.receiver other ≡ sending sid
        → t.call_item sid ≡ some c
        → c.is_open ≡ true
        → Step t (record t { receiver = update (update t.receiver other idle) conn (sending sid) })
    -- It finds the channel closed, and the handler unlocks.
    test_closed :
        (conn sid : ℕ) (c : CallCond)
        → t.receiver conn ≡ testing sid
        → t.call_item sid ≡ some c
        → c.is_open ≡ false
        → Step t (record t { receiver = update t.receiver conn idle })
    -- `Ch <- 0` on a channel that has been closed since the test panics: the handler recovers and
    -- returns without `RUnlock`.
    send_panics :
        (conn sid : ℕ) (c : CallCond)
        → t.receiver conn ≡ sending sid
        → t.call_item sid ≡ some c
        → c.is_open ≡ false
        → Step t (record t { receiver = update t.receiver conn idle; leaked = true })
    -- `Ch <- 0` meets `<-waitCh` in the `select`.
    rendezvous :
        (conn sid : ℕ)
        → t.receiver conn ≡ sending sid
        → t.phase sid ≡ waiting
        → Step t
            (record t { phase = update t.phase sid woken; receiver = update t.receiver conn idle })
    -- The timer's case of the `select`.
    expire :
        (sid : ℕ) → t.phase sid ≡ waiting → Step t (record t { phase = update t.phase sid expired })
    -- `c.p.wrw.Lock(); close(…); delete(c.p.callItem, Sid)` after the timer.
    give_up :
        (sid : ℕ)
        → t.phase sid ≡ expired
        → Unlocked t
        → Step t (record t {
          call_item = update t.call_item sid none;
          phase = update t.phase sid (finished timed_out);
        })
    -- The same after `<-waitCh`, with the packet and the code of the entry.
    collect :
        (sid : ℕ) (c : CallCond)
        → t.phase sid ≡ woken
        → Unlocked t
        → t.call_item sid ≡ some c
        → Step t (record t {
          call_item = update t.call_item sid none;
          phase = update t.phase sid (finished (result_of c));
        })

  pub data Reach (s : Table) : Table → Type 0 where
    here : Reach s s
    next : {t u : Table} → Reach s t → Step t u → Reach s u

abbrev pub start : Table
start = record {
  call_item = λ sid. none;
  phase = λ sid. absent;
  receiver = λ conn. idle;
  leaked = false;
}
