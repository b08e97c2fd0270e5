-- ===== src/Server/Queue/Laws.antt =====
-- The channel: bounded, never blocking the receive loops, first in first out.
use gffg.Prelude.{
  ℕ, ◌+◌, ◌-◌, ◌≡◌, ◌≢◌, ◌≤◌, ◌<◌, refl, sym, ap, ◌∙◌, arith, true, false, none, List, [], ◌∷◌,
  ◌++◌, length, length-append, ltb, leb, Bool-cases, inl, inr, if◌then◌else◌, ltb→le,
}
use gffg.Prelude.Int.{IsInt64, dec-inc}
use gffg.Prelude.Text.{Text}
use gffg.Proto.{Codec}
use gffg.Server.Handle.{State, Limit, Exit, returns, panics_with}
use gffg.Server.Queue.{
  RequestChannel, Server, Received, returned, blocked, on_conn, reject, on_recv, work, go_recv,
  received, taken, connect, closed,
}
use mathlib.Core.List.{append-nil, append_assoc}

-- What the two sides of the channel do, in any order.
pub data Event : Type 0 where
  receive : ℕ → Text → Event
  take : Event

abbrev first : List RequestChannel → List RequestChannel
first [] = []
first (req ∷ rest) = req ∷ []

module _ (codec : Codec) (limiter : Text → Limit) where
  -- Server.onRecv, run as one step, never waits for room in the channel.
  pub on_recv-ne-blocked :
      (conn : ℕ) (packet : Text) (s : Server) → (on_recv codec limiter conn packet s).1 ≢ blocked
  unfolding on_recv
  on_recv-ne-blocked conn packet s = elim (Bool-cases (ltb s.channels (length s.req_ch + 10))) [
    | inl full ↦
        rw full (exits (on_conn conn (reject codec limiter (codec.unmarshal_request packet)) s).1)
    | inr room ↦
        rw (room, not_leb s.channels (length s.req_ch) (omega (arith, ltb→le _ _ room))) (λ e. cc)
  ]
    where
      not_leb : (a b : ℕ) → b < a → leb a b ≡ false
      not_leb a b h = ground arith

      exits : (x : Exit) → received x ≢ blocked
      exits (returns e) = λ p. cc
      exits (panics_with p) = λ q. cc

  -- The two outcomes of `onRecv`, by the room in the channel.
  pub on_recv_full :
      (conn : ℕ) (packet : Text) (s : Server)
      → ltb s.channels (length s.req_ch + 10) ≡ true
      → ((on_recv codec limiter conn packet s).0.req_ch ≡ s.req_ch)
        × ((on_recv codec limiter conn packet s).0.channels ≡ s.channels)
  unfolding on_recv on_conn
  on_recv_full conn packet s full = rw full (refl, refl)

  pub on_recv_room :
      (conn : ℕ) (packet : Text) (s : Server)
      → ltb s.channels (length s.req_ch + 10) ≡ false
      → on_recv codec limiter conn packet s ≡ (
        record s { req_ch = s.req_ch ++ record { conn = conn; packet = packet } ∷ [] },
        returned none,
      )
  unfolding on_recv
  on_recv_room conn packet s room =
      rw (room, not_leb s.channels (length s.req_ch) (omega (arith, ltb→le _ _ room))) refl
    where
      not_leb : (a b : ℕ) → b < a → leb a b ≡ false
      not_leb a b h = ground arith

  -- The requests that one step puts into the channel, and those that it takes out.
  abbrev puts : Event → Server → List RequestChannel
  puts (receive conn packet) s =
      if ltb s.channels (length s.req_ch + 10)
      then []
      else record { conn = conn; packet = packet } ∷ []
  puts take s = []

  abbrev takes : Event → Server → List RequestChannel
  takes (receive conn packet) s = []
  takes take s = first s.req_ch

  unfoldable pub step : Event → Server → Server
  step (receive conn packet) s = (on_recv codec limiter conn packet s).0
  step take s = go_recv codec limiter s

  unfoldable pub run : List Event → Server → Server
  run [] s = s
  run (e ∷ events) s = run events (step e s)

  unfoldable pub all_put : List Event → Server → List RequestChannel
  all_put [] s = []
  all_put (e ∷ events) s = puts e s ++ all_put events (step e s)

  unfoldable pub all_taken : List Event → Server → List RequestChannel
  all_taken [] s = []
  all_taken (e ∷ events) s = takes e s ++ all_taken events (step e s)

  taken_fifo :
      (queue : List RequestChannel) (s : Server)
      → s.req_ch ≡ queue
      → (queue ≡ first queue ++ (taken codec limiter queue s).req_ch)
        × ((taken codec limiter queue s).channels ≡ s.channels)
  unfolding work on_conn
  taken_fifo [] s e = (sym e, refl)
  taken_fifo (req ∷ rest) s e = (refl, refl)

  step_fifo :
      (e : Event) (s : Server)
      → (s.req_ch ++ puts e s ≡ takes e s ++ (step e s).req_ch) × ((step e s).channels ≡ s.channels)
  unfolding step go_recv
  step_fifo (receive conn packet) s = elim (Bool-cases (ltb s.channels (length s.req_ch + 10))) [
    | inl full ↦
        let same = on_recv_full conn packet s full in
        (rw full (append-nil s.req_ch ∙ sym same.0), same.1)
    | inr room ↦
        let pushed = on_recv_room conn packet s room in
        (
          rw room (sym (ap (λ (r : Server × Received). r.0.req_ch) pushed)),
          ap (λ (r : Server × Received). r.0.channels) pushed,
        )
  ]
  step_fifo take s = let same = taken_fifo s.req_ch s refl in (append-nil s.req_ch ∙ same.0, same.1)

  pub take_fifo :
      (s : Server)
      → (length (go_recv codec limiter s).req_ch ≤ length s.req_ch)
        × ((go_recv codec limiter s).channels ≡ s.channels)
  unfolding step
  take_fifo s =
      let same = step_fifo take s in
      (
        omega (
          arith,
          ap length same.0,
          length-append s.req_ch [],
          length-append (first s.req_ch) (go_recv codec limiter s).req_ch,
        ),
        same.1,
      )

  -- For any sequence of receive and take steps, the requests that were in the channel followed by
  -- those accepted are the requests taken, in the same order, followed by those still in the
  -- channel.
  pub run_fifo :
      (events : List Event) (s : Server)
      → s.req_ch ++ all_put events s ≡ all_taken events s ++ (run events s).req_ch
  unfolding run all_put all_taken
  run_fifo [] s = append-nil s.req_ch
  run_fifo (e ∷ events) s =
      sym (append_assoc s.req_ch (puts e s) (all_put events (step e s)))
      ∙ ap (λ q. q ++ all_put events (step e s)) (step_fifo e s).0
      ∙ append_assoc (takes e s) (step e s).req_ch (all_put events (step e s))
      ∙ ap (λ q. takes e s ++ q) (run_fifo events (step e s))
      ∙ sym (append_assoc (takes e s) (all_taken events (step e s)) (run events (step e s)).req_ch)

  -- Nine places at least stay free.
  abbrev Bounded : Server → Type 0
  Bounded s = length s.req_ch ≤ s.channels - 9

  length-puts :
      (e : Event) (s : Server) → Bounded s → length s.req_ch + length (puts e s) ≤ s.channels - 9
  length-puts (receive conn packet) s b = ground arith
  length-puts take s b = omega arith

  step-Bounded : (e : Event) (s : Server) → Bounded s → Bounded (step e s)
  step-Bounded e s b =
      let same = step_fifo e s in
      omega (
        arith,
        same.1,
        ap length same.0,
        length-append s.req_ch (puts e s),
        length-append (takes e s) (step e s).req_ch,
        length-puts e s b,
      )

  -- From a channel with at most nine fewer requests than its size, any sequence of steps keeps at
  -- most so many.
  pub run-Bounded :
      (events : List Event) (s : Server)
      → length s.req_ch ≤ s.channels - 9
      → length (run events s).req_ch ≤ s.channels - 9
  unfolding run
  run-Bounded [] s b = b
  run-Bounded (e ∷ events) s b =
      omega (arith, run-Bounded events (step e s) (step-Bounded e s b), (step_fifo e s).1)

  -- With fewer than ten channels configured, no sequence of steps puts a single request into the
  -- channel.
  pub all_put_small : (events : List Event) (s : Server) → s.channels < 10 → all_put events s ≡ []
  unfolding all_put
  all_put_small [] s h = refl
  all_put_small (e ∷ events) s h =
      rw (puts_small e s h) (all_put_small events (step e s) (omega (arith, (step_fifo e s).1)))
    where
      puts_small : (e : Event) (s : Server) → s.channels < 10 → puts e s ≡ []
      puts_small (receive conn packet) s h = ground arith
      puts_small take s h = refl

pub closed-connect : (s : State) → IsInt64 s.conns → (closed (connect s)).conns ≡ s.conns
unfolding closed connect
closed-connect s r = dec-inc s.conns r
