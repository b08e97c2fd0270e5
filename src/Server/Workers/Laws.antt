-- ===== src/Server/Workers/Laws.antt =====
-- A server whose workers have returned.
use gffg.Prelude.{ℕ, zero, suc, ◌≡◌, refl, sym, ap, ◌∙◌, List, [], ◌∷◌, ◌++◌, Bool, true, false}
use gffg.Prelude.Text.{Text}
use gffg.Proto.{Codec}
use gffg.Server.Handle.{Limit}
use gffg.Server.Queue.{Server, on_recv}
use gffg.Server.Queue.Laws.{all_put, all_taken, run_fifo}
use gffg.Server.Queue.Laws
use gffg.Server.Workers.{Working, Event, receive, take, leave, cancel, step, run}

-- The packets that arrive, as events of the channel.
abbrev pub arrivals : List Event → List Laws.Event
arrivals [] = []
arrivals (receive conn packet ∷ events) = Laws.receive conn packet ∷ arrivals events
arrivals (take ∷ events) = arrivals events
arrivals (leave ∷ events) = arrivals events
arrivals (cancel ∷ events) = arrivals events

abbrev pub leaves : ℕ → List Event
leaves zero = []
leaves (suc n) = leave ∷ leaves n

module _ (codec : Codec) (limiter : Text → Limit) where
  -- With no worker, only arrivals change the server.
  run_idle :
      (events : List Event) (s : Server) (c : Bool)
      → (run codec limiter events (record { server = s; running = 0; cancelled = c })).server
        ≡ Laws.run codec limiter (arrivals events) s
  unfolding run step Laws.run Laws.step
  run_idle [] s c = refl
  run_idle (receive conn packet ∷ events) s c =
      run_idle events (on_recv codec limiter conn packet s).0 c
  run_idle (take ∷ events) s c = run_idle events s c
  run_idle (leave ∷ events) s true = run_idle events s true
  run_idle (leave ∷ events) s false = run_idle events s false
  run_idle (cancel ∷ events) s c = run_idle events s true

  run_leaves :
      (n : ℕ) (s : Server) (rest : List Event)
      → run codec limiter (leaves n ++ rest) (record { server = s; running = n; cancelled = true })
        ≡ run codec limiter rest (record { server = s; running = 0; cancelled = true })
  unfolding run step
  run_leaves zero s rest = refl
  run_leaves (suc n) s rest = run_leaves n s rest

  none_taken : (events : List Event) (s : Server) → all_taken codec limiter (arrivals events) s ≡ []
  unfolding all_taken
  none_taken [] s = refl
  none_taken (receive conn packet ∷ events) s =
      none_taken events (Laws.step codec limiter (Laws.receive conn packet) s)
  none_taken (take ∷ events) s = none_taken events s
  none_taken (leave ∷ events) s = none_taken events s
  none_taken (cancel ∷ events) s = none_taken events s

  -- After Release has cancelled the context and the workers have returned, whatever happens next,
  -- no request is taken out of the channel any more: those that waited in it and those that it has
  -- accepted since stay there, in order.
  pub run_released :
      (n : ℕ) (s : Server) (events : List Event)
      → (run codec limiter
          (cancel ∷ (leaves n ++ events))
          (record { server = s; running = n; cancelled = false })).server.req_ch
        ≡ s.req_ch ++ all_put codec limiter (arrivals events) s
  unfolding run step
  run_released n s events =
      ap (λ (w : Working). w.server.req_ch) (run_leaves n s events)
      ∙ ap (λ (t : Server). t.req_ch) (run_idle events s true)
      ∙ sym (
          run_fifo codec limiter (arrivals events) s
          ∙ ap (λ q. q ++ (Laws.run codec limiter (arrivals events) s).req_ch)
              (none_taken events s))
