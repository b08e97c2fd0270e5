-- ===== src/Metrics/Runs.antt =====
-- Runs of the metrics, and the theorems at concrete inputs.
use gffg.Prelude.{◌≡◌, refl, List, [], ◌∷◌, ◌++◌}
use gffg.Prelude.Int.{pos, negsuc}
use gffg.Prelude.Text.{codes}
use gffg.Metrics.{Metric, Reporter, counter, counter_by_add, method_code, summary}
use gffg.Metrics.Laws.{Event, send, receive, timer, run, step, all_accepted, held, run-held}

abbrev called : Metric
called = method_code (codes "10.0.0.1") (codes "user") (codes "Echo") (codes "0") []

abbrev panicked : Metric
panicked = counter (codes "10.0.0.1") (codes "user") (codes "server") (codes "panic") []

abbrev idle : Reporter
idle = record { m_ch = []; lists = []; batches = [] }

abbrev events : List Event
events = send called ∷ receive ∷ send panicked ∷ timer ∷ []

-- A clock that has gone back counts as no time; an empty option leaves the configured name.
summary_back :
    summary [] (codes "user") (codes "Echo") (negsuc 4) ([] ∷ [])
    ≡ summary [] (codes "user") (codes "Echo") (pos 0) []
summary_back = refl

add_named :
    (counter_by_add [] (codes "user") [] [] (pos 2) (codes "x" ∷ codes "news" ∷ [])).svrname
    ≡ codes "news"
add_named = refl

one_batch :
    run events idle ≡ record { m_ch = panicked ∷ []; lists = []; batches = (called ∷ []) ∷ [] }
unfolding run step
one_batch = refl

run-held_example : held (run events idle) ≡ held idle ++ all_accepted events idle
run-held_example = run-held events idle
