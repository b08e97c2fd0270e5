-- ===== src/Server/Race/Runs.antt =====
-- A server whose channel is at the limit, with ten connections and with eleven.
use gffg.Prelude.{refl, arith, some, [], ◌∷◌}
use gffg.Prelude.Int.{pos}
use gffg.Prelude.Text.{Text}
use gffg.Proto.Sample.{traced}
use gffg.Server.Handler.{rpc_handler}
use gffg.Server.Handle.{Limit, allowed}
use gffg.Server.Queue.{Server}
use gffg.Server.Race.{Racing, Reach, here, next, pass, send, Blocks}
use gffg.Server.Race.Laws.{never_waits, waits_reachable}

abbrev limiter : Text → Limit
limiter name = allowed

abbrev server : Server
server = record {
  channels = 10;
  handler = some rpc_handler;
  req_ch = [];
  state = record { reqs = pos 0; conns = pos 1; replies = []; metrics = [] };
  sent = [];
}

abbrev one_sent : Racing
one_sent = record {
  server = record server { req_ch = record { conn = 3; packet = 7 ∷ [] } ∷ [] };
  sending = record { conn = 4; packet = 8 ∷ [] } ∷ [];
}

never_waits_example : ¬ Blocks one_sent
never_waits_example = never_waits traced limiter 10 server one_sent (omega arith) (omega arith) (
    next
      (next
        (next here (
          pass 3 (7 ∷ []) (record { known = omega arith; free = tt; some_bytes = λ e. cc e })
            (omega arith) refl))
        (pass 4 (8 ∷ [])
          (record {
            known = omega arith;
            free = (λ e. absurd (omega (arith, e)), tt);
            some_bytes = λ e. cc e;
          })
          (omega arith) refl))
      (send [] (record { conn = 3; packet = 7 ∷ [] }) (record { conn = 4; packet = 8 ∷ [] } ∷ [])
        refl (omega arith)))

waits_reachable_example :
    (t : Racing) × Reach traced limiter 11 (record { server = server; sending = [] }) t × Blocks t
waits_reachable_example =
    waits_reachable traced limiter 11 server (7 ∷ []) (λ e. cc e) (omega arith) (omega arith)
