-- ===== src/Client/Report/Runs.antt =====
-- A call that is answered with a packet, and the code that it reports.
use gffg.Prelude.{refl, List, [], ◌∷◌, inr, false}
use gffg.Prelude.Int.{pos, to_int64}
use gffg.Prelude.Text.{codes}
use gffg.Common.{gen_rid}
use gffg.Proto.Sample.{traced}
use gffg.Transport.Response.{WriteResult, wrote, write}
use gffg.Transport.Header.{encoder}
use gffg.Client.Request.{Options, request_of}
use gffg.Client.Calls.{packet}
use gffg.Client.Calls.Sample.{Answer, to_done}
use gffg.Client.Call.{answer, answer_of}
use gffg.Client.Report.{call}
use gffg.Client.Report.Laws.{Honest, call-Honest}

abbrev two_way : Options
two_way = record { only_call = false; timeout = pos 3 }

abbrev writes : List WriteResult
writes = wrote 8 ∷ wrote 8 ∷ []

call-Honest_example : Honest Answer 3 two_way (answer (1 ∷ [])) (pos 0)
unfolding call write encoder answer_of request_of to_int64 gen_rid
call-Honest_example =
    call-Honest Answer 3 two_way (7 ∷ []) [] [] [] traced (codes "Echo") (1 ∷ []) writes []
      (packet (1 ∷ [])) (record { answer = answer (1 ∷ []); rpc_code = pos 0 }) to_done (inr refl)
      refl
