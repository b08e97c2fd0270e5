-- ===== src/Client/Report.antt =====
-- `Client.call` of client/client.go from its request to its return, with the code that its deferred function
-- gives to the metrics. How the wait ends, in the steps of Client.Calls, is an argument.
pub mod Laws
mod Runs
use gffg.Prelude.{Option, none, some, List, [], ◌∷◌, ◌++◌, if◌then◌else◌, true, false}
use gffg.Prelude.Int.{ℤ, pos, negsuc}
use gffg.Prelude.Text.{Text, codes}
use gffg.Prelude.Decimal.{format_int}
use gffg.Proto.{Codec}
use gffg.Metrics.{Metric, method_code}
use gffg.Transport.Socket.{runtime_error}
use gffg.Transport.Response.{WriteResult, WriteOutcome, returned, blocked, panicked, write}
use gffg.Client.Request.{Options, request_of}
use gffg.Client.Calls.{Result, packet, refused, timed_out, write_failed}
use gffg.Client.Call
use gffg.Client.Call.{Answer, answer, error, answer_of}

-- The result of a call, and `rpcCode` at its end.
pub record Ended : Type 0 where
  pub answer : Answer
  pub rpc_code : ℤ

abbrev pub rpc_code_of : Result → ℤ
rpc_code_of (packet body) = pos 0
rpc_code_of (refused code) = code
rpc_code_of timed_out = pos 408
rpc_code_of write_failed = pos 500

-- `write_error` and `marshal_error` are the texts of errors, and `address` is what `%s` prints for `&traceId`.
module _ (trace write_error marshal_error address : Text) where
  abbrev pub ended : Result → Ended
  ended r = record { answer = answer_of trace write_error address r; rpc_code = rpc_code_of r }

  -- After `res.Write`; `blocked` is still in it.
  abbrev after_write : Options → Result → WriteOutcome → Option Ended
  after_write opt r (returned n true wire) = some (ended write_failed)
  after_write opt r (returned n false wire) =
      some (if opt.only_call then record { answer = answer []; rpc_code = pos 0 } else ended r)
  after_write opt r (blocked n wire) = none
  after_write opt r (panicked wire) =
      some (record { answer = Call.panicked runtime_error; rpc_code = negsuc 0 })

  abbrev with_bytes : Options → Result → List WriteResult → Text → Option Text → Option Ended
  with_bytes opt r results wire none = some (record {
    answer =
        error (
          codes "call.Marshal error[" ++ (marshal_error ++ (93 ∷ 9 ∷ (codes "traceId:" ++ trace))));
    rpc_code = negsuc 0;
  })
  with_bytes opt r results wire (some req) = after_write opt r (write true results req wire)

  -- `results` is what the kernel does with the writes, `wire` what the connection has sent so far.
  unfoldable pub call :
      Codec → ℤ → Text → Text → Options → List WriteResult → Text → Result → Option Ended
  unfolding answer_of
  call codec sid rpc body opt results wire r =
      with_bytes opt r results wire (codec.marshal_request (request_of trace sid rpc body opt))

-- `metrics.MethodCode(rpc, fmt.Sprintf("%d", rpcCode))`.
abbrev pub reported : Text → Text → Text → Ended → Metric
reported host configured rpc e = method_code host configured rpc (format_int e.rpc_code) []
