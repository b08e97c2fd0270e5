-- ===== src/Example/Caller.antt =====
-- `Client.Call` of client/client.go as the example calls it, on a connection to a server that handles the
-- request: the choice of the connection, the request, its write, and the wait for the reply.
use gffg.Prelude.{ℕ, Option, none, some, List, [], ◌∷◌, length, drop, if◌then◌else◌, true}
use gffg.Prelude.Int.{ℤ, eq_ℤ}
use gffg.Prelude.Text.{Text}
use gffg.Proto.{Codec}
use gffg.Server.Handler.{RpcHandler}
use gffg.Server.Handle.{State, Limit, handle}
use gffg.Transport.Response.{WriteResult}
use gffg.Client.Request.{
  Options, CallOption, init_opt, request_of, Incoming, ignored, reply_to, incoming,
}
use gffg.Client.Calls.{Result, timed_out, result_of}
use gffg.Client.Pool.{Conn, Pool, Dialed}
use gffg.Client.Call
use gffg.Client.Call.{Request, Marshalled, bytes, marshal_error, Outcome, Answer}
use gffg.Client.Report
use gffg.Client.Report.{Ended}
use gffg.Example.{Message}

abbrev pub input_or : Text → Option Text → Marshalled
input_or error none = marshal_error error
input_or error (some packet) = bytes packet

-- `in.Marshal()` of a message that is not nil, with the text of its error.
abbrev pub input_of : {A : Type 0} → Text → Message A → A → Marshalled
input_of error codec a = input_or error (codec.marshal (some a))

-- How a wait for the sid ends if this is what comes in.
abbrev pub woken_by : ℤ → Incoming → Result
woken_by sid ignored = timed_out
woken_by sid (reply_to other code body) =
    if eq_ℤ sid other
    then result_of (record { is_open = true; code = code; packet = body })
    else timed_out

abbrev pub heard : Codec → ℤ → List Text → Result
heard codec sid [] = timed_out
heard codec sid (reply ∷ replies) = woken_by sid (incoming codec reply)

module _ (codec : Codec) (limiter : Text → Limit) (handler : RpcHandler) (s : State) (trace : Text)
    (sid : ℤ) where
  abbrev pub answered_by : Option Text → Result
  answered_by none = timed_out
  answered_by (some sent) =
      heard codec sid
        (drop (length s.replies) (handle codec limiter (some handler) sent s).0.replies)

  -- How the wait ends: the server handles the request, and its replies come in.
  abbrev pub wait_for : Text → Text → Options → Result
  wait_for rpc body opt = answered_by (codec.marshal_request (request_of trace sid rpc body opt))

  -- `blocked` stands for the answer of a call that is still in its write; the next four are the texts of errors
  -- and what `%s` prints for `&traceId`.
  module _ (blocked : Answer) (write_error marshal_error address : Text)
      (results : List WriteResult) where
    abbrev pub answer_or : Option Ended → Answer
    answer_or none = blocked
    answer_or (some e) = e.answer

    -- `Client.call` on a connection.
    abbrev pub send : Options → Conn → Text → Text → Pool → Pool × Answer
    unfolding Report.call
    send opt cli rpc body p = (
      p,
      answer_or (
          Report.call trace write_error marshal_error address codec sid rpc body opt results []
            (wait_for rpc body opt)),
    )

    module _ (dial : ℕ → Option Dialed) (intn : ℕ → ℕ) (now : ℕ) (meanwhile : Pool → Pool)
        (group : Text) (p : Pool) where
      -- `Client.Call` of a client of this group, with its options.
      unfoldable pub client_call : List CallOption → Request → Outcome
      unfolding Call.call init_opt send
      client_call opts req =
          (Call.call dial intn now (send (init_opt opts)) meanwhile group req p).1
