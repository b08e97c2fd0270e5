-- ===== src/Client/Call.antt =====
-- `Client.Call` and `Client.NewRequest` of client/client.go: a call on a connection of the pool. The wait for the answer, with
-- what other goroutines do to the pool meanwhile, is an argument.
pub mod Laws
use gffg.Prelude.{
  ℕ, ◌≡◌, Option, none, some, List, [], ◌∷◌, ◌++◌, if◌then◌else◌, Bool, true, false, ◌||◌,
}
use gffg.Prelude.Text.{Text, codes}
use gffg.Prelude.Decimal.{format_int}
use gffg.Prelude.Split.{contains}
use gffg.Client.Calls.{Result, packet, refused, timed_out, write_failed}
use gffg.Transport.Socket.{Panic, runtime_error, other_value}
use gffg.Client.Pool.{
  Conn, Pool, Dialed, Choice, chosen, no_node, out_of_range, response, key, remove_during,
}

-- The request of `NewRequest`, with what `in.Marshal` gives: the bytes, or the text of an error.
pub data Marshalled : Type 0 where
  bytes : Text → Marshalled
  marshal_error : Text → Marshalled

pub record Request : Type 0 where
  pub name : Text
  pub input : Marshalled
  pub m : Text

-- `NewRequest`.
unfoldable pub new_request : Text → Text → Marshalled → Request
new_request name m input = record { name = name; input = input; m = m }

-- What `Client.call` returns: a packet, or the text of an error; or it panics.
pub data Answer : Type 0 where
  answer : Text → Answer
  error : Text → Answer
  panicked : Panic → Answer

-- The results of `Client.call` for the ways in which a call ends: the texts of its errors, where `write_error` is that of
-- the connection and `address` is what `%s` prints for `&traceId`.
unfoldable pub answer_of : Text → Text → Text → Result → Answer
answer_of trace write_error address (packet body) = answer body
answer_of trace write_error address (refused code) = error (
    codes "Request to server failed! called code:"
    ++ (format_int code ++ (9 ∷ (codes "traceId:" ++ trace))))
answer_of trace write_error address timed_out =
    error (codes "Wait fail , timeout" ++ (9 ∷ (codes " traceId:" ++ address)))
answer_of trace write_error address write_failed =
    error (codes "call.Write error[" ++ (write_error ++ (93 ∷ 9 ∷ (codes "traceId:" ++ trace))))

-- What `Call` returns. `crashed`: `r.(error)` in the deferred function panics in turn.
pub data Outcome : Type 0 where
  returned : Text → Option Text → Outcome
  crashed : Outcome

-- An error after which the connection is given up.
unfoldable pub is_broken : Text → Bool
unfolding contains
is_broken err = contains err (codes "closed") || contains err (codes "broken pipe")

-- After `c.call`; `meanwhile` is what other goroutines do to the pool in the middle of the removal. A panic leaves the named results `res` and `err` nil.
abbrev pub answered : (Pool → Pool) → Text → Text → Conn → Pool × Answer → Pool × Outcome
answered meanwhile group svrname cli (p, answer res) = (p, returned res none)
answered meanwhile group svrname cli (p, error e) = (
  if is_broken e then remove_during meanwhile cli.group cli.svrname cli.name p else p,
  returned [] (some e),
)
answered meanwhile group svrname cli (p, panicked runtime_error) = (p, returned [] none)
answered meanwhile group svrname cli (p, panicked other_value) = (p, crashed)

module _ (dial : ℕ → Option Dialed) (intn : ℕ → ℕ) (now : ℕ)
    (send : Conn → Text → Text → Pool → Pool × Answer) (meanwhile : Pool → Pool)
    (group : Text) where
  -- `rng.Intn` does not give an index out of range, so that the panic of that case ends as every runtime error.
  abbrev with_choice : Request → Text → Pool × Choice → Pool × Outcome
  with_choice req body (p, chosen cli) =
      answered meanwhile group req.name cli (send cli req.m body p)
  with_choice req body (p, no_node) =
      (p, returned [] (some (key group req.name ++ codes " didn't more node!")))
  with_choice req body (p, out_of_range) = (p, returned [] none)

  abbrev with_input : Request → Pool → Marshalled → Pool × Outcome
  with_input req p (marshal_error e) = (p, returned [] (some e))
  with_input req p (bytes body) = with_choice req body (response dial intn now group req.name p)

  -- `Call`.
  unfoldable pub call : Request → Pool → Pool × Outcome
  unfolding is_broken
  call req p = with_input req p req.input
