-- ===== src/Server/Handle/Laws.antt =====
-- `Server.handle` on every branch.
use gffg.Prelude.{
  ◌≡◌, refl, ap, ◌∙◌, inl, inr, Option, none, some, List, [], ◌∷◌, ◌++◌, length, Bool-cases,
  Option-cases,
}
use gffg.Prelude.Int.{ℤ, pos, dec, dec-inc, IsInt64, to_uint64}
use gffg.Prelude.Text.{Text}
use gffg.Proto.{Codec, Request, Response, Unmarshalled, decoded, malformed, out_of_range}
use gffg.Transport.Header.{encoder}
use gffg.Transport.Socket.{runtime_error, other_value}
use gffg.Server.Handler.{RpcItem, RpcHandler, Called, done, failed, panics, find}
use gffg.Server.Handle.{
  Error, unmarshal_failed, limited, call_failed, State, Exit, returns, panics_with, Run, Limit,
  allowed, refused, limiter_panics, emit, inc_req, dec_req, response_write, then_error, only_call,
  trace_id, response_of, reply, after_call, after_limiter, deferred_report, serve, with_call,
  with_item, with_handler, with_request, deferred_recover, handle,
}

abbrev pub with_reply : State → Text → State
with_reply s bytes = record s { replies = s.replies ++ bytes ∷ [] }

-- What a branch does to the state: nothing, or one packet more that is a response to `msg`.
pub data Replied (codec : Codec) (msg : Request) (code : ℤ) (s t : State) : Type 0 where
  silent : t ≡ s → Replied codec msg code s t
  answered :
      (packet bytes : Text)
      → codec.marshal_response (response_of msg code packet) ≡ some bytes
      → t ≡ with_reply s bytes
      → Replied codec msg code s t

pub data Code : ℤ → Type 0 where
  success : Code (pos 0)
  limit : Code (pos 405)
  failure : Code (pos 505)

module _ (codec : Codec) (limiter : Text → Limit) (msg : Request) where
  reply-Replied :
      (s : State) (code : ℤ) (packet : Text)
      → Replied codec msg code s (reply codec limiter s (response_of msg code packet)).0
  unfolding reply response_write
  reply-Replied s code packet =
      elim (Option-cases (codec.marshal_response (response_of msg code packet))) [
        | inl e ↦ rw e (silent refl)
        | inr ([], e) ↦ rw e (silent refl)
        | inr (b ∷ bytes, e) ↦ elim (Option-cases (encoder (pos (length (b ∷ bytes))))) [
          | inl long ↦ rw (e, long) (silent refl)
          | inr (h, short) ↦ rw (e, short) (answered packet (b ∷ bytes) e refl)
        ]
      ]

  then_error-run :
      (e : Error) (code : ℤ) (r : State × Exit)
      → ((then_error e code r).state ≡ r.0) × ((then_error e code r).code ≡ code)
  then_error-run e code (s, returns x) = (refl, refl)
  then_error-run e code (s, panics_with p) = (refl, refl)

  -- From the limiter on, the reply and its code.
  record Answered (s : State) (run : Run) : Type 0 where
    replied : Replied codec msg run.code s run.state
    coded : Code run.code

  refusal :
      (s : State) (e : Error) (code : ℤ)
      → Code code
      → Answered s (then_error e code (reply codec limiter s (response_of msg code [])))
  refusal s e code c =
      let r = then_error-run e code (reply codec limiter s (response_of msg code [])) in
      record { replied = rw (r.0, r.1) (reply-Replied s code []); coded = rw r.1 c }

  after_call-Answered : (s : State) (c : Called) → Answered s (after_call codec limiter msg s c)
  unfolding after_call
  after_call-Answered s (done ret) = elim (Bool-cases (only_call msg)) [
    | inl only ↦ rw only (record { replied = silent refl; coded = success })
    | inr asked ↦ rw asked (record { replied = reply-Replied s (pos 0) ret; coded = success })
  ]
  after_call-Answered s failed = refusal s call_failed (pos 505) failure
  after_call-Answered s (panics p) = record { replied = silent refl; coded = success }

  after_limiter-Answered :
      (call : Text → Text → Called) (s : State) (l : Limit)
      → Answered s (after_limiter codec limiter msg call s l)
  unfolding after_limiter
  after_limiter-Answered call s allowed = after_call-Answered s (call (trace_id msg) msg.packet)
  after_limiter-Answered call s refused = refusal s limited (pos 405) limit
  after_limiter-Answered call s (limiter_panics p) = record {
    replied = silent refl;
    coded = success;
  }

-- The two counters of the server, and the packets that went out on the connection.
record Same (s t : State) : Type 0 where
  reqs : t.reqs ≡ s.reqs
  conns : t.conns ≡ s.conns

module _ (codec : Codec) (limiter : Text → Limit) where
  -- What handling `packet` adds to the replies: nothing, or one response to the request in it.
  pub data Reply (packet : Text) (before after : List Text) : Type 0 where
    none_sent : after ≡ before → Reply packet before after
    one_sent :
        (msg : Request) (response : Response) (bytes : Text)
        → codec.unmarshal_request packet ≡ decoded msg
        → codec.unmarshal_response bytes ≡ decoded response
        → response.sid ≡ msg.sid
        → response.headers ≡ msg.headers
        → Code response.code
        → after ≡ before ++ bytes ∷ []
        → Reply packet before after

  serve-Same :
      (msg : Request) (name : Text) (call : Text → Text → Called) (s : State)
      → IsInt64 s.reqs
      → Same s (serve codec limiter msg name call s).0
  unfolding serve deferred_report emit dec_req inc_req
  serve-Same msg name call s r =
      go (after_limiter codec limiter msg call (inc_req s) (limiter name))
        (after_limiter-Answered codec limiter msg call (inc_req s) (limiter name)).replied
    where
      go :
          (run : Run)
          → Replied codec msg run.code (inc_req s) run.state
          → Same s (deferred_report codec limiter name run).0
      go run (silent e) = record {
        reqs = ap (λ (t : State). dec t.reqs) e ∙ dec-inc s.reqs r;
        conns = ap (λ (t : State). t.conns) e;
      }
      go run (answered packet bytes m e) = record {
        reqs = ap (λ (t : State). dec t.reqs) e ∙ dec-inc s.reqs r;
        conns = ap (λ (t : State). t.conns) e;
      }

  serve-Reply :
      (packet name : Text) (msg : Request) (call : Text → Text → Called) (s : State)
      → codec.unmarshal_request packet ≡ decoded msg
      → Reply packet s.replies (serve codec limiter msg name call s).0.replies
  unfolding serve deferred_report emit dec_req inc_req
  serve-Reply packet name msg call s u =
      go (after_limiter codec limiter msg call (inc_req s) (limiter name))
        (after_limiter-Answered codec limiter msg call (inc_req s) (limiter name)).replied
        (after_limiter-Answered codec limiter msg call (inc_req s) (limiter name)).coded
    where
      go :
          (run : Run)
          → Replied codec msg run.code (inc_req s) run.state
          → Code run.code
          → Reply packet s.replies run.state.replies
      go run (silent e) c = none_sent (ap (λ (t : State). t.replies) e)
      go run (answered body bytes m e) c =
          one_sent msg (response_of msg run.code body) bytes u
            (codec.unmarshal-marshal_response _ bytes m) refl refl c
            (ap (λ (t : State). t.replies) e)

  deferred_recover-Same :
      (s : State) (r : State × Exit) → Same s r.0 → Same s (deferred_recover r).0
  unfolding deferred_recover emit
  deferred_recover-Same s (t, returns e) h = record { reqs = h.reqs; conns = h.conns }
  deferred_recover-Same s (t, panics_with runtime_error) h = record {
    reqs = h.reqs;
    conns = h.conns;
  }
  deferred_recover-Same s (t, panics_with other_value) h = record { reqs = h.reqs; conns = h.conns }

  deferred_recover-replies : (r : State × Exit) → (deferred_recover r).0.replies ≡ r.0.replies
  unfolding deferred_recover emit
  deferred_recover-replies (t, returns e) = refl
  deferred_recover-replies (t, panics_with runtime_error) = refl
  deferred_recover-replies (t, panics_with other_value) = refl

  with_item-Same :
      (msg : Request) (item : Option (Option RpcItem)) (s : State)
      → IsInt64 s.reqs
      → Same s (with_item codec limiter msg item s).0
  unfolding with_item with_call emit
  with_item-Same msg none s r = record { reqs = refl; conns = refl }
  with_item-Same msg (some none) s r = record { reqs = refl; conns = refl }
  with_item-Same msg (some (some item)) s r = called item.call
    where
      called :
          (call : Option (Text → Text → Called))
          → Same s (with_call codec limiter msg item.name call s).0
      called none = record { reqs = refl; conns = refl }
      called (some call) = serve-Same msg item.name call s r

  with_item-Reply :
      (packet : Text) (msg : Request) (item : Option (Option RpcItem)) (s : State)
      → codec.unmarshal_request packet ≡ decoded msg
      → Reply packet s.replies (with_item codec limiter msg item s).0.replies
  unfolding with_item with_call emit
  with_item-Reply packet msg none s u = none_sent refl
  with_item-Reply packet msg (some none) s u = none_sent refl
  with_item-Reply packet msg (some (some item)) s u = called item.call
    where
      called :
          (call : Option (Text → Text → Called))
          → Reply packet s.replies (with_call codec limiter msg item.name call s).0.replies
      called none = none_sent refl
      called (some call) = serve-Reply packet item.name msg call s u

  -- Handling a packet leaves the number of requests in progress and the number of connections as
  -- they were, on every branch, panics included.
  pub handle-reqs :
      (handler : Option RpcHandler) (packet : Text) (s : State)
      → IsInt64 s.reqs
      → ((handle codec limiter handler packet s).0.reqs ≡ s.reqs)
        × ((handle codec limiter handler packet s).0.conns ≡ s.conns)
  unfolding handle with_request with_handler
  handle-reqs handler packet s r = go handler (codec.unmarshal_request packet)
    where
      out :
          (x : State × Exit)
          → Same s x.0
          → ((deferred_recover x).0.reqs ≡ s.reqs) × ((deferred_recover x).0.conns ≡ s.conns)
      out x h = ((deferred_recover-Same s x h).reqs, (deferred_recover-Same s x h).conns)

      go :
          (handler : Option RpcHandler) (msg : Unmarshalled Request)
          → ((deferred_recover (with_request codec limiter handler msg s)).0.reqs ≡ s.reqs)
            × ((deferred_recover (with_request codec limiter handler msg s)).0.conns ≡ s.conns)
      go handler malformed =
          out (s, returns (some unmarshal_failed)) (record { reqs = refl; conns = refl })
      go handler out_of_range =
          out (s, panics_with runtime_error) (record { reqs = refl; conns = refl })
      go none (decoded msg) =
          out (s, panics_with runtime_error) (record { reqs = refl; conns = refl })
      go (some h) (decoded msg) =
          out _ (with_item-Same msg (find (to_uint64 msg.rpc_id) h.calls) s r)

  -- Handling a packet sends no reply, or exactly one, which decodes to a response with the sid and
  -- the headers of the request in the packet and the code 0, 405 or 505.
  pub handle-Reply :
      (handler : Option RpcHandler) (packet : Text) (s : State)
      → Reply packet s.replies (handle codec limiter handler packet s).0.replies
  unfolding handle with_request with_handler
  handle-Reply handler packet s = read (codec.unmarshal_request packet) refl
    where
      go :
          (handler : Option RpcHandler) (msg : Request)
          → codec.unmarshal_request packet ≡ decoded msg
          → Reply packet s.replies (with_handler codec limiter msg handler s).0.replies
      go none msg u = none_sent refl
      go (some h) msg u = with_item-Reply packet msg (find (to_uint64 msg.rpc_id) h.calls) s u

      read :
          (u : Unmarshalled Request)
          → codec.unmarshal_request packet ≡ u
          → Reply packet s.replies (handle codec limiter handler packet s).0.replies
      read malformed e = rw (e, deferred_recover-replies) (none_sent refl)
      read out_of_range e = rw (e, deferred_recover-replies) (none_sent refl)
      read (decoded msg) e = rw (e, deferred_recover-replies) (go handler msg e)
