-- ===== src/Client/Exchange.antt =====
-- A call from end to end: the request of client/client.go, `Server.handle` of server/server.go on its
-- bytes, and the handler of client/pools.go on the reply.
use gffg.Prelude.{◌≡◌, ◌≢◌, refl, ap, ◌∙◌, Option, none, some, [], ◌∷◌, ◌++◌, false}
use gffg.Prelude.Int.{ℤ, pos, IsInt64, to_uint64}
use gffg.Prelude.Text.{Text}
use gffg.Proto.{Codec, Request, decoded}
use gffg.Common.{gen_rid}
use gffg.Server.Handler.{RpcItem, RpcHandler, Called, done, failed, panics, find}
use gffg.Server.Handle.{State, Limit, allowed, refused, limiter_panics, Handled, handle, trace_id}
use gffg.Server.Handle.Branches.{Writable, expected, handle_answers, handle_refused, handle_failed}
use gffg.Client.Request.{Options, request_of, request_of_agrees, reply_to, incoming, not_zero}

-- The code and the packet that a call is to be answered with, if it is to be answered.
abbrev called : Called → Option (ℤ × Text)
called (done ret) = some (pos 0, ret)
called failed = some (pos 505, [])
called (panics p) = none

abbrev pub verdict : Limit → Called → Option (ℤ × Text)
verdict allowed result = called result
verdict refused result = some (pos 405, [])
verdict (limiter_panics p) result = none

module _ (codec : Codec) (limiter : Text → Limit) (handler : RpcHandler) (s : State)
    (r : IsInt64 s.reqs) (trace : Text) (sid : ℤ) (sid_ne : sid ≢ pos 0) (rpc packet : Text)
    (opt : Options) (two_way : opt.only_call ≡ false) (item : RpcItem)
    (call : Text → Text → Called) where
  incoming-expected :
      (code : ℤ) (body bytes : Text)
      → codec.marshal_response (expected (request_of trace sid rpc packet opt) code body)
        ≡ some bytes
      → incoming codec bytes ≡ reply_to sid code body
  unfolding incoming request_of
  incoming-expected code body bytes m =
      rw (codec.unmarshal-marshal_response _ bytes m, two_way, not_zero sid sid_ne) refl

  module _ (sent : Text)
      (m : codec.marshal_request (request_of trace sid rpc packet opt) ≡ some sent)
      (f : find (gen_rid rpc) handler.calls ≡ some (some item)) (c : item.call ≡ some call) where
    registered :
        find (to_uint64 (request_of trace sid rpc packet opt).rpc_id) handler.calls
        ≡ some (some item)
    registered =
        ap (λ id. find id handler.calls) (request_of_agrees trace sid rpc packet opt sid_ne).0 ∙ f

    abbrev msg : Request
    msg = request_of trace sid rpc packet opt

    -- The request as the server reads it.
    read_back : codec.unmarshal_request sent ≡ decoded msg
    read_back = codec.unmarshal-marshal_request msg sent m

    result_of_call : (d : Called) → call trace packet ≡ d → call (trace_id msg) msg.packet ≡ d
    unfolding request_of
    result_of_call d e =
        ap (λ t. call t packet) (request_of_agrees trace sid rpc packet opt sid_ne).2 ∙ e

    verdict_eq : (a b : ℤ × Text) → some a ≡ some b → a ≡ b
    verdict_eq a b e = cc e

    -- The bytes are the response that the verdict says.
    same_verdict :
        (a b : ℤ × Text) (bytes : Text)
        → some a ≡ some b
        → codec.marshal_response (expected msg b.0 b.1) ≡ some bytes
        → codec.marshal_response (expected msg a.0 a.1) ≡ some bytes
    same_verdict a b bytes e m' =
        ap (λ (x : ℤ × Text). codec.marshal_response (expected msg x.0 x.1)) (verdict_eq a b e) ∙ m'

    replied :
        (l : Limit) (d : Called) (b : ℤ × Text) (bytes : Text)
        → limiter item.name ≡ l
        → call trace packet ≡ d
        → verdict l d ≡ some b
        → codec.marshal_response (expected msg b.0 b.1) ≡ some bytes
        → Writable bytes
        → (handle codec limiter (some handler) sent s).0.replies ≡ s.replies ++ bytes ∷ []
    replied allowed (done ret) b bytes lim e v m' w =
        ap (λ (x : State × Handled). x.0.replies)
          (handle_answers codec limiter handler sent s msg item call read_back registered c r ret
            bytes lim (result_of_call (done ret) e)
            ((request_of_agrees trace sid rpc packet opt sid_ne).1 ∙ two_way)
            (same_verdict (pos 0, ret) b bytes v m') w)
    replied allowed failed b bytes lim e v m' w =
        ap (λ (x : State × Handled). x.0.replies)
          (handle_failed codec limiter handler sent s msg item call read_back registered c r bytes
            lim (result_of_call failed e) (same_verdict (pos 505, []) b bytes v m') w)
    replied allowed (panics p) b bytes lim e v m' w = absurd (cc v)
    replied refused d b bytes lim e v m' w =
        ap (λ (x : State × Handled). x.0.replies)
          (handle_refused codec limiter handler sent s msg item call read_back registered c r bytes
            lim (same_verdict (pos 405, []) b bytes v m') w)
    replied (limiter_panics p) d b bytes lim e v m' w = absurd (cc v)

    -- A two-way call with a sid other than 0, whose request is marshalled, to a method that the
    -- server has registered under its signature: if the limiter and the function give a verdict
    -- (the result with code 0, an error with code 505, a refusal with code 405) and its response is
    -- writable, then the server sends that one reply, and the handler of the client's connection
    -- hands the sid of the call, the code and the packet on.
    pub exchange :
        (code : ℤ) (body bytes : Text)
        → verdict (limiter item.name) (call trace packet) ≡ some (code, body)
        → codec.marshal_response (expected (request_of trace sid rpc packet opt) code body)
          ≡ some bytes
        → Writable bytes
        → ((handle codec limiter (some handler) sent s).0.replies ≡ s.replies ++ bytes ∷ [])
          × (incoming codec bytes ≡ reply_to sid code body)
    exchange code body bytes v m' w = (
      replied (limiter item.name) (call trace packet) (code, body) bytes refl refl v m' w,
      incoming-expected code body bytes m',
    )
