-- ===== src/Example/Laws.antt =====
-- The stubs of the service over the server and the client: what the handler answers is what the caller gets.
use gffg.Prelude.{ℕ, ◌≡◌, ◌≢◌, refl, none, some, [], ◌∷◌, ◌++◌, true, false, ◌==◌, ==_iff}
use gffg.Prelude.Int.{ℤ, pos, IsInt64}
use gffg.Prelude.Text.{Text}
use gffg.Proto.{Codec}
use gffg.Common.{gen_rid}
use gffg.Server.Handler.{RpcHandler, done, find, find-add}
use gffg.Server.Handle.{State, Limit, allowed, handle}
use gffg.Server.Handle.Branches.{Writable, expected}
use gffg.Client.Request.{Options, request_of, Incoming, ignored, reply_to, incoming}
use gffg.Client.Exchange.{exchange}
use gffg.Client.Calls.{result_of, timed_out}
use gffg.Client.Call.{
  Request, new_request, Marshalled, Outcome, returned, Answer, answer, error, panicked, answer_of,
}
use gffg.Example.{
  Message, Served, response, received, serve, ask, create_user_method, user_info_method,
  UserServiceHandler, create_user_item, user_info_item, register_user_service_handler,
}

-- `Client.Call` where `call` has got this from the connection, and no error takes the connection out of the pool.
abbrev without_pool : Answer → Outcome
without_pool (answer res) = returned res none
without_pool (error e) = returned [] (some e)
without_pool (panicked p) = returned [] none

abbrev pub caller_gets : Text → Incoming → Outcome
caller_gets trace ignored = without_pool (answer_of trace [] [] timed_out)
caller_gets trace (reply_to sid code body) =
    without_pool
      (answer_of trace [] [] (result_of (record { is_open = true; code = code; packet = body })))

different_ids : (gen_rid user_info_method == gen_rid create_user_method) ≡ false
unfolding gen_rid
different_ids = refl

same_id : (n : ℕ) → (n == n) ≡ true
same_id n = (==_iff n n).1 refl

module _ (codec : Codec) (limiter : Text → Limit) (s : State) (r : IsInt64 s.reqs) (trace : Text)
    (sid : ℤ) (sid_ne : sid ≢ pos 0) (opt : Options) (two_way : opt.only_call ≡ false) where
  module _ {Req Resp : Type 0} (req_codec : Message Req) (resp_codec : Message Resp)
      (hdlr : Text → Req → Served Resp) (method : Text) (allows : limiter method ≡ allowed)
      (table : RpcHandler)
      (f : find (gen_rid method) table.calls
        ≡ some (some (record { call = some (serve req_codec resp_codec hdlr); name = method })))
      (req : Req) (resp : Resp) (packet ret sent bytes : Text)
      (req_bytes : req_codec.marshal (some req) ≡ some packet)
      (resp_bytes : resp_codec.marshal (some resp) ≡ some ret)
      (answers : hdlr trace req ≡ response (some resp))
      (m : codec.marshal_request (request_of trace sid method packet opt) ≡ some sent)
      (m' : codec.marshal_response (expected (request_of trace sid method packet opt) (pos 0) ret)
        ≡ some bytes)
      (w : Writable bytes) where
    served : serve req_codec resp_codec hdlr trace packet ≡ done ret
    unfolding serve
    served = rw (req_codec.unmarshal-marshal req packet req_bytes, answers, resp_bytes) refl

    method_exchange :
        ((handle codec limiter (some table) sent s).0.replies ≡ s.replies ++ bytes ∷ [])
        × (incoming codec bytes ≡ reply_to sid (pos 0) ret)
    method_exchange =
        exchange codec limiter table s r trace sid sid_ne method packet opt two_way
          (record { call = some (serve req_codec resp_codec hdlr); name = method })
          (serve req_codec resp_codec hdlr) sent m f refl (pos 0) ret bytes
          (rw (allows, served) refl) m' w

    method_answered :
        (service : Text) (to_input : Req → Marshalled) (call : Request → Outcome)
        → call (new_request service method (to_input req))
          ≡ caller_gets trace (incoming codec bytes)
        → ((handle codec limiter (some table) sent s).0.replies ≡ s.replies ++ bytes ∷ [])
          × (ask req_codec resp_codec service method to_input call (some req) ≡ received resp)
    unfolding ask answer_of
    method_answered service to_input call called_with = (
      method_exchange.0,
      rw (called_with, method_exchange.1, resp_codec.unmarshal-marshal resp ret resp_bytes) refl,
    )

  module _ {CreateUserReq CreateUserResp UserInfoReq UserInfoResp : Type 0}
      (create_user_req : Message CreateUserReq) (create_user_resp : Message CreateUserResp)
      (user_info_req : Message UserInfoReq) (user_info_resp : Message UserInfoResp)
      (hdlr : UserServiceHandler create_user_req create_user_resp user_info_req user_info_resp)
      (packet ret sent bytes : Text) (w : Writable bytes) where
    abbrev table : RpcHandler
    table =
        register_user_service_handler create_user_req create_user_resp user_info_req user_info_resp
          hdlr

    create_user_registered :
        find (gen_rid create_user_method) table.calls
        ≡ some (
            some
              (create_user_item create_user_req create_user_resp user_info_req user_info_resp hdlr))
    unfolding register_user_service_handler
    create_user_registered =
        rw
          (
            find-add (gen_rid create_user_method) (gen_rid user_info_method),
            different_ids,
            find-add (gen_rid create_user_method) (gen_rid create_user_method),
            same_id (gen_rid create_user_method),
          )
          refl

    user_info_registered :
        find (gen_rid user_info_method) table.calls
        ≡ some (
            some
              (user_info_item create_user_req create_user_resp user_info_req user_info_resp hdlr))
    unfolding register_user_service_handler
    user_info_registered =
        rw
          (
            find-add (gen_rid user_info_method) (gen_rid user_info_method),
            same_id (gen_rid user_info_method),
          )
          refl

    -- The reply to such a call of CreateUser, as the client's handler hands it on.
    pub create_user-exchange :
        (allows : limiter create_user_method ≡ allowed) (req : CreateUserReq)
        (resp : CreateUserResp)
        → create_user_req.marshal (some req) ≡ some packet
        → create_user_resp.marshal (some resp) ≡ some ret
        → hdlr.create_user trace req ≡ response (some resp)
        → codec.marshal_request (request_of trace sid create_user_method packet opt) ≡ some sent
        → codec.marshal_response
            (expected (request_of trace sid create_user_method packet opt) (pos 0) ret)
          ≡ some bytes
        → ((handle codec limiter (some table) sent s).0.replies ≡ s.replies ++ bytes ∷ [])
          × (incoming codec bytes ≡ reply_to sid (pos 0) ret)
    create_user-exchange allows req resp a b c m m' =
        method_exchange create_user_req create_user_resp hdlr.create_user create_user_method allows
          table create_user_registered req resp packet ret sent bytes a b c m m' w

    -- A two-way call of CreateUser, with a sid other than 0 and messages that can be marshalled, to
    -- a server with the service's handler that the limiter allows: if the handler answers the
    -- request with a response and its packet is writable, then the server sends one reply, and the
    -- client's stub, over any call that returns what comes of this reply for the request of this
    -- service, method and message, returns that response.
    pub create_user-served :
        (allows : limiter create_user_method ≡ allowed) (req : CreateUserReq)
        (resp : CreateUserResp) (service : Text) (to_input : CreateUserReq → Marshalled)
        (call : Request → Outcome)
        → create_user_req.marshal (some req) ≡ some packet
        → create_user_resp.marshal (some resp) ≡ some ret
        → hdlr.create_user trace req ≡ response (some resp)
        → codec.marshal_request (request_of trace sid create_user_method packet opt) ≡ some sent
        → codec.marshal_response
            (expected (request_of trace sid create_user_method packet opt) (pos 0) ret)
          ≡ some bytes
        → call (new_request service create_user_method (to_input req))
          ≡ caller_gets trace (incoming codec bytes)
        → ((handle codec limiter (some table) sent s).0.replies ≡ s.replies ++ bytes ∷ [])
          × (ask create_user_req create_user_resp service create_user_method to_input call
                (some req)
              ≡ received resp)
    create_user-served allows req resp service to_input call a b c m m' called_with =
        method_answered create_user_req create_user_resp hdlr.create_user create_user_method allows
          table create_user_registered req resp packet ret sent bytes a b c m m' w service to_input
          call called_with

    -- The same of the other method.
    pub user_info-served :
        (allows : limiter user_info_method ≡ allowed) (req : UserInfoReq) (resp : UserInfoResp)
        (service : Text) (to_input : UserInfoReq → Marshalled) (call : Request → Outcome)
        → user_info_req.marshal (some req) ≡ some packet
        → user_info_resp.marshal (some resp) ≡ some ret
        → hdlr.user_info trace req ≡ response (some resp)
        → codec.marshal_request (request_of trace sid user_info_method packet opt) ≡ some sent
        → codec.marshal_response
            (expected (request_of trace sid user_info_method packet opt) (pos 0) ret)
          ≡ some bytes
        → call (new_request service user_info_method (to_input req))
          ≡ caller_gets trace (incoming codec bytes)
        → ((handle codec limiter (some table) sent s).0.replies ≡ s.replies ++ bytes ∷ [])
          × (ask user_info_req user_info_resp service user_info_method to_input call (some req)
              ≡ received resp)
    user_info-served allows req resp service to_input call a b c m m' called_with =
        method_answered user_info_req user_info_resp hdlr.user_info user_info_method allows table
          user_info_registered req resp packet ret sent bytes a b c m m' w service to_input call
          called_with
