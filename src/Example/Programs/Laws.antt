-- ===== src/Example/Programs/Laws.antt =====
-- The client program against the server program.
use gffg.Prelude.{
  ℕ, ◌≡◌, ◌≢◌, refl, ap, ◌∙◌, Option, none, some, List, [], ◌∷◌, ◌++◌, drop, length, true, false,
}
use gffg.Prelude.Int.{ℤ, pos, IsInt64}
use gffg.Prelude.Text.{Text, codes, text_eq_refl}
use gffg.Proto.{Codec}
use gffg.Server.Handle.{State, Limit, allowed, handle}
use gffg.Server.Handle.Branches.{Writable, expected}
use gffg.Client.Request.{Options, CallOption, request_of, incoming, reply_to, init_opt, set_timeout}
use gffg.Server.Handler.{RpcHandler}
use gffg.Transport.Header.Laws.{eq_ℤ_refl}
use gffg.Transport.Response.{WriteResult, returned, write}
use gffg.Client.Pool.{Conn, Pool, Dialed, response, chosen}
use gffg.Client.Call
use gffg.Client.Call.{bytes, Answer, Outcome, new_request, answered, answer_of}
use gffg.Client.Call.Laws.{call-answered}
use gffg.Client.Calls.{Result, packet}
use gffg.Client.Report
use gffg.Client.Report.{ended}
use gffg.Example.Caller.{
  input_or, input_of, woken_by, heard, answered_by, wait_for, answer_or, send, client_call,
}
use gffg.Example.{Message, ask, replied, unmarshalled, new_user_service, create_user_method}
use gffg.Example.Laws.{create_user-exchange}
use gffg.Example.Programs.{
  CreateUserReq, CreateUserResp, UserInfoReq, UserInfoResp, create_user_req, create_return,
  call_create_user, controller, served_table, compared, service,
}

-- The options of `createUser`.
abbrev pub opt : Options
opt = init_opt (set_timeout (pos 5) ∷ [])

-- What the controller answers to the request of a number.
abbrev pub created : ℤ → CreateUserResp
created i = record {
  code = pos 200;
  msg = codes "CreateUser Success " ++ (create_user_req i).username;
  extra = [];
}

drop_all : (xs ys : List Text) → drop (length xs) (xs ++ ys) ≡ ys
drop_all [] ys = refl
drop_all (x ∷ xs) ys = drop_all xs ys

input_of-bytes :
    {A : Type 0} (error : Text) (codec : Message A) (a : A) (input : Text)
    → codec.marshal (some a) ≡ some input
    → input_of error codec a ≡ bytes input
input_of-bytes error codec a input e = ap (input_or error) e

module _ (codec : Codec) (limiter : Text → Limit) (s : State) (r : IsInt64 s.reqs) (trace : Text)
    (sid : ℤ) (sid_ne : sid ≢ pos 0) (create_user_req_codec : Message CreateUserReq)
    (create_user_resp_codec : Message CreateUserResp) (user_info_req_codec : Message UserInfoReq)
    (user_info_resp_codec : Message UserInfoResp) where
  abbrev table : RpcHandler
  table =
      served_table create_user_req_codec create_user_resp_codec user_info_req_codec
        user_info_resp_codec

  module _ (blocked : Answer) (write_error marshal_error address : Text)
      (results : List WriteResult) (dial : ℕ → Option Dialed) (intn : ℕ → ℕ) (now : ℕ)
      (meanwhile : Pool → Pool) (group : Text) (p q : Pool) (cli : Conn)
      (c : response dial intn now group service p ≡ (q, chosen cli)) where
    -- `Client.Call` of the client program.
    abbrev pub calling : List CallOption → Call.Request → Outcome
    calling =
        client_call codec limiter table s trace sid blocked write_error marshal_error address
          results dial intn now meanwhile group p

    module _ (opts : List CallOption) (m body sent ret reply wire : Text) (n : ℕ)
        (two_way : (init_opt opts).only_call ≡ false)
        (asked : codec.marshal_request (request_of trace sid m body (init_opt opts)) ≡ some sent)
        (written : write true results sent [] ≡ returned n false wire)
        (answers : (handle codec limiter (some table) sent s).0.replies ≡ s.replies ++ reply ∷ [])
        (comes : incoming codec reply ≡ reply_to sid (pos 0) ret) where
      waits_for : wait_for codec limiter table s trace sid m body (init_opt opts) ≡ packet ret
      waits_for =
          ap (answered_by codec limiter table s trace sid) asked
          ∙ ap (heard codec sid)
              (ap (drop (length s.replies)) answers ∙ drop_all s.replies (reply ∷ []))
          ∙ ap (woken_by sid) comes
          ∙ rw (eq_ℤ_refl sid) refl

      ended_as :
          (how : Result)
          → Report.call trace write_error marshal_error address codec sid m body
              (init_opt opts)
              results
              []
              how
            ≡ some (ended trace write_error marshal_error address how)
      unfolding Report.call
      ended_as how = rw (asked, written, two_way) refl

      -- A two-way call on that connection whose request is written and whose answer comes in.
      calling-answered : calling opts (new_request service m (bytes body)) ≡ Call.returned ret none
      unfolding client_call new_request answer_of
      calling-answered =
          ap (λ x. x.1)
            (call-answered dial intn now
              (send codec limiter table s trace sid blocked write_error marshal_error address
                results (init_opt opts))
              meanwhile group (new_request service m (bytes body)) p body refl q cli c)
          ∙ ap
              (λ x.
                (answered meanwhile group service cli (
                  q,
                  answer_or codec limiter table s trace sid blocked write_error marshal_error
                      address results x,
                )).1)
              (ended_as (wait_for codec limiter table s trace sid m body (init_opt opts)))
          ∙ ap
              (λ x.
                (answered meanwhile group service cli (q, answer_of trace write_error address x)).1)
              waits_for

    -- createUser of the client program, over Client.Call, against the controller of the server
    -- program, in a call that gets a connection for the service, with a sid other than 0, a request
    -- that is marshalled and written, a limiter that allows the method and a marshalled, writable
    -- answer, which is the first reply that comes in: the server sends one reply to this request,
    -- and createUser finds the message that it expects and logs the response of the controller,
    -- with the code 200.
    pub create_user-logged :
        (i : ℤ) (input ret sent reply wire error : Text) (n : ℕ)
        → Writable reply
        → limiter create_user_method ≡ allowed
        → create_user_req_codec.marshal (some (create_user_req i)) ≡ some input
        → create_user_resp_codec.marshal (some (created i)) ≡ some ret
        → codec.marshal_request (request_of trace sid create_user_method input opt) ≡ some sent
        → write true results sent [] ≡ returned n false wire
        → codec.marshal_response
            (expected (request_of trace sid create_user_method input opt) (pos 0) ret)
          ≡ some reply
        → ((handle codec limiter (some table) sent s).0.replies ≡ s.replies ++ reply ∷ [])
          × (call_create_user calling error create_user_req_codec create_user_resp_codec i
              ≡ create_return (created i))
    unfolding call_create_user init_opt ask new_user_service
    create_user-logged i input ret sent reply wire error n w allows a b m written m' =
        let (answers, comes) =
          create_user-exchange codec limiter s r trace sid sid_ne opt refl create_user_req_codec
            create_user_resp_codec user_info_req_codec user_info_resp_codec
            (controller create_user_req_codec create_user_resp_codec user_info_req_codec
              user_info_resp_codec)
            input ret sent reply w allows (create_user_req i) (created i) a b refl m m' in
        (
          answers,
          ap
                (λ x. compared (create_user_req i) (
                  replied create_user_req_codec create_user_resp_codec (
                    calling (set_timeout (pos 5) ∷ []) (new_request service create_user_method x))))
                (input_of-bytes error create_user_req_codec (create_user_req i) input a)
              ∙ ap
                  (λ x.
                    compared (create_user_req i)
                      (replied create_user_req_codec create_user_resp_codec x))
                  (calling-answered (set_timeout (pos 5) ∷ []) create_user_method input sent ret
                    reply wire n refl m written answers comes)
              ∙ ap
                  (λ x.
                    compared (create_user_req i)
                      (unmarshalled create_user_req_codec create_user_resp_codec x))
                  (create_user_resp_codec.unmarshal-marshal (created i) ret b)
              ∙ rw (text_eq_refl (codes "CreateUser Success " ++ (create_user_req i).username))
                  refl,
        )
