-- ===== src/Example.antt =====
-- example/protocol/usernode.micro.go: the generated stubs of the service UserService, on the client's and on the
-- server's side. The messages and their codec are parameters.
pub mod Laws
pub mod Caller
pub mod Programs
mod Runs
use gffg.Prelude.{◌≡◌, Option, none, some, List, [], ◌∷◌, if◌then◌else◌}
use gffg.Prelude.Text.{Text, codes, text_eq}
use gffg.Common.{gen_rid}
use gffg.Server.Handler.{RpcItem, RpcHandler, rpc_handler, add, Called, done, failed, panics}
use gffg.Transport.Socket.{Panic}
use gffg.Client.Call.{Request, Marshalled, bytes, new_request, Outcome, returned, crashed}

-- A message type, by its codec. A nil pointer is marshalled as well.
pub record Message (A : Type 0) : Type 0 where
  pub marshal : Option A → Option Text
  pub unmarshal : Text → Option A
  pub unmarshal-marshal :
      (a : A) (packet : Text) → marshal (some a) ≡ some packet → unmarshal packet ≡ some a

-- What a method of the service returns: a response or nil, an error, or a panic.
pub data Served (A : Type 0) : Type 0 where
  response : Option A → Served A
  error : Served A
  panicked : Panic → Served A

-- What a method of the client's stub returns; `crashed` is that of `Client.Call`.
pub data Reply (A : Type 0) : Type 0 where
  received : A → Reply A
  req_is_nil : Reply A
  call_error : Text → Reply A
  bad_packet : Reply A
  crash : Reply A

module _ {Req Resp : Type 0} (req_codec : Message Req) (resp_codec : Message Resp) where
  abbrev marshalled : Option Text → Called
  marshalled none = failed
  marshalled (some out) = done out

  abbrev called : Served Resp → Called
  called (response res) = marshalled (resp_codec.marshal res)
  called error = failed
  called (panicked p) = panics p

  abbrev with_request : (Text → Req → Served Resp) → Text → Option Req → Called
  with_request hdlr trace none = failed
  with_request hdlr trace (some req) = called (hdlr trace req)

  -- The server's stub of one method, `userServiceHandler.CreateUser` or `.UserInfo`. Of the context it passes on the trace id.
  unfoldable pub serve : (Text → Req → Served Resp) → Text → Text → Called
  serve hdlr trace input = with_request hdlr trace (req_codec.unmarshal input)

  abbrev pub unmarshalled : Option Resp → Reply Resp
  unmarshalled none = bad_packet
  unmarshalled (some out) = received out

  abbrev pub replied : Outcome → Reply Resp
  replied (returned res none) = unmarshalled (resp_codec.unmarshal res)
  replied (returned res (some e)) = call_error e
  replied crashed = crash

  -- The client's stub of one method, `userService.CreateUser` or `.UserInfo`. `to_input` is `in.Marshal` as `Client.Call` makes it, and
  -- `call` is `Client.Call`.
  unfoldable pub ask :
      Text → Text → (Req → Marshalled) → (Request → Outcome) → Option Req → Reply Resp
  ask service_name method to_input call none = req_is_nil
  ask service_name method to_input call (some req) =
      replied (call (new_request service_name method (to_input req)))

-- `NewUserService`: the name of the service that is called.
unfoldable pub new_user_service : Text → Text
new_user_service service_name = if text_eq service_name [] then codes "protocol" else service_name

abbrev pub create_user_method : Text
create_user_method = codes "UserService.CreateUser"

abbrev pub user_info_method : Text
user_info_method = codes "UserService.UserInfo"

module _ {CreateUserReq CreateUserResp UserInfoReq UserInfoResp : Type 0}
    (create_user_req : Message CreateUserReq) (create_user_resp : Message CreateUserResp)
    (user_info_req : Message UserInfoReq) (user_info_resp : Message UserInfoResp) where
  -- `UserServiceHandler`; the first argument is the trace id of the context.
  pub record UserServiceHandler : Type 0 where
    pub create_user : Text → CreateUserReq → Served CreateUserResp
    pub user_info : Text → UserInfoReq → Served UserInfoResp

  abbrev pub create_user_item : UserServiceHandler → RpcItem
  create_user_item hdlr = record {
    call = some (serve create_user_req create_user_resp hdlr.create_user);
    name = create_user_method;
  }

  abbrev pub user_info_item : UserServiceHandler → RpcItem
  user_info_item hdlr = record {
    call = some (serve user_info_req user_info_resp hdlr.user_info);
    name = user_info_method;
  }

  -- `RegisterUserServiceHandler`: the table that it gives to `NewHandler`.
  unfoldable pub register_user_service_handler : UserServiceHandler → RpcHandler
  unfolding serve
  register_user_service_handler hdlr =
      add (add rpc_handler (gen_rid create_user_method) (some (create_user_item hdlr)))
        (gen_rid user_info_method) (some (user_info_item hdlr))
