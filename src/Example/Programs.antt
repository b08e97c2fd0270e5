-- ===== src/Example/Programs.antt =====
-- The example programs: the controller of example/server/controller/handle.go, and `createUser` and `userInfo` of
-- example/client/main.go, with the messages of example/protocol/usernode.pb.go.
pub mod Laws
mod Runs
use gffg.Prelude.{Option, none, some, List, [], ◌∷◌, ◌++◌, if◌then◌else◌, true}
use gffg.Prelude.Int.{ℤ, pos}
use gffg.Prelude.Text.{Text, codes, text_eq}
use gffg.Prelude.Decimal.{format_int}
use gffg.Proto.{Headers}
use gffg.Server.Handler.{RpcHandler}
use gffg.Client.Request.{CallOption, set_only_call, set_timeout}
use gffg.Client.Call.{Request, Outcome}
use gffg.Example.Caller.{input_of}
use gffg.Example.{
  Message, Served, response, Reply, received, req_is_nil, call_error, bad_packet, crash, ask,
  new_user_service, create_user_method, user_info_method, UserServiceHandler,
  register_user_service_handler,
}

pub record Authorize : Type 0 where
  pub appid : Text
  pub appkey : Text
  pub extra : Headers

pub record CreateUserReq : Type 0 where
  pub auth : Option Authorize
  pub username : Text
  pub telephone : Text
  pub email : Text

pub record CreateUserResp : Type 0 where
  pub code : ℤ
  pub msg : Text
  pub extra : Headers

pub record UserInfoReq : Type 0 where
  pub auth : Option Authorize
  pub username : Text

pub record UserInfoResp : Type 0 where
  pub code : ℤ
  pub msg : Text
  pub extra : Headers

-- `controller.CreateUser`.
abbrev pub create_user : Text → CreateUserReq → Served CreateUserResp
create_user trace req = response (
    some (record { code = pos 200; msg = codes "CreateUser Success " ++ req.username; extra = [] }))

-- `controller.UserInfo`.
abbrev pub user_info : Text → UserInfoReq → Served UserInfoResp
user_info trace req =
    response (
      some (record { code = pos 200; msg = codes "UserInfo Success " ++ req.username; extra = [] }))

-- What a call of the client program logs at its end; `died` is the panic of a goroutine.
pub data Logged : Type 0 where
  create_return : CreateUserResp → Logged
  not_equal : Text → Text → Logged
  return_error : Logged
  nothing_logged : Logged
  died : Logged

abbrev empty_auth : Option Authorize
empty_auth = some (record { appid = []; appkey = []; extra = [] })

-- The request of `createUser`.
unfoldable pub create_user_req : ℤ → CreateUserReq
create_user_req i = record {
  auth = empty_auth;
  username = codes "gffg" ++ (codes "-" ++ format_int i);
  telephone = codes "1234567890";
  email = codes "HelloWorld";
}

abbrev pub compared : CreateUserReq → Reply CreateUserResp → Logged
compared req (received resp) =
    if text_eq (codes "CreateUser Success " ++ req.username) resp.msg
    then create_return resp
    else not_equal req.username resp.msg
compared req req_is_nil = return_error
compared req (call_error e) = return_error
compared req bad_packet = return_error
compared req crash = died

abbrev only_errors : Reply UserInfoResp → Logged
only_errors (received resp) = nothing_logged
only_errors req_is_nil = return_error
only_errors (call_error e) = return_error
only_errors bad_packet = return_error
only_errors crash = died

abbrev pub service : Text
service = codes "gffg-test"

-- `call` is `Client.Call` of the client with its options, and `error` the text of an error of Marshal.
module _ (call : List CallOption → Request → Outcome) (error : Text) where
  -- `createUser`.
  unfoldable pub call_create_user : Message CreateUserReq → Message CreateUserResp → ℤ → Logged
  unfolding ask new_user_service
  call_create_user req_codec resp_codec i = compared (create_user_req i) (
      ask req_codec resp_codec (new_user_service service) create_user_method
        (input_of error req_codec) (call (set_timeout (pos 5) ∷ [])) (some (create_user_req i)))

  -- `userInfo`.
  unfoldable pub call_user_info : Message UserInfoReq → Message UserInfoResp → Logged
  unfolding ask new_user_service
  call_user_info req_codec resp_codec = only_errors (
      ask req_codec resp_codec (new_user_service service) user_info_method
        (input_of error req_codec) (call (set_only_call true ∷ set_timeout (pos 5) ∷ []))
        (some (record { auth = empty_auth; username = codes "gffg" })))

module _ (create_user_req_codec : Message CreateUserReq)
    (create_user_resp_codec : Message CreateUserResp) (user_info_req_codec : Message UserInfoReq)
    (user_info_resp_codec : Message UserInfoResp) where
  -- `Controller`.
  abbrev pub controller :
      UserServiceHandler create_user_req_codec create_user_resp_codec user_info_req_codec
        user_info_resp_codec
  controller = record { create_user = create_user; user_info = user_info }

  -- What `main` of the server registers.
  abbrev pub served_table : RpcHandler
  served_table =
      register_user_service_handler create_user_req_codec create_user_resp_codec user_info_req_codec
        user_info_resp_codec controller
