-- ===== src/Example/Programs/Runs.antt =====
-- A call of the client program, with messages that are sent by what is not the same in all of them.
use gffg.Prelude.{
  ℕ, List, ◌≡◌, refl, arith, Option, none, some, [], ◌∷◌, Bool, true, false, if◌then◌else◌, ◌&&◌,
}
use gffg.Prelude.Int.{ℤ, pos, negsuc, to_int64}
use gffg.Prelude.Text.{Text, codes, text_eq, text_eq→eq}
use mathlib.Core.Path.{subst}
use gffg.Prelude.Decimal.{format_int}
use gffg.Common.{gen_rid}
use gffg.Proto.{Headers}
use gffg.Proto.Sample.{traced, sign, size}
use gffg.Server.Handle.{State, Limit, allowed, handle}
use gffg.Transport.Header.{encoder}
use gffg.Transport.Response.{WriteResult, wrote, WriteOutcome, returned, blocked, panicked, write}
use gffg.Client.Request.{request_of, init_opt}
use gffg.Client.Pool.{Conn, Pool, Dialed, response, top_up, fill_empty, assign, gen_con}
use gffg.Client.Call.{error}
use gffg.Example.{Message, create_user_method}
use gffg.Example.Caller.{client_call}
use gffg.Example.Programs.{
  Authorize, CreateUserReq, CreateUserResp, create_user_req, create_return, call_create_user,
  service, served_table,
}
use gffg.Example.Programs.Laws.{created, create_user-logged}

-- A request with the contact data of the program, by the name of its user.
abbrev named : Text → CreateUserReq
named username = record {
  auth = some (record { appid = []; appkey = []; extra = [] });
  username = username;
  telephone = codes "1234567890";
  email = codes "HelloWorld";
}

abbrev contact : Text → Text → Bool
contact telephone email =
    text_eq telephone (codes "1234567890") && text_eq email (codes "HelloWorld")

abbrev packed : Text → Text → Headers → Text → Text → Text → Option Text
packed [] [] [] username telephone email = if contact telephone email then some username else none
packed [] [] (x ∷ extra) username telephone email = none
packed [] (k ∷ appkey) extra username telephone email = none
packed (a ∷ appid) appkey extra username telephone email = none

abbrev with_auth : Option Authorize → Text → Text → Text → Option Text
with_auth none username telephone email = none
with_auth (some auth) username telephone email =
    packed auth.appid auth.appkey auth.extra username telephone email

abbrev marshal_req : Option CreateUserReq → Option Text
marshal_req none = none
marshal_req (some req) = with_auth req.auth req.username req.telephone req.email

same_text : (a b : Text) → some a ≡ some b → a ≡ b
same_text a b h = cc h

contact_back :
    (username telephone email packet : Text) (same_phone same_email : Bool)
    → text_eq telephone (codes "1234567890") ≡ same_phone
    → text_eq email (codes "HelloWorld") ≡ same_email
    → (if same_phone && same_email then some username else none) ≡ some packet
    → some (named packet) ≡ some (record (named username) { telephone = telephone; email = email })
contact_back username telephone email packet true true p e h =
    let p' = text_eq→eq telephone (codes "1234567890") p in
    let e' = text_eq→eq email (codes "HelloWorld") e in
    rw (p', e', same_text username packet h) refl
contact_back username telephone email packet true false p e h = absurd (cc h)
contact_back username telephone email packet false same_email p e h = absurd (cc h)

packed_back :
    (appid appkey : Text) (extra : Headers) (username telephone email packet : Text)
    → packed appid appkey extra username telephone email ≡ some packet
    → some (named packet)
      ≡ some (record {
        auth = some (record { appid = appid; appkey = appkey; extra = extra });
        username = username;
        telephone = telephone;
        email = email;
      })
packed_back [] [] [] username telephone email packet h =
    contact_back username telephone email packet _ _ refl refl h
packed_back [] [] (x ∷ extra) username telephone email packet h = absurd (cc h)
packed_back [] (k ∷ appkey) extra username telephone email packet h = absurd (cc h)
packed_back (a ∷ appid) appkey extra username telephone email packet h = absurd (cc h)

req_back :
    (auth : Option Authorize) (username telephone email packet : Text)
    → marshal_req
        (some (record { auth = auth; username = username; telephone = telephone; email = email }))
      ≡ some packet
    → some (named packet)
      ≡ some (record { auth = auth; username = username; telephone = telephone; email = email })
req_back none username telephone email packet h = absurd (cc h)
req_back (some auth) username telephone email packet h =
    packed_back auth.appid auth.appkey auth.extra username telephone email packet h

abbrev req_codec : Message CreateUserReq
req_codec = record {
  marshal = marshal_req;
  unmarshal = λ t. some (named t);
  unmarshal-marshal = λ a packet h. req_back a.auth a.username a.telephone a.email packet h;
}

abbrev resp_packed : ℤ → Text → Headers → Option Text
resp_packed (pos n) msg [] = some (n ∷ msg)
resp_packed (pos n) msg (x ∷ extra) = none
resp_packed (negsuc n) msg extra = none

abbrev marshal_resp : Option CreateUserResp → Option Text
marshal_resp none = none
marshal_resp (some resp) = resp_packed resp.code resp.msg resp.extra

abbrev unmarshal_resp : Text → Option CreateUserResp
unmarshal_resp [] = none
unmarshal_resp (n ∷ msg) = some (record { code = pos n; msg = msg; extra = [] })

resp_back :
    (code : ℤ) (msg : Text) (extra : Headers) (packet : Text)
    → resp_packed code msg extra ≡ some packet
    → unmarshal_resp packet ≡ some (record { code = code; msg = msg; extra = extra })
resp_back (pos n) msg [] packet h =
    subst
      (λ t. elim t [
        | none ↦ Unit
        | some p ↦ unmarshal_resp p ≡ some (record { code = pos n; msg = msg; extra = [] })
      ])
      h refl
resp_back (pos n) msg (x ∷ extra) packet h = absurd (cc h)
resp_back (negsuc n) msg extra packet h = absurd (cc h)

abbrev resp_codec : Message CreateUserResp
resp_codec = record {
  marshal = marshal_resp;
  unmarshal = unmarshal_resp;
  unmarshal-marshal = λ a packet h. resp_back a.code a.msg a.extra packet h;
}

refuses : {A : Type 0} (a : A) (packet : Text) → none ≡ some packet → none ≡ some a
refuses a packet h = absurd (cc h)

-- A message that is never sent.
abbrev never_sent : {A : Type 0} → Message A
never_sent = record { marshal = λ a. none; unmarshal = λ t. none; unmarshal-marshal = refuses }

abbrev idle : State
idle = record { reqs = pos 0; conns = pos 1; replies = []; metrics = [] }

abbrev open_limit : Text → Limit
open_limit name = allowed

abbrev sent : Text
sent =
    0
    ∷ 9
    ∷ sign (to_int64 (gen_rid create_user_method))
    ∷ size (to_int64 (gen_rid create_user_method))
    ∷ 7
    ∷ codes "gffg-3"

abbrev answer : Text
answer = 0 ∷ 9 ∷ 0 ∷ 0 ∷ 7 ∷ 200 ∷ codes "CreateUser Success gffg-3"

abbrev dial : ℕ → Option Dialed
dial n = some (record { name = n ∷ []; socket = n; instance_id = 1; stamp = 5 })

abbrev first : ℕ → ℕ
first n = 0

abbrev same : Pool → Pool
same p = p

abbrev no_conns : Pool
no_conns = record { rpcconn = λ k. []; dials = 0 }

abbrev chosen_conn : Conn
chosen_conn = record {
  socket = 0;
  instance_id = 1;
  name = 0 ∷ [];
  svrname = service;
  stamp = 6;
  group = codes "g";
}

abbrev writes : List WriteResult
writes = wrote 8 ∷ wrote 100 ∷ []

abbrev wire_of : WriteOutcome → ℕ × Text
wire_of (returned n failed wire) = (n, wire)
wire_of (blocked n wire) = (n, wire)
wire_of (panicked wire) = (0, wire)

abbrev on_wire : ℕ × Text
on_wire = wire_of (write true writes sent [])

create_user-logged_example :
    ((handle traced open_limit
        (some (served_table req_codec resp_codec never_sent never_sent))
        sent
        idle).0.replies
      ≡ answer ∷ [])
    × (call_create_user
          (client_call traced open_limit
            (served_table req_codec resp_codec never_sent never_sent)
            idle
            (7 ∷ [])
            (pos 9)
            (error [])
            []
            []
            []
            writes
            dial
            first
            6
            same
            (codes "g")
            no_conns)
          []
          req_codec
          resp_codec
          (pos 3)
        ≡ create_return (created (pos 3)))
unfolding gen_rid request_of to_int64 create_user_req format_int init_opt response top_up fill_empty
    assign gen_con write encoder
create_user-logged_example =
    create_user-logged traced open_limit idle (omega arith) (7 ∷ []) (pos 9) (λ e. cc e) req_codec
      resp_codec never_sent never_sent (error []) [] [] [] writes dial first 6 same (codes "g")
      no_conns (response dial first 6 (codes "g") service no_conns).0 chosen_conn refl (pos 3)
      (codes "gffg-3") (200 ∷ codes "CreateUser Success gffg-3") sent answer (on_wire.1) []
      on_wire.0 (omega arith) refl refl refl refl refl refl
