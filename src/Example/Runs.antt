-- ===== src/Example/Runs.antt =====
-- A call of each method of a service that greets.
use gffg.Prelude.{◌≡◌, refl, arith, Option, none, some, [], ◌∷◌, ◌++◌, false}
use gffg.Prelude.Int.{pos, to_int64}
use gffg.Prelude.Text.{Text, codes}
use gffg.Common.{gen_rid}
use gffg.Proto.Sample.{traced, sign, size}
use gffg.Server.Handle.{State, Limit, allowed, handle}
use gffg.Client.Request.{Options, request_of, incoming}
use gffg.Client.Call.{bytes}
use gffg.Example.{
  Message, response, received, ask, new_user_service, create_user_method, UserServiceHandler,
  register_user_service_handler,
}
use gffg.Example.Laws.{caller_gets, create_user-served}

abbrev marshal : Option Text → Option Text
marshal none = some []
marshal (some t) = some t

text_back : (a packet : Text) → marshal (some a) ≡ some packet → some packet ≡ some a
text_back a packet e = cc e

-- A message that is its bytes.
abbrev plain_text : Message Text
plain_text = record { marshal = marshal; unmarshal = λ t. some t; unmarshal-marshal = text_back }

abbrev hdlr : UserServiceHandler plain_text plain_text plain_text plain_text
hdlr = record {
  create_user = λ trace req. response (some (codes "hi " ++ req));
  user_info = λ trace req. response (some req);
}

abbrev idle : State
idle = record { reqs = pos 0; conns = pos 1; replies = []; metrics = [] }

abbrev two_way : Options
two_way = record { only_call = false; timeout = pos 3 }

abbrev open_limit : Text → Limit
open_limit name = allowed

abbrev sent : Text → Text → Text
sent method packet =
    0 ∷ 9 ∷ sign (to_int64 (gen_rid method)) ∷ size (to_int64 (gen_rid method)) ∷ 7 ∷ packet

default_service : new_user_service [] ≡ codes "protocol"
unfolding new_user_service
default_service = refl

create_user-served_example :
    ((handle traced open_limit
        (some (register_user_service_handler plain_text plain_text plain_text plain_text hdlr))
        (sent create_user_method (codes "ann"))
        idle).0.replies
      ≡ (0 ∷ 9 ∷ 0 ∷ 0 ∷ 7 ∷ codes "hi ann") ∷ [])
    × (ask plain_text plain_text
          (codes "svr")
          create_user_method
          (λ t. bytes t)
          (λ q. caller_gets (7 ∷ []) (incoming traced (0 ∷ 9 ∷ 0 ∷ 0 ∷ 7 ∷ codes "hi ann")))
          (some (codes "ann"))
        ≡ received (codes "hi ann"))
unfolding gen_rid request_of to_int64
create_user-served_example =
    create_user-served traced open_limit idle (omega arith) (7 ∷ []) (pos 9) (λ e. cc e) two_way
      refl plain_text plain_text plain_text plain_text hdlr (codes "ann") (codes "hi ann")
      (sent create_user_method (codes "ann")) (0 ∷ 9 ∷ 0 ∷ 0 ∷ 7 ∷ codes "hi ann") (omega arith)
      refl (codes "ann") (codes "hi ann") (codes "svr") (λ t. bytes t)
      (λ q. caller_gets (7 ∷ []) (incoming traced (0 ∷ 9 ∷ 0 ∷ 0 ∷ 7 ∷ codes "hi ann"))) refl refl
      refl refl refl refl
