-- ===== src/Client/OnWire.antt =====
-- A call from end to end, in the bytes that the generated code of proto/packet.pb.go writes.
use gffg.Prelude.{
  zero, suc, ◌^◌, ◌<◌, ◌≡◌, ◌≢◌, refl, arith, some, [], ◌∷◌, ◌++◌, length, length-append, false,
}
use gffg.Prelude.Int.{ℤ, pos, negsuc, IsInt64, IsInt32, to_int64-IsInt64}
use gffg.Prelude.Text.{Text}
use mathlib.Core.Path.{subst}
use gffg.Proto.{Request, Response}
use gffg.Proto.Packet
use gffg.Proto.Packet.RoundTrip.{IsMessage}
use gffg.Proto.Reply
use gffg.Proto.Reply.RoundTrip.{IsReply}
use gffg.Proto.Fields.{encode_int}
use gffg.Proto.WireCodec.{wire_codec, marshal_message, marshal_reply}
use gffg.Common.{gen_rid}
use gffg.Server.Handler.{RpcItem, RpcHandler, Called, done, failed, panics, find}
use gffg.Server.Handle.{State, Limit, allowed, refused, limiter_panics, handle}
use gffg.Server.Handle.Branches.{expected}
use gffg.Client.Request.{Options, request_of, reply_to, incoming}
use gffg.Client.Exchange.{verdict, exchange}

code_of : (a b : ℤ × Text) → some a ≡ some b → a.0 ≡ b.0
code_of a b e = cc e

verdict_code :
    (l : Limit) (d : Called) (code : ℤ) (body : Text)
    → verdict l d ≡ some (code, body)
    → IsInt32 code
verdict_code allowed (done ret) code body e =
    subst IsInt32 (code_of (pos 0, ret) (code, body) e) (omega arith)
verdict_code allowed failed code body e =
    subst IsInt32 (code_of (pos 505, []) (code, body) e) (omega arith)
verdict_code allowed (panics p) code body e = cc
verdict_code refused d code body e =
    subst IsInt32 (code_of (pos 405, []) (code, body) e) (omega arith)
verdict_code (limiter_panics p) d code body e = cc

sid_bytes : (sid : ℤ) → sid ≢ pos 0 → 0 < length (encode_int 8 sid)
sid_bytes (pos zero) h = absurd (h refl)
sid_bytes (pos (suc n)) h = ground arith
sid_bytes (negsuc n) h = omega arith

marshal_nonempty : (m : Response) → m.sid ≢ pos 0 → 0 < length (Reply.marshal m)
unfolding Reply.marshal
marshal_nonempty m h = omega (arith, sid_bytes m.sid h, length-append (encode_int 8 m.sid) _)

module _ (limiter : Text → Limit) (handler : RpcHandler) (s : State) (r : IsInt64 s.reqs)
    (trace : Text) (sid : ℤ) (sid_ne : sid ≢ pos 0) (sid_fits : IsInt64 sid) (rpc packet : Text)
    (opt : Options) (two_way : opt.only_call ≡ false) (item : RpcItem)
    (call : Text → Text → Called) where
  abbrev msg : Request
  msg = request_of trace sid rpc packet opt

  sid_of_msg : msg.sid ≢ pos 0
  unfolding request_of
  sid_of_msg = sid_ne

  message : length (Packet.marshal msg) < 2 ^ 63 → IsMessage msg
  unfolding request_of
  message h = record {
    sid_fits = sid_fits;
    rpc_id_fits = to_int64-IsInt64 (gen_rid rpc);
    headers_map = rw two_way refl;
    length_fits = h;
  }

  answer :
      (code : ℤ) (body : Text)
      → IsInt32 code
      → length (Reply.marshal (expected msg code body)) < 2 ^ 27
      → IsReply (expected msg code body)
  unfolding request_of
  answer code body c h = record {
    sid_fits = sid_fits;
    code_fits = c;
    headers_map = rw two_way refl;
    length_fits = omega (arith, h);
  }

  -- A two-way call with a sid other than 0, in the bytes that Marshal writes, to a method that the server
  -- has registered under its signature: if the limiter and the function give a verdict, and its response
  -- is below 128 MiB, then the server sends that one response, and the handler of the client's
  -- connection hands the sid of the call, the code and the body on.
  pub exchange_on_wire :
      find (gen_rid rpc) handler.calls ≡ some (some item)
      → item.call ≡ some call
      → (code : ℤ) (body : Text)
      → verdict (limiter item.name) (call trace packet) ≡ some (code, body)
      → length (Packet.marshal (request_of trace sid rpc packet opt)) < 2 ^ 63
      → length (Reply.marshal (expected (request_of trace sid rpc packet opt) code body)) < 2 ^ 27
      → ((handle wire_codec limiter
            (some handler)
            (Packet.marshal (request_of trace sid rpc packet opt))
            s).0.replies
          ≡ s.replies
            ++ Reply.marshal (expected (request_of trace sid rpc packet opt) code body) ∷ [])
        × (incoming wire_codec
              (Reply.marshal (expected (request_of trace sid rpc packet opt) code body))
            ≡ reply_to sid code body)
  exchange_on_wire f c code body v small fits =
      let reply = answer code body (verdict_code _ _ code body v) fits in
      exchange wire_codec limiter handler s r trace sid sid_ne rpc packet opt two_way item call
        (Packet.marshal msg) (marshal_message msg (message small)) f c code body
        (Reply.marshal (expected msg code body)) v (marshal_reply (expected msg code body) reply)
        (record {
          nonempty = marshal_nonempty (expected msg code body) sid_of_msg;
          in_buffer = omega (arith, fits);
          in_header = fits;
        })
