-- ===== src/Client/Request.antt =====
-- The sequential parts of client/client.go and client/options.go: the request that `call` sends, the
-- options of a call, and what the handler of a connection does with a packet that arrives.
use gffg.Prelude.{
  ◌≡◌, ◌≢◌, refl, zero, suc, arith, none, some, List, [], ◌∷◌, ◌++◌, if◌then◌else◌, Bool, true,
  false, Bool-cases, inl, inr,
}
use gffg.Prelude.Int.{ℤ, pos, negsuc, eq_ℤ, to_int64, to_uint64}
use gffg.Prelude.Text.{Text, codes, lookup, insert}
use gffg.Proto.{Codec, Request, Response, Unmarshalled, decoded, malformed, out_of_range}
use gffg.Common.{gen_rid, gen_rid_signed}
use gffg.Server.Handle.{only_call, trace_id}

-- The fields of `Options` that a call reads.
pub record Options : Type 0 where
  pub only_call : Bool
  pub timeout : ℤ

-- `CallOption`: `OnlyCall` and `Timeout`.
pub data CallOption : Type 0 where
  set_only_call : Bool → CallOption
  set_timeout : ℤ → CallOption

abbrev apply : CallOption → Options → Options
apply (set_only_call b) o = record o { only_call = b }
apply (set_timeout t) o = record o { timeout = t }

abbrev apply_all : List CallOption → Options → Options
apply_all [] o = o
apply_all (f ∷ opts) o = apply_all opts (apply f o)

-- `initOpt`: the options in order, and three seconds if the timeout is still 0.
unfoldable pub init_opt : List CallOption → Options
init_opt opts =
    let opt = apply_all opts (record { only_call = false; timeout = pos 0 }) in
    if eq_ℤ (pos 0) opt.timeout then record opt { timeout = pos 3 } else opt

-- The request that `call` marshals. The headers are a map: `traceId`, and `onlyCall` for a one-way call.
unfoldable pub request_of : Text → ℤ → Text → Text → Options → Request
request_of trace sid rpc packet opt = record {
  sid = sid;
  rpc_id = to_int64 (gen_rid rpc);
  headers =
      if opt.only_call
      then insert (codes "onlyCall") (codes "1") (insert (codes "traceId") trace [])
      else insert (codes "traceId") trace [];
  packet = packet;
}

-- What the handler in `connect` does with a packet: nothing, or look up the call of the response.
pub data Incoming : Type 0 where
  ignored : Incoming
  reply_to : ℤ → ℤ → Text → Incoming

abbrev pub one_way : Response → Bool
one_way msg = elim (lookup (codes "onlyCall") msg.headers) [
  | some v ↦ true
  | none ↦ eq_ℤ (pos 0) msg.sid
]

-- The panic of an `Unmarshal` is recovered.
abbrev of_response : Unmarshalled Response → Incoming
of_response malformed = ignored
of_response out_of_range = ignored
of_response (decoded msg) = if one_way msg then ignored else reply_to msg.sid msg.code msg.packet

unfoldable pub incoming : Codec → Text → Incoming
incoming codec packet = of_response (codec.unmarshal_response packet)

apply_all-append :
    (opts : List CallOption) (f : CallOption) (o : Options)
    → apply_all (opts ++ f ∷ []) o ≡ apply f (apply_all opts o)
apply_all-append [] f o = refl
apply_all-append (g ∷ opts) f o = apply_all-append opts f (apply g o)

init_opt_only_call :
    (o : Options)
    → (if eq_ℤ (pos 0) o.timeout then record o { timeout = pos 3 } else o).only_call ≡ o.only_call
init_opt_only_call o = elim (Bool-cases (eq_ℤ (pos 0) o.timeout)) [
  | inl unset ↦ rw unset refl
  | inr given ↦ rw given refl
]

-- The timeout that is set last counts, with 3 in place of 0, and it leaves the one-way option as
-- the others set it.
pub init_opt-set_timeout :
    (opts : List CallOption) (t : ℤ)
    → init_opt (opts ++ set_timeout t ∷ []) ≡ record {
      only_call = (init_opt opts).only_call;
      timeout = if eq_ℤ (pos 0) t then pos 3 else t;
    }
unfolding init_opt
init_opt-set_timeout opts t =
    rw
      (
        apply_all-append opts (set_timeout t) (record { only_call = false; timeout = pos 0 }),
        init_opt_only_call (apply_all opts (record { only_call = false; timeout = pos 0 })),
      )
      (elim (Bool-cases (eq_ℤ (pos 0) t)) [ inl unset ↦ rw unset refl | inr given ↦ rw given refl ])

pub not_zero : (sid : ℤ) → sid ≢ pos 0 → eq_ℤ (pos 0) sid ≡ false
not_zero (pos zero) h = absurd (h refl)
not_zero (pos (suc n)) h = ground arith
not_zero (negsuc n) h = refl

-- The request that a call with a sid other than 0 sends has, for the server, the signature of its
-- method, the one-way mark exactly if the option is set, and the trace id of the call.
pub request_of_agrees :
    (trace : Text) (sid : ℤ) (rpc packet : Text) (opt : Options)
    → sid ≢ pos 0
    → (to_uint64 (request_of trace sid rpc packet opt).rpc_id ≡ gen_rid rpc)
      × (only_call (request_of trace sid rpc packet opt) ≡ opt.only_call)
      × (trace_id (request_of trace sid rpc packet opt) ≡ trace)
unfolding request_of
request_of_agrees trace sid rpc packet opt h = elim (Bool-cases opt.only_call) [
  | inl one ↦ (gen_rid_signed rpc, rw one refl, rw one refl)
  | inr two ↦ (gen_rid_signed rpc, rw (two, not_zero sid h) refl, rw two refl)
]
