-- ===== src/Server/Handle/Decision.antt =====
-- `Server.handle` of server/server.go on a registered request, against the decision that the limiter,
-- the function and the mark of a one-way call make.
use gffg.Prelude.{
  ◌≡◌, refl, sym, ap, ◌∙◌, true, false, Bool, Option, none, some, List, [], ◌∷◌, ◌++◌,
}
use gffg.Prelude.Int.{ℤ, pos, IsInt64, to_uint64}
use gffg.Prelude.Text.{Text}
use mathlib.Core.List.{append-nil}
use mathlib.Core.Path.{subst}
use gffg.Proto.{Codec, Request, decoded}
use gffg.Server.Handler.{RpcItem, RpcHandler, Called, done, failed, panics, find}
use gffg.Server.Handle.{
  State, Error, limited, call_failed, Limit, allowed, refused, limiter_panics, only_call, trace_id,
  finished, Handled, handle,
}
use gffg.Server.Handle.Branches.{
  Writable, expected, counted, handle_answers, handle_one_way, handle_refused, handle_failed,
}

-- The code that is reported, the error that is returned, and the body of the answer, if there is one.
pub record Decision : Type 0 where
  pub code : ℤ
  pub error : Option Error
  pub body : Option Text

abbrev after_success : Bool → Text → Option Text
after_success true ret = none
after_success false ret = some ret

abbrev after_allowed : Bool → Called → Option Decision
after_allowed one_way (done ret) =
    some (record { code = pos 0; error = none; body = after_success one_way ret })
after_allowed one_way failed =
    some (record { code = pos 505; error = some call_failed; body = some [] })
after_allowed one_way (panics p) = none

abbrev pub decide : Bool → Limit → Called → Option Decision
decide one_way allowed result = after_allowed one_way result
decide one_way refused result =
    some (record { code = pos 405; error = some limited; body = some [] })
decide one_way (limiter_panics p) result = none

-- The packets that answer a request with a body: the marshalled response, which is to be writable.
abbrev pub Answer : Codec → Request → ℤ → Option Text → List Text → Type 0
Answer codec msg code none replies = replies ≡ []
Answer codec msg code (some body) replies =
    (bytes : Text) × (codec.marshal_response (expected msg code body) ≡ some bytes)
    × Writable bytes
    × (replies ≡ bytes ∷ [])

module _ (codec : Codec) (limiter : Text → Limit) (handler : RpcHandler) (packet : Text) (s : State)
    (msg : Request) (item : RpcItem) (call : Text → Text → Called)
    (u : codec.unmarshal_request packet ≡ decoded msg)
    (f : find (to_uint64 msg.rpc_id) handler.calls ≡ some (some item)) (c : item.call ≡ some call)
    (r : IsInt64 s.reqs) where
  abbrev Decides : Decision → List Text → Type 0
  Decides d replies =
      handle codec limiter (some handler) packet s
      ≡ (record (counted s item.name d.code) { replies = s.replies ++ replies }, finished d.error)

  same_decision : (a b : Decision) → some a ≡ some b → a ≡ b
  same_decision a b e = cc e

  abbrev with_replies : Text → ℤ → Option Error → List Text → State × Handled
  with_replies name code e replies =
      (record (counted s name code) { replies = s.replies ++ replies }, finished e)

  of_success :
      (ret : Text) (one_way : Bool) (replies : List Text)
      → limiter item.name ≡ allowed
      → call (trace_id msg) msg.packet ≡ done ret
      → only_call msg ≡ one_way
      → Answer codec msg (pos 0) (after_success one_way ret) replies
      → handle codec limiter (some handler) packet s ≡ with_replies item.name (pos 0) none replies
  of_success ret true replies l d o e =
      handle_one_way codec limiter handler packet s msg item call u f c r ret l d o
      ∙ ap (λ rs. (record (counted s item.name (pos 0)) { replies = rs }, finished none))
          (sym (append-nil s.replies))
      ∙ ap (λ rs. with_replies item.name (pos 0) none rs) (sym e)
  of_success ret false replies l d o (bytes, m, w, e) =
      handle_answers codec limiter handler packet s msg item call u f c r ret bytes l d o m w
      ∙ ap (λ rs. with_replies item.name (pos 0) none rs) (sym e)

  by_cases :
      (l : Limit) (result : Called) (d : Decision) (replies : List Text)
      → limiter item.name ≡ l
      → call (trace_id msg) msg.packet ≡ result
      → decide (only_call msg) l result ≡ some d
      → Answer codec msg d.code d.body replies
      → Decides d replies
  by_cases allowed (done ret) d replies l e v a =
      let same = same_decision _ d v in
      subst (λ d. Answer codec msg d.code d.body replies → Decides d replies) same
        (of_success ret (only_call msg) replies l e refl) a
  by_cases allowed failed d replies l e v a =
      subst (λ d. Answer codec msg d.code d.body replies → Decides d replies) (same_decision _ d v)
        (λ x.
          handle_failed codec limiter handler packet s msg item call u f c r x.0 l e (x.1) (x.2)
          ∙ ap (λ rs. with_replies item.name (pos 505) (some call_failed) rs) (sym (x.3)))
        a
  by_cases allowed (panics p) d replies l e v a = absurd (cc v)
  by_cases refused result d replies l e v a =
      subst (λ d. Answer codec msg d.code d.body replies → Decides d replies) (same_decision _ d v)
        (λ x.
          handle_refused codec limiter handler packet s msg item call u f c r x.0 l (x.1) (x.2)
          ∙ ap (λ rs. with_replies item.name (pos 405) (some limited) rs) (sym (x.3)))
        a
  by_cases (limiter_panics p) result d replies l e v a = absurd (cc v)

  -- A registered request whose limiter and function do not panic, at a server whose count of
  -- requests is an int64, is handled as the decision says: a refusal gives the code 405 and the
  -- error of the limiter, a failure of the function the code 505 and its error, a success the code
  -- 0 and no error; an answer with an empty body, or with the result, is sent for each of them but
  -- for the success of a one-way request, as one marshalled response that is writable; the metrics
  -- get the code, the count, the summary and the receipt.
  pub handle-decide :
      (d : Decision) (replies : List Text)
      → decide (only_call msg) (limiter item.name) (call (trace_id msg) msg.packet) ≡ some d
      → Answer codec msg d.code d.body replies
      → handle codec limiter (some handler) packet s
        ≡ (record (counted s item.name d.code) { replies = s.replies ++ replies }, finished d.error)
  handle-decide d replies =
      by_cases (limiter item.name) (call (trace_id msg) msg.packet) d replies refl refl
