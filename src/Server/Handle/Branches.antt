-- ===== src/Server/Handle/Branches.antt =====
-- `Server.handle`, branch by branch: what is answered, reported and returned.
use gffg.Prelude.{
  ◌≡◌, refl, ap, ◌∙◌, arith, true, false, Option, none, some, List, [], ◌∷◌, ◌++◌, ◌^◌,
}
use gffg.Prelude.Int.{ℤ, pos, dec-inc, IsInt64, to_uint64}
use gffg.Prelude.Text.{Text, codes}
use gffg.Proto.{Codec, Request, Response, decoded}
use gffg.Transport.Socket.Delivery.{Deliverable, packet_header}
use gffg.Transport.Socket.{runtime_error}
use gffg.Server.Handler.{RpcItem, RpcHandler, Called, done, failed, panics, find}
use gffg.Server.Handle.{
  Metric, counter, counter_by_add, method_code, summary, Error, not_registered, limited,
  call_failed, State, returns, Run, Limit, allowed, refused, emit, inc_req, dec_req, response_write,
  only_call, trace_id, reply, after_call, after_limiter, deferred_report, serve, with_call,
  with_item, with_handler, with_request, finished, deferred_recover, handle,
}
use mathlib.Core.List.{append_assoc}

abbrev reported : Text → ℤ → ℤ → List Metric
reported name code reqs =
    method_code name code
    ∷ counter_by_add (codes "server") (codes "reqCount") reqs
    ∷ summary name
    ∷ counter (codes "server") (codes "recv")
    ∷ []

-- A state after a request: counted in and out again, and reported.
abbrev pub counted : State → Text → ℤ → State
counted s name code = record s { metrics = s.metrics ++ reported name code s.reqs }

-- The response that a client waits for.
abbrev pub expected : Request → ℤ → Text → Response
expected msg code body = record { sid = msg.sid; headers = msg.headers; code = code; packet = body }

append_four :
    (ms : List Metric) (a b c d : Metric)
    → (((ms ++ a ∷ []) ++ b ∷ []) ++ c ∷ []) ++ d ∷ [] ≡ ms ++ (a ∷ b ∷ c ∷ d ∷ [])
append_four ms a b c d = simp append_assoc

-- A packet that `Response.Write` takes.
abbrev pub Writable : Text → Type 0
Writable bytes = Deliverable (2 ^ 27) bytes

response_write-Writable :
    (s : State) (bytes : Text)
    → Writable bytes
    → response_write s bytes ≡ (record s { replies = s.replies ++ bytes ∷ [] }, returns none)
unfolding response_write
response_write-Writable s [] w = absurd (omega (arith, w.nonempty))
response_write-Writable s (b ∷ bytes) w = rw ((packet_header (2 ^ 27) (b ∷ bytes) w).encodes) refl

module _ (codec : Codec) (limiter : Text → Limit) (handler : RpcHandler) (packet : Text)
    (s : State) where
  -- A request whose id is not in the table gets no reply; only the receipt is counted, and an error
  -- is returned.
  pub handle_unregistered :
      (msg : Request)
      → codec.unmarshal_request packet ≡ decoded msg
      → find (to_uint64 msg.rpc_id) handler.calls ≡ none
      → handle codec limiter (some handler) packet s
        ≡ (emit (counter (codes "server") (codes "recv")) s, finished (some not_registered))
  unfolding handle with_request with_handler with_item deferred_recover
  handle_unregistered msg u f = rw (u, f) refl

module _ (codec : Codec) (limiter : Text → Limit) (handler : RpcHandler) (packet : Text) (s : State)
    (msg : Request) (item : RpcItem) (call : Text → Text → Called)
    (u : codec.unmarshal_request packet ≡ decoded msg)
    (f : find (to_uint64 msg.rpc_id) handler.calls ≡ some (some item)) (c : item.call ≡ some call)
    (r : IsInt64 s.reqs) where
  handle-serve :
      handle codec limiter (some handler) packet s
      ≡ deferred_recover (serve codec limiter msg item.name call s)
  unfolding handle with_request with_handler with_item with_call
  handle-serve = rw (u, f, c) refl

  -- The deferred functions, after a run of the body that ends without a panic.
  pub recover-serve :
      (code : ℤ) (e : Option Error) (replies : List Text)
      → after_limiter codec limiter msg call (inc_req s) (limiter item.name)
        ≡ record { state = record (inc_req s) { replies = replies }; code = code; exit = returns e }
      → handle codec limiter (some handler) packet s
        ≡ (record (counted s item.name code) { replies = replies }, finished e)
  unfolding serve deferred_report emit dec_req inc_req deferred_recover
  recover-serve code e replies h =
      handle-serve
      ∙ ap (λ (run : Run). deferred_recover (deferred_report codec limiter item.name run)) h
      ∙ ap (λ (q : ℤ). (state_with q (grown q), finished e)) (dec-inc s.reqs r)
      ∙ ap (λ ms. (state_with s.reqs ms, finished e)) (append_four s.metrics _ _ _ _)
    where
      state_with : ℤ → List Metric → State
      state_with q ms = record { reqs = q; conns = s.conns; replies = replies; metrics = ms }

      grown : ℤ → List Metric
      grown q =
          (((s.metrics ++ method_code item.name code ∷ [])
              ++ counter_by_add (codes "server") (codes "reqCount") q ∷ [])
            ++ summary item.name ∷ [])
          ++ counter (codes "server") (codes "recv") ∷ []

  -- A registered request that the limiter allows, whose function succeeds and that is not one-way,
  -- is answered by one packet, the marshalled response with code 0 and the result, when that is
  -- writable; the metrics get the code 0, the count, the summary and the receipt, and no error is
  -- returned.
  pub handle_answers :
      (ret bytes : Text)
      → limiter item.name ≡ allowed
      → call (trace_id msg) msg.packet ≡ done ret
      → only_call msg ≡ false
      → codec.marshal_response (expected msg (pos 0) ret) ≡ some bytes
      → Writable bytes
      → handle codec limiter (some handler) packet s ≡ (
        record (counted s item.name (pos 0)) { replies = s.replies ++ bytes ∷ [] },
        finished none,
      )
  unfolding after_limiter after_call reply
  handle_answers ret bytes l d o m w =
      recover-serve (pos 0) none (s.replies ++ bytes ∷ [])
        (rw (l, d, o, m, response_write-Writable (inc_req s) bytes w) (unfold inc_req in refl))

  -- A registered request that the limiter allows, whose function succeeds and that is one-way (the
  -- header onlyCall, or sid 0), gets no reply; it is reported with code 0 and no error is returned.
  pub handle_one_way :
      (ret : Text)
      → limiter item.name ≡ allowed
      → call (trace_id msg) msg.packet ≡ done ret
      → only_call msg ≡ true
      → handle codec limiter (some handler) packet s ≡ (counted s item.name (pos 0), finished none)
  unfolding after_limiter after_call
  handle_one_way ret l d o =
      recover-serve (pos 0) none s.replies (rw (l, d, o) (unfold inc_req in refl))

  -- A registered request that the limiter refuses is answered by the marshalled response with code
  -- 405, when that is writable, whatever its function would do, and is reported with that code and
  -- an error.
  pub handle_refused :
      (bytes : Text)
      → limiter item.name ≡ refused
      → codec.marshal_response (expected msg (pos 405) []) ≡ some bytes
      → Writable bytes
      → handle codec limiter (some handler) packet s ≡ (
        record (counted s item.name (pos 405)) { replies = s.replies ++ bytes ∷ [] },
        finished (some limited),
      )
  unfolding after_limiter reply
  handle_refused bytes l m w =
      recover-serve (pos 405) (some limited) (s.replies ++ bytes ∷ [])
        (rw (l, m, response_write-Writable (inc_req s) bytes w) (unfold inc_req in refl))

  -- A registered request that the limiter allows and whose function fails is answered by the
  -- marshalled response with code 505, when that is writable, one-way or not, and is reported with
  -- that code and an error.
  pub handle_failed :
      (bytes : Text)
      → limiter item.name ≡ allowed
      → call (trace_id msg) msg.packet ≡ failed
      → codec.marshal_response (expected msg (pos 505) []) ≡ some bytes
      → Writable bytes
      → handle codec limiter (some handler) packet s ≡ (
        record (counted s item.name (pos 505)) { replies = s.replies ++ bytes ∷ [] },
        finished (some call_failed),
      )
  unfolding after_limiter after_call reply
  handle_failed bytes l d m w =
      recover-serve (pos 505) (some call_failed) (s.replies ++ bytes ∷ [])
        (rw (l, d, m, response_write-Writable (inc_req s) bytes w) (unfold inc_req in refl))

  -- A registered request that the limiter allows and whose function panics with a runtime error
  -- gets no reply, is reported with code 0, and no error is returned; the panic is counted.
  pub handle_panics :
      limiter item.name ≡ allowed
      → call (trace_id msg) msg.packet ≡ panics runtime_error
      → handle codec limiter (some handler) packet s ≡ (
        emit (counter (codes "server") (codes "panic")) (counted s item.name (pos 0)),
        finished none,
      )
  unfolding after_limiter after_call serve deferred_report emit dec_req inc_req deferred_recover
  handle_panics l d =
      handle-serve
      ∙ rw (l, d)
          (ap (λ (q : ℤ). (state_with q (grown q ++ panic), finished none)) (dec-inc s.reqs r)
            ∙ ap (λ ms. (state_with s.reqs (ms ++ panic), finished none))
                (append_four s.metrics _ _ _ _))
    where
      panic : List Metric
      panic = counter (codes "server") (codes "panic") ∷ []

      state_with : ℤ → List Metric → State
      state_with q ms = record { reqs = q; conns = s.conns; replies = s.replies; metrics = ms }

      grown : ℤ → List Metric
      grown q =
          (((s.metrics ++ method_code item.name (pos 0) ∷ [])
              ++ counter_by_add (codes "server") (codes "reqCount") q ∷ [])
            ++ summary item.name ∷ [])
          ++ counter (codes "server") (codes "recv") ∷ []
