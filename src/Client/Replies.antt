-- ===== src/Client/Replies.antt =====
-- The receiving side of a client's connection: the two callbacks that `connect` of client/pools.go gives to
-- `Socket.Handle`. How the handler waits in the send to a call is in Client.Calls.
use gffg.Prelude.{◌^◌, ◌≡◌, refl, sym, ap, some, List, [], ◌∷◌, ◌++◌, map, All}
use gffg.Prelude.Text.{Text}
use mathlib.Core.List.{append_assoc, append-nil}
use mathlib.Core.Path.{subst}
use gffg.Proto.{Codec}
use gffg.Transport.Socket
use gffg.Transport.Socket.{Conn, flat}
use gffg.Transport.Socket.Delivery.{Delivers}
use gffg.Transport.Link.{Call, Completes, packets, write_all, on_recv-write_all}
use gffg.Client.Pool.{Pool, remove_by_client}
use gffg.Client.Request.{Incoming, incoming}

-- What the handler has made of the packets so far, and the pool.
pub record Receiver : Type 0 where
  pub arrived : List Incoming
  pub pool : Pool

module _ (codec : Codec) (group svrname name : Text) where
  -- The handler recovers its panics, so that it always returns.
  abbrev pub on_reply : Text → Receiver → Socket.Callback Receiver
  on_reply packet s =
      Socket.returned (record s { arrived = s.arrived ++ incoming codec packet ∷ [] })

  -- The callback of a closed connection.
  abbrev pub on_closed : Receiver → Receiver
  on_closed s = record s { pool = remove_by_client group svrname name s.pool }

  -- `s.Handle` of the connection with this name.
  unfoldable pub receive : Conn → Receiver → Socket.Outcome Receiver
  unfolding Socket.handle
  receive segments s = Socket.handle on_reply (some on_closed) segments s

  arrived :
      (ps : List Text) (s : Receiver)
      → Delivers
          (2 ^ 20)
          on_reply
          (some on_closed)
          ps
          s
          (record s { arrived = s.arrived ++ map (incoming codec) ps })
  arrived [] s = ap (λ xs. record s { arrived = xs }) (sym (append-nil s.arrived))
  arrived (p ∷ ps) s = (
    record s { arrived = s.arrived ++ incoming codec p ∷ [] },
    refl,
    subst
        (λ xs.
          Delivers (2 ^ 20) on_reply (some on_closed) ps
            (record s { arrived = s.arrived ++ incoming codec p ∷ [] }) (record s { arrived = xs }))
        (append_assoc s.arrived (incoming codec p ∷ []) (map (incoming codec) ps))
        (arrived ps (record s { arrived = s.arrived ++ incoming codec p ∷ [] })),
  )

  -- On responses that are written by Response.Write with kernel writes that make progress and are enough,
  -- cut in any way, the receive loop of a client hands over what its handler makes of each, in order, and
  -- then removes the connection.
  pub receive-write_all :
      (calls : List Call) (segments : Conn) (s : Receiver)
      → All (Completes (2 ^ 20)) calls
      → flat segments ≡ write_all calls []
      → receive segments s
        ≡ Socket.closed (record {
          arrived = s.arrived ++ map (incoming codec) (packets calls);
          pool = remove_by_client group svrname name s.pool;
        })
  unfolding receive
  receive-write_all calls segments s done e =
      on_recv-write_all (2 ^ 20) on_reply (some on_closed) calls segments s _ done
        (arrived (packets calls) s) e
