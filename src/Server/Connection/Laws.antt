-- ===== src/Server/Connection/Laws.antt =====
-- Requests that arrive on a connection, up to the channel of the server.
use gffg.Prelude.{
  ℕ, suc, ◌+◌, ◌^◌, ◌≤◌, ◌≡◌, refl, sym, ap, ◌∙◌, arith, some, List, [], ◌∷◌, ◌++◌, length,
  length-append, All, ltb, false,
}
use gffg.Prelude.Text.{Text}
use mathlib.Core.Path.{subst}
use mathlib.Core.List.{append_assoc, append-nil}
use gffg.Proto.{Codec}
use gffg.Transport.Socket.{Conn, flat}
use gffg.Transport.Socket
use gffg.Transport.Socket.Delivery.{Delivers, on_recv-frames}
use gffg.Transport.Link.{Call, Completes, packets, write_all, write_all-frames, packets-Deliverable}
use gffg.Server.Handle.{Limit}
use gffg.Server.Queue.{RequestChannel, Server}
use gffg.Server.Queue.Laws.{on_recv_room}
use gffg.Server.Connection.{as_callback, on_packet, on_closed, serve_conn}

abbrev pub requests : ℕ → List Text → List RequestChannel
requests conn [] = []
requests conn (packet ∷ rest) = record { conn = conn; packet = packet } ∷ requests conn rest

module _ (codec : Codec) (limiter : Text → Limit) (conn : ℕ) where
  on_packet_room :
      (packet : Text) (s : Server)
      → length s.req_ch + 10 ≤ s.channels
      → on_packet codec limiter conn packet s
        ≡ Socket.returned
            (record s { req_ch = s.req_ch ++ record { conn = conn; packet = packet } ∷ [] })
  on_packet_room packet s room =
      ap as_callback (on_recv_room codec limiter conn packet s (not_ltb s.channels _ room))
    where
      not_ltb : (a b : ℕ) → b ≤ a → ltb a b ≡ false
      not_ltb a b h = ground arith

  delivered :
      (ps : List Text) (s : Server)
      → length s.req_ch + length ps + 9 ≤ s.channels
      → Delivers
          (2 ^ 20)
          (on_packet codec limiter conn)
          (some on_closed)
          ps
          s
          (record s { req_ch = s.req_ch ++ requests conn ps })
  delivered [] s room = ap (λ ch. record s { req_ch = ch }) (sym (append-nil s.req_ch))
  delivered (p ∷ ps) s room =
      let req : RequestChannel = record { conn = conn; packet = p } in
      (
        record s { req_ch = s.req_ch ++ req ∷ [] },
        on_packet_room p s (omega (arith, room)),
        subst
            (λ ch.
              Delivers (2 ^ 20) (on_packet codec limiter conn) (some on_closed) ps
                (record s { req_ch = s.req_ch ++ req ∷ [] }) (record s { req_ch = ch }))
            (append_assoc s.req_ch (req ∷ []) (requests conn ps))
            (delivered ps (record s { req_ch = s.req_ch ++ req ∷ [] })
              (omega (arith, room, length-append s.req_ch (req ∷ [])))),
      )

  length-packets : (calls : List Call) → length (packets calls) ≡ length calls
  length-packets [] = refl
  length-packets (c ∷ calls) = ap suc (length-packets calls)

  -- From packets that are written by Response.Write with kernel writes that make progress and are enough,
  -- cut in any way, the receive loop puts the requests into the channel, in order, if there is room for
  -- them, and goes on with the bytes behind them.
  pub serve_conn-queues :
      (calls : List Call) (rest : Text) (segments : Conn) (s : Server)
      → All (Completes (2 ^ 20)) calls
      → length s.req_ch + length calls + 9 ≤ s.channels
      → flat segments ≡ write_all calls [] ++ rest
      → serve_conn codec limiter conn segments s
        ≡ serve_conn codec limiter conn
            (rest ∷ [])
            (record s { req_ch = s.req_ch ++ requests conn (packets calls) })
  unfolding serve_conn
  serve_conn-queues calls rest segments s done room e =
      on_recv-frames (2 ^ 20) (on_packet codec limiter conn) (some on_closed) (packets calls) rest
        segments s _ (packets-Deliverable (2 ^ 20) calls done)
        (delivered (packets calls) s (omega (arith, room, length-packets calls)))
        (e ∙ ap (λ w. w ++ rest) (write_all-frames (2 ^ 20) calls [] done))
