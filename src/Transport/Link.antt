-- ===== src/Transport/Link.antt =====
-- The two ends of a connection together: `Response.Write` on one side, `Socket.onRecv` on the other.
use gffg.Prelude.{
  ℕ, ◌+◌, ◌^◌, ◌≤◌, ◌<◌, ◌≡◌, refl, sym, ap, ◌∙◌, arith, true, Option, some, List, [], ◌∷◌, ◌++◌,
  length, All,
}
use gffg.Prelude.Int.{pos}
use gffg.Transport.Header.{decoder, ok}
use gffg.Transport.Response.{WriteResult, write, frame, frames}
use gffg.Transport.Response.Laws.{sent, Progress, write_completes}
use gffg.Transport.Socket.{
  Conn, read_loop, flat, recv_body, recv_checked, recv_frame, out_of_range, Callback, finish,
  on_recv_loop, on_recv,
}
use gffg.Transport.Socket.Delivery.{
  Deliverable, Delivers, on_recv-frames, packet_header, frame-eq, read_exactly,
}
use gffg.Transport.Header.Laws.{Encoded}
use mathlib.Core.List.{append-nil, append_assoc}

-- One call of `Response.Write`, with what the kernel does with its writes.
pub record Call : Type 0 where
  pub results : List WriteResult
  pub packet : List ℕ

-- The calls one after the other, as the mutex of the response makes them.
unfoldable pub write_all : List Call → List ℕ → List ℕ
write_all [] wire = wire
write_all (c ∷ calls) wire = write_all calls (sent (write true c.results c.packet wire))

abbrev pub packets : List Call → List (List ℕ)
packets [] = []
packets (c ∷ calls) = c.packet ∷ packets calls

-- Every write makes progress, and there are enough of them to get through.
pub record Completes (m : ℕ) (c : Call) : Type 0 where
  pub deliverable : Deliverable m c.packet
  pub progress : All Progress c.results
  pub enough : 8 + length c.packet ≤ length c.results

pub write_all-frames :
    (m : ℕ) (calls : List Call) (wire : List ℕ)
    → All (Completes m) calls
    → write_all calls wire ≡ wire ++ frames (packets calls)
unfolding write_all
write_all-frames m [] wire h = sym (append-nil wire)
write_all-frames m (c ∷ calls) wire (h, hs) =
    ap (λ o. write_all calls (sent o))
      (write_completes m c.packet h.deliverable c.results wire h.progress h.enough)
    ∙ write_all-frames m calls (wire ++ frame c.packet) hs
    ∙ append_assoc wire (frame c.packet) (frames (packets calls))

pub packets-Deliverable :
    (m : ℕ) (calls : List Call) → All (Completes m) calls → All (Deliverable m) (packets calls)
packets-Deliverable m [] h = tt
packets-Deliverable m (c ∷ calls) (h, hs) = (h.deliverable, packets-Deliverable m calls hs)

module _ {ℓ} {S : Type ℓ} (m : ℕ) (rcb : List ℕ → S → Callback S) (ccb : Option (S → S)) where
  on_recv_end : (t : S) → on_recv 8 m rcb ccb ([] ∷ []) t ≡ finish ccb t
  unfolding on_recv on_recv_loop recv_frame read_loop
  on_recv_end t = refl

  -- If every packet is not empty, fits the receiver's buffer and the header, and is written by
  -- Response.Write with kernel writes that make progress and are enough, then the receive loop, on
  -- any cutting of the written stream into segments, hands exactly these packets to the callback,
  -- each once and in order, and then closes the connection (as long as the callback returns).
  pub on_recv-write_all :
      (calls : List Call) (conn : Conn) (s t : S)
      → All (Completes m) calls
      → Delivers m rcb ccb (packets calls) s t
      → flat conn ≡ write_all calls []
      → on_recv 8 m rcb ccb conn s ≡ finish ccb t
  on_recv-write_all calls conn s t h v e =
      on_recv-frames m rcb ccb (packets calls) [] conn s t (packets-Deliverable m calls h) v
        (e ∙ write_all-frames m calls [] h ∙ sym (append-nil (frames (packets calls))))
      ∙ on_recv_end t

  -- On a stream that starts with the frame of a packet that is longer than the receive buffer and
  -- shorter than 128 MiB, the receive loop hands nothing to the callback and closes the connection.
  pub on_recv_oversized :
      (bytes rest : List ℕ) (conn : Conn) (s : S)
      → m < length bytes
      → length bytes < 2 ^ 27
      → flat conn ≡ frame bytes ++ rest
      → on_recv 8 m rcb ccb conn s ≡ finish ccb s
  unfolding on_recv on_recv_loop recv_frame recv_checked recv_body
  on_recv_oversized bytes rest conn s big fits e = rw oversized refl
    where
      d : Deliverable (2 ^ 27) bytes
      d = record { nonempty = omega arith; in_buffer = omega arith; in_header = fits }

      h : Encoded (pos (length bytes))
      h = packet_header (2 ^ 27) bytes d

      body :
          (bytes : List ℕ) (c : Conn)
          → m < length bytes
          → recv_body m (length bytes) c ≡ out_of_range
      body [] c l = absurd (omega arith)
      body (b ∷ bytes) c l = ground arith

      oversized : recv_frame 8 m conn ≡ out_of_range
      oversized =
          let (c, r, f) =
            read_exactly h.read (bytes ++ rest) conn
              (e ∙ ap (λ xs. xs ++ rest) (frame-eq bytes h) ∙ append_assoc h.read bytes rest) in
          let read : read_loop 8 conn ≡ some (h.read, c) = rw h.eight at r in
          let decoded : decoder h.read ≡ ok h.header = rw append-nil at (h.decodes []) in
          rw (read, decoded, h.passes, h.keeps_size) (body bytes c big)
