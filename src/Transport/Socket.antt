-- ===== src/Transport/Socket.antt =====
-- transport/socket.go: the receive loop `Socket.onRecv`. The connection is the list of the segments
-- that arrive, in order and of any size; after the last one every read fails (io.EOF, a reset or the
-- deadline: the loop treats them alike). The callbacks act on a state of any type.
pub mod Reading
pub mod Framing
pub mod Delivery
use gffg.Prelude.{
  ℕ, zero, suc, ◌+◌, ◌-◌, ◌^◌, Option, none, some, List, [], ◌∷◌, ◌++◌, if◌then◌else◌, Bool, true,
  false, length, take, drop, leb, ltb, ◌==◌,
}
use gffg.Prelude.Int.{ℤ, pos, negsuc, pos_part}
use gffg.Transport.Header.{Header, Decoded, ok, err, decoder, check}

abbrev pub default_header_size : ℕ
default_header_size = 8

abbrev pub default_max_message_size : ℕ
default_max_message_size = 2 ^ 20

abbrev pub Conn : Type 0
Conn = List (List ℕ)

abbrev before : List ℕ → Option (List ℕ × Conn) → Option (List ℕ × Conn)
before bytes none = none
before bytes (some (more, conn)) = some (bytes ++ more, conn)

-- `for total < size { n, err := conn.Read(buffer[total:]); if err != nil { return }; total += n }`,
-- with `size - total` bytes to go. One Read takes what fits from the first segment, and leaves the
-- rest of it for the next Read.
unfoldable pub read_loop : ℕ → Conn → Option (List ℕ × Conn)
read_loop zero conn = some ([], conn)
read_loop (suc n) [] = none
read_loop (suc n) (segment ∷ conn) =
    let rest = before segment (read_loop (suc n - length segment) conn) in
    if leb (length segment) (suc n)
    then rest
    else some (take (suc n) segment, drop (suc n) segment ∷ conn)

-- What one round of the loop comes to: a packet for the callback, `continue` on an empty body,
-- `return` on an error, or the panic of `dataBuffer[total:iMsgLength]` beyond the buffer.
pub data Frame : Type 0 where
  packet : List ℕ → Conn → Frame
  skipped : Conn → Frame
  dropped : Frame
  out_of_range : Frame

abbrev body_of : Option (List ℕ × Conn) → Frame
body_of none = dropped
body_of (some (bytes, conn)) = packet bytes conn

unfoldable pub recv_body : ℕ → ℕ → Conn → Frame
unfolding read_loop
recv_body max_message_size zero conn = skipped conn
recv_body max_message_size (suc n) conn =
    if leb (suc n) max_message_size then body_of (read_loop (suc n) conn) else out_of_range

unfoldable pub recv_checked : ℕ → Decoded → Conn → Frame
unfolding recv_body
recv_checked max_message_size (err e) conn = dropped
recv_checked max_message_size (ok header) conn =
    if check header then recv_body max_message_size (pos_part header.size) conn else dropped

abbrev recv_decoded : ℕ → Option (List ℕ × Conn) → Frame
recv_decoded max_message_size none = dropped
recv_decoded max_message_size (some (header_buffer, conn)) =
    recv_checked max_message_size (decoder header_buffer) conn

unfoldable pub recv_frame : ℕ → ℕ → Conn → Frame
unfolding recv_checked
recv_frame header_byte_size max_message_size conn =
    recv_decoded max_message_size (read_loop header_byte_size conn)

-- A panic value is an `error`, as the runtime's own are, or not.
pub data Panic : Type 0 where
  runtime_error other_value : Panic

-- How the callback `rcb` ends; the error it may return is only logged.
pub data Callback {ℓ} (S : Type ℓ) : Type ℓ where
  returned : S → Callback S
  panicked : Panic → S → Callback S

-- `closed`: the connection is closed and `ccb` has run. `crashed`: the deferred function panics
-- itself, in `err.(error)`. `stuck` is no outcome of the code: the fuel of the loop ran out.
pub data Outcome {ℓ} (S : Type ℓ) : Type ℓ where
  closed : S → Outcome S
  crashed : S → Outcome S
  stuck : S → Outcome S

module _ {ℓ} {S : Type ℓ} where
  -- The deferred function, after `return`.
  abbrev pub finish : Option (S → S) → S → Outcome S
  finish none s = closed s
  finish (some ccb) s = closed (ccb s)

  -- The deferred function, after a panic.
  abbrev pub recover : Option (S → S) → Panic → S → Outcome S
  recover ccb runtime_error s = finish ccb s
  recover ccb other_value s = crashed s

  abbrev pub after_callback :
      (Conn → S → Outcome S) → Option (S → S) → Conn → Callback S → Outcome S
  after_callback loop ccb conn (returned s) = loop conn s
  after_callback loop ccb conn (panicked p s) = recover ccb p s

  abbrev pub after_frame :
      (Conn → S → Outcome S) → (List ℕ → S → Callback S) → Option (S → S) → S → Frame → Outcome S
  after_frame loop rcb ccb s (packet bytes conn) = after_callback loop ccb conn (rcb bytes s)
  after_frame loop rcb ccb s (skipped conn) = loop conn s
  after_frame loop rcb ccb s dropped = finish ccb s
  after_frame loop rcb ccb s out_of_range = recover ccb runtime_error s

  unfoldable pub on_recv_loop :
      ℕ → ℕ → ℕ → (List ℕ → S → Callback S) → Option (S → S) → Conn → S → Outcome S
  on_recv_loop zero h m rcb ccb conn s = stuck s
  on_recv_loop (suc fuel) h m rcb ccb conn s =
      after_frame (on_recv_loop fuel h m rcb ccb) rcb ccb s (recv_frame h m conn)

-- The bytes of the stream, whatever its segments.
abbrev pub flat : Conn → List ℕ
flat [] = []
flat (segment ∷ conn) = segment ++ flat conn

-- Each round that does not end the loop takes a header from the stream, so this fuel is enough.
unfoldable pub on_recv {ℓ} :
    {S : Type ℓ} → ℕ → ℕ → (List ℕ → S → Callback S) → Option (S → S) → Conn → S → Outcome S
unfolding on_recv_loop
on_recv h m rcb ccb conn s = on_recv_loop (suc (length (flat conn))) h m rcb ccb conn s

-- `Socket.Handle`: the loop with the default sizes.
unfoldable pub handle {ℓ} :
    {S : Type ℓ} → (List ℕ → S → Callback S) → Option (S → S) → Conn → S → Outcome S
unfolding on_recv
handle rcb ccb conn s = on_recv default_header_size default_max_message_size rcb ccb conn s
