-- ===== src/Transport/Response.antt =====
-- transport/response.go: `Response.Write` sends a packet behind its header. What the kernel does with
-- each `TCPConn.Write` is an argument, the list of the results in order.
pub mod Laws
use gffg.Prelude.{
  ℕ, zero, suc, ◌+◌, Option, none, some, List, [], ◌∷◌, ◌++◌, if◌then◌else◌, Bool, true, false,
  length, take, drop, min,
}
use gffg.Prelude.Int.{pos}
use gffg.Transport.Header.{encoder}

-- One `TCPConn.Write`: the first `k` bytes of its argument go out, and the error is nil or not.
pub data WriteResult : Type 0 where
  wrote : ℕ → WriteResult
  failed : ℕ → WriteResult

-- `returned n err wire`: the results, an error or not, and all bytes sent on the connection so far.
-- `blocked`: the list of results ended first, so the call is still waiting. `panicked`: see `encoder`.
pub data WriteOutcome : Type 0 where
  returned : ℕ → Bool → List ℕ → WriteOutcome
  blocked : ℕ → List ℕ → WriteOutcome
  panicked : List ℕ → WriteOutcome

-- `for n < toWriteLen && err == nil`. The list of bytes is `toWrite[n:]`.
pub write_loop : List WriteResult → List ℕ → ℕ → List ℕ → WriteOutcome
write_loop results [] n wire = returned n false wire
write_loop [] (b ∷ rest) n wire = blocked n wire
write_loop (wrote k ∷ results) (b ∷ rest) n wire =
    write_loop results (drop k (b ∷ rest)) (n + min k (length (b ∷ rest)))
      (wire ++ take k (b ∷ rest))
write_loop (failed k ∷ results) (b ∷ rest) n wire = returned n true (wire ++ take k (b ∷ rest))

write_framed : List WriteResult → List ℕ → List ℕ → Option (List ℕ) → WriteOutcome
unfolding write_loop
write_framed results packet wire none = panicked wire
write_framed results packet wire (some msg_header) =
    write_loop results (msg_header ++ packet) 0 wire

-- `Response.Write`; `connected` is `nil != r.TCPConn`.
unfoldable pub write : Bool → List WriteResult → List ℕ → List ℕ → WriteOutcome
unfolding write_framed
write connected results [] wire = returned 0 false wire
write false results (b ∷ packet) wire = returned 0 false wire
write true results (b ∷ packet) wire =
    write_framed results (b ∷ packet) wire (encoder (pos (length (b ∷ packet))))

-- A packet behind its header: what a completed `Response.Write` sends.
abbrev pub frame : List ℕ → List ℕ
frame packet = elim (encoder (pos (length packet))) [
  | none ↦ []
  | some msg_header ↦ msg_header ++ packet
]

abbrev pub frames : List (List ℕ) → List ℕ
frames [] = []
frames (packet ∷ packets) = frame packet ++ frames packets
