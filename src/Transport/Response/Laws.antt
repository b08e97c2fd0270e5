-- ===== src/Transport/Response/Laws.antt =====
-- What `Response.Write` leaves on the connection.
use gffg.Prelude.{
  ℕ, ◌+◌, ◌^◌, ◌≤◌, ◌<◌, ◌≡◌, refl, sym, ap, ◌∙◌, List, [], ◌∷◌, ◌++◌, arith, length, take, drop,
  min, length-append, length-drop, take-append-drop, true, false, All,
}
use gffg.Prelude.Int.{pos}
use gffg.Transport.Header.Laws.{encoder_panics}
use gffg.Transport.Response.{
  WriteResult, wrote, failed, WriteOutcome, returned, blocked, panicked, write_loop, write, frame,
}
use gffg.Transport.Socket.Delivery.{Deliverable, packet_header}
use mathlib.Core.List.{append-nil, append_assoc}

-- All bytes that a call has put on the connection.
abbrev pub sent : WriteOutcome → List ℕ
sent (returned n failure wire) = wire
sent (blocked n wire) = wire
sent (panicked wire) = wire

-- A write that makes progress, and reports no error.
abbrev pub Progress : WriteResult → Type 0
Progress (wrote k) = 0 < k
Progress (failed k) = ⊥

chunk_regroup :
    (k : ℕ) (bytes wire : List ℕ) → (wire ++ take k bytes) ++ drop k bytes ≡ wire ++ bytes
chunk_regroup k bytes wire =
    append_assoc wire (take k bytes) (drop k bytes)
    ∙ ap (λ xs. wire ++ xs) (take-append-drop k bytes)

pub write_loop_completes :
    (results : List WriteResult) (bytes : List ℕ) (n : ℕ) (wire : List ℕ)
    → All Progress results
    → length bytes ≤ length results
    → write_loop results bytes n wire ≡ returned (n + length bytes) false (wire ++ bytes)
unfolding write_loop
write_loop_completes results [] n wire p h =
    ap (λ k. returned k false wire) (omega arith)
    ∙ ap (returned (n + 0) false) (sym (append-nil wire))
write_loop_completes [] (b ∷ rest) n wire p h = absurd (omega arith)
write_loop_completes (failed k ∷ results) (b ∷ rest) n wire p h = absurd p.0
write_loop_completes (wrote k ∷ results) (b ∷ rest) n wire p h =
    write_loop_completes results (drop k (b ∷ rest)) _ _ p.1
      (omega (arith, length-drop k (b ∷ rest), p.0))
    ∙ ap (λ j. returned j false ((wire ++ take k (b ∷ rest)) ++ drop k (b ∷ rest)))
        (omega (arith, length-drop k (b ∷ rest)))
    ∙ ap (returned (n + length (b ∷ rest)) false) (chunk_regroup k (b ∷ rest) wire)

-- Whatever the writes do, the connection has got a prefix of the frame, and if the call returns
-- without an error it has got all of it.
pub data Prefix (wire bytes : List ℕ) (n : ℕ) : WriteOutcome → Type 0 where
  complete :
      (out : List ℕ) (k : ℕ)
      → k ≡ n + length bytes
      → out ≡ wire ++ bytes
      → Prefix wire bytes n (returned k false out)
  partial :
      (out missing : List ℕ) (k : ℕ)
      → k ≤ n + length bytes
      → out ++ missing ≡ wire ++ bytes
      → Prefix wire bytes n (returned k true out)
  waiting :
      (out missing : List ℕ) (k : ℕ)
      → k + length missing ≡ n + length bytes
      → 0 < length missing
      → out ++ missing ≡ wire ++ bytes
      → Prefix wire bytes n (blocked k out)

Prefix-regroup :
    {wire wire' bytes bytes' : List ℕ} {n n' : ℕ} {o : WriteOutcome}
    → n' + length bytes' ≡ n + length bytes
    → wire' ++ bytes' ≡ wire ++ bytes
    → Prefix wire' bytes' n' o
    → Prefix wire bytes n o
Prefix-regroup l e (complete out k h f) = complete out k (h ∙ l) (f ∙ e)
Prefix-regroup l e (partial out missing k h f) = partial out missing k (omega (arith, h, l)) (f ∙ e)
Prefix-regroup l e (waiting out missing k h p f) = waiting out missing k (h ∙ l) p (f ∙ e)

pub write_loop-Prefix :
    (results : List WriteResult) (bytes : List ℕ) (n : ℕ) (wire : List ℕ)
    → Prefix wire bytes n (write_loop results bytes n wire)
unfolding write_loop
write_loop-Prefix results [] n wire = complete wire n (omega arith) (sym (append-nil wire))
write_loop-Prefix [] (b ∷ rest) n wire = waiting wire (b ∷ rest) n refl (omega arith) refl
write_loop-Prefix (failed k ∷ results) (b ∷ rest) n wire =
    partial (wire ++ take k (b ∷ rest)) (drop k (b ∷ rest)) n (omega arith)
      (chunk_regroup k (b ∷ rest) wire)
write_loop-Prefix (wrote k ∷ results) (b ∷ rest) n wire =
    Prefix-regroup (omega (arith, length-drop k (b ∷ rest))) (chunk_regroup k (b ∷ rest) wire) (
      write_loop-Prefix results (drop k (b ∷ rest)) (n + min k (length (b ∷ rest)))
        (wire ++ take k (b ∷ rest)))

module _ (m : ℕ) (packet : List ℕ) (d : Deliverable m packet) (results : List WriteResult)
    (wire : List ℕ) where
  -- Whatever the kernel's writes do, Response.Write of a deliverable packet has sent a prefix of
  -- the frame: all of it with the count of its bytes if it returns nil, and a proper prefix while
  -- it waits.
  pub write-Prefix : Prefix wire (frame packet) 0 (write true results packet wire)
  unfolding write
  write-Prefix = go packet d
    where
      go :
          (packet : List ℕ)
          → Deliverable m packet
          → Prefix wire (frame packet) 0 (write true results packet wire)
      go [] d = absurd (omega (arith, d.nonempty))
      go (b ∷ rest) d =
          let h = packet_header m (b ∷ rest) d in
          rw (h.encodes, frame) (write_loop-Prefix results (h.read ++ (b ∷ rest)) 0 wire)

  -- If every kernel write makes progress without an error and there are as many of them as bytes in
  -- the frame, Response.Write returns the number of bytes of the frame and nil, and the frame is on
  -- the wire behind what was there.
  pub write_completes :
      All Progress results
      → 8 + length packet ≤ length results
      → write true results packet wire ≡ returned (8 + length packet) false (wire ++ frame packet)
  unfolding write
  write_completes p h = go packet d h
    where
      go :
          (packet : List ℕ)
          → Deliverable m packet
          → 8 + length packet ≤ length results
          → write true results packet wire
            ≡ returned (8 + length packet) false (wire ++ frame packet)
      go [] d h = absurd (omega (arith, d.nonempty))
      go (b ∷ rest) d h =
          let e = packet_header m (b ∷ rest) d in
          let total : length (e.read ++ (b ∷ rest)) ≡ 8 + length (b ∷ rest) =
            omega (arith, length-append e.read (b ∷ rest), e.eight) in
          rw (e.encodes, frame)
            (write_loop_completes results (e.read ++ (b ∷ rest)) 0 wire p (omega arith)
              ∙ ap (λ n. returned n false (wire ++ (e.read ++ (b ∷ rest)))) (omega arith))

-- A packet of 128 MiB or more panics in the header, before anything is sent.
pub write_panics :
    (results : List WriteResult) (packet wire : List ℕ)
    → 2 ^ 27 ≤ length packet
    → length packet < 2 ^ 63
    → write true results packet wire ≡ panicked wire
unfolding write
write_panics results [] wire h k = absurd (omega arith)
write_panics results (b ∷ rest) wire h k =
    rw (encoder_panics (pos (length (b ∷ rest))) (omega (arith, h, k))) refl
