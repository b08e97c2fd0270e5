-- ===== src/Transport/Runs.antt =====
-- Concrete runs of the package transport, and its theorems at concrete inputs.
use gffg.Prelude.{
  ◌⊎◌, ◌≤◌, ℕ, ◌^◌, ◌≡◌, ◌≢◌, refl, arith, true, Option, none, some, List, [], ◌∷◌, ◌++◌,
}
use gffg.Prelude.Int.{pos, negsuc}
use gffg.Transport.Header.{encoder, decoder, err, header2_fail, short_read}
use gffg.Transport.Varint.{zigzag, put_varint}
use gffg.Transport.Header.Laws.{Encoded, Fits, encoder_lem}
use gffg.Transport.Response.{WriteResult, wrote, failed, write, frame}
use gffg.Transport.Response.Laws.{Prefix, write-Prefix}
use gffg.Transport.Socket.{Conn, flat, Callback, returned as called, stuck, closed, on_recv}
use gffg.Transport.Socket.Framing.{on_recv-flat, on_recv-ne-stuck}
use gffg.Transport.Socket.Delivery.{Deliverable}
use gffg.Transport.Link.{Call, write_all, on_recv-write_all, on_recv_oversized}

-- A callback that keeps the packets.
abbrev keep : List ℕ → List (List ℕ) → Callback (List (List ℕ))
keep packet seen = called (seen ++ packet ∷ [])

abbrev closing : Option (List (List ℕ) → List (List ℕ))
closing = some (λ seen. seen ++ [] ∷ [])

abbrev two : List ℕ
two = 1 ∷ 2 ∷ []

abbrev one : List ℕ
one = 7 ∷ []

-- The frames of `two` and `one`, cut inside a header and stuck together.
abbrev cut_up : Conn
cut_up =
    (0 ∷ 0 ∷ 0 ∷ [])
    ∷ (4 ∷ 4 ∷ 0 ∷ 0 ∷ 0 ∷ 1 ∷ 2 ∷ 0 ∷ 0 ∷ [])
    ∷ (0 ∷ 2 ∷ 2 ∷ 0 ∷ 0 ∷ 0 ∷ 7 ∷ [])
    ∷ []

two-Deliverable : Deliverable 1024 two
two-Deliverable = omega arith

one-Deliverable : Deliverable 1024 one
one-Deliverable = omega arith

abbrev ten_writes : List WriteResult
ten_writes =
    wrote 1
    ∷ wrote 3
    ∷ wrote 1
    ∷ wrote 1
    ∷ wrote 1
    ∷ wrote 1
    ∷ wrote 1
    ∷ wrote 1
    ∷ wrote 1
    ∷ wrote 9
    ∷ []

abbrev calls : List Call
calls =
    record { results = ten_writes; packet = two }
    ∷ record { results = ten_writes; packet = one }
    ∷ []

encoder_300 : encoder (pos 300) ≡ some (4 ∷ 0 ∷ 0 ∷ 216 ∷ 216 ∷ 4 ∷ 0 ∷ 0 ∷ [])
unfolding encoder
encoder_300 = refl

-- Four bytes that all ask for more are no size.
decoder_unfinished : decoder (0 ∷ 0 ∷ 0 ∷ 0 ∷ 128 ∷ 128 ∷ 128 ∷ 128 ∷ []) ≡ err header2_fail
unfolding decoder
decoder_unfinished = refl

decoder_short : decoder (0 ∷ 0 ∷ 0 ∷ []) ≡ err short_read
unfolding decoder
decoder_short = refl

encoder_lem_example :
    (Fits (negsuc 4) × Encoded (negsuc 4))
    ⊎ ((2 ^ 28 ≤ zigzag (negsuc 4)) × (encoder (negsuc 4) ≡ none))
encoder_lem_example = encoder_lem (negsuc 4) (omega arith)

-- A size that the header cannot say.
too_long : encoder (pos (2 ^ 27)) ≡ none
unfolding encoder put_varint
too_long = refl

write-Prefix_example :
    Prefix (9 ∷ []) (frame two) 0 (write true (wrote 3 ∷ failed 4 ∷ []) two (9 ∷ []))
write-Prefix_example = write-Prefix 1024 two two-Deliverable (wrote 3 ∷ failed 4 ∷ []) (9 ∷ [])

on_recv-flat_example :
    on_recv 8 1024 keep closing cut_up [] ≡ on_recv 8 1024 keep closing (flat cut_up ∷ []) []
on_recv-flat_example = on_recv-flat 8 1024 keep closing cut_up []

on_recv-ne-stuck_example : on_recv 8 1024 keep closing cut_up [] ≢ stuck []
on_recv-ne-stuck_example = on_recv-ne-stuck 8 1024 keep closing cut_up [] [] (omega arith)

on_recv-write_all_example : on_recv 8 1024 keep closing cut_up [] ≡ closed (two ∷ one ∷ [] ∷ [])
unfolding write_all write encoder
on_recv-write_all_example =
    on_recv-write_all 1024 keep closing calls cut_up [] (two ∷ one ∷ []) (omega arith)
      (two ∷ [], refl, (two ∷ one ∷ [], refl, refl)) refl

-- A buffer of one byte, and a packet of two.
on_recv_oversized_example : on_recv 8 1 keep closing cut_up [] ≡ closed ([] ∷ [])
unfolding encoder
on_recv_oversized_example =
    on_recv_oversized 1 keep closing two (0 ∷ 0 ∷ 0 ∷ 2 ∷ 2 ∷ 0 ∷ 0 ∷ 0 ∷ 7 ∷ []) cut_up []
      (omega arith) (omega arith) refl
