-- ===== src/Transport/Socket/Delivery.antt =====
-- Packets written by `Response.Write` and cut anyhow reach the callback, each once and in order.
use gffg.Prelude.{
  ℕ, zero, suc, ◌+◌, ◌^◌, ◌≤◌, ◌<◌, ◌≡◌, refl, sym, ap, ◌∙◌, Option, some, List, [], ◌∷◌, ◌++◌,
  arith, length, le→leb, length-append, append_injective, All,
}
use gffg.Prelude.Int.{pos}
use gffg.Transport.Header.{ok, decoder}
use gffg.Transport.Header.Laws.{Encoded, encoder-Encoded}
use gffg.Transport.Response.{frame, frames}
use gffg.Transport.Socket.{
  Conn, read_loop, flat, packet, dropped, recv_body, recv_checked, recv_frame, recv_decoded,
  Callback, returned, finish, on_recv_loop, on_recv,
}
use gffg.Transport.Socket.Reading.{Fill, full, short, read_loop_cases}
use gffg.Transport.Socket.Framing.{on_recv_loop_enough}
use mathlib.Core.List.{append-nil, append_assoc}

-- A packet that the receiver takes: not empty, and within its buffer, and within what the header can say.
pub record Deliverable (m : ℕ) (bytes : List ℕ) : Type 0 where
  pub nonempty : 0 < length bytes
  pub in_buffer : length bytes ≤ m
  pub in_header : length bytes < 2 ^ 27

pub packet_header : (m : ℕ) (bytes : List ℕ) → Deliverable m bytes → Encoded (pos (length bytes))
packet_header m bytes d =
    encoder-Encoded (pos (length bytes)) (omega (arith, d.in_header)) (omega (arith, d.in_header))

pub frame-eq : (bytes : List ℕ) (h : Encoded (pos (length bytes))) → frame bytes ≡ h.read ++ bytes
frame-eq bytes h = rw (h.encodes, frame) refl

pub read_exactly :
    (xs ys : List ℕ) (conn : Conn)
    → flat conn ≡ xs ++ ys
    → (conn' : Conn) × (read_loop (length xs) conn ≡ some (xs, conn')) × (flat conn' ≡ ys)
read_exactly xs ys conn e = go (read_loop_cases (length xs) conn)
  where
    go :
        Fill (length xs) conn
        → (conn' : Conn) × (read_loop (length xs) conn ≡ some (xs, conn')) × (flat conn' ≡ ys)
    go (full zs conn' l f r) =
        let same = append_injective zs xs (flat conn') ys l (sym f ∙ e) in
        (conn', r ∙ ap (λ ws. some (ws, conn')) same.0, same.1)
    go (short l r) = absurd (omega (arith, ap length e, length-append xs ys))

recv_body-exactly :
    (m : ℕ) (bytes rest : List ℕ) (conn : Conn)
    → Deliverable m bytes
    → flat conn ≡ bytes ++ rest
    → (conn' : Conn) × (recv_body m (length bytes) conn ≡ packet bytes conn') × (flat conn' ≡ rest)
unfolding recv_body
recv_body-exactly m [] rest conn d e = absurd (omega (arith, d.nonempty))
recv_body-exactly m (b ∷ bytes) rest conn d e =
    let (conn', r, f) = read_exactly (b ∷ bytes) rest conn e in
    (conn', rw (le→leb _ _ d.in_buffer, r) refl, f)

-- One round on a stream that starts with a frame.
pub recv_frame-frame :
    (m : ℕ) (bytes rest : List ℕ) (conn : Conn)
    → Deliverable m bytes
    → flat conn ≡ frame bytes ++ rest
    → (conn' : Conn) × (recv_frame 8 m conn ≡ packet bytes conn') × (flat conn' ≡ rest)
unfolding recv_frame recv_checked
recv_frame-frame m bytes rest conn d e =
    let h = packet_header m bytes d in
    let (c, r, f) =
      read_exactly h.read (bytes ++ rest) conn
        (e ∙ ap (λ xs. xs ++ rest) (frame-eq bytes h) ∙ append_assoc h.read bytes rest) in
    let (c', b, g) = recv_body-exactly m bytes rest c d f in
    let read : read_loop 8 conn ≡ some (h.read, c) = rw h.eight at r in
    let decoded : decoder h.read ≡ ok h.header = rw append-nil at (h.decodes []) in
    (c', rw (read, decoded, h.passes, h.keeps_size) b, g)

pub length-frame :
    (m : ℕ) (bytes : List ℕ) → Deliverable m bytes → length (frame bytes) ≡ 8 + length bytes
length-frame m bytes d =
    let h = packet_header m bytes d in
    omega (arith, ap length (frame-eq bytes h), length-append h.read bytes, h.eight)

-- A stream that ends before the frame does.
recv_body_short :
    (m : ℕ) (bytes : List ℕ) (conn : Conn)
    → Deliverable m bytes
    → length (flat conn) < length bytes
    → recv_body m (length bytes) conn ≡ dropped
unfolding recv_body
recv_body_short m [] conn d h = absurd (omega arith)
recv_body_short m (b ∷ bytes) conn d h = go (read_loop_cases (length (b ∷ bytes)) conn)
  where
    go : Fill (length (b ∷ bytes)) conn → recv_body m (length (b ∷ bytes)) conn ≡ dropped
    go (full xs c l e r) = absurd (omega (arith, ap length e, length-append xs (flat c)))
    go (short l r) = rw (le→leb _ _ d.in_buffer, r) refl

recv_frame_cut :
    (m : ℕ) (bytes front missing : List ℕ) (conn : Conn)
    → Deliverable m bytes
    → frame bytes ≡ front ++ missing
    → 0 < length missing
    → flat conn ≡ front
    → recv_frame 8 m conn ≡ dropped
unfolding recv_frame recv_checked
recv_frame_cut m bytes front missing conn d e p f = go (read_loop_cases 8 conn)
  where
    h : Encoded (pos (length bytes))
    h = packet_header m bytes d

    whole : h.read ++ bytes ≡ flat conn ++ missing
    whole = sym (frame-eq bytes h) ∙ e ∙ ap (λ xs. xs ++ missing) (sym f)

    go : Fill 8 conn → recv_decoded m (read_loop 8 conn) ≡ dropped
    go (short l r) = rw r refl
    go (full xs c l x r) =
        let split = whole ∙ ap (λ ys. ys ++ missing) x ∙ append_assoc xs (flat c) missing in
        let same = append_injective h.read xs bytes (flat c ++ missing) (h.eight ∙ sym l) split in
        let decoded : decoder h.read ≡ ok h.header = rw append-nil at (h.decodes []) in
        let read : read_loop 8 conn ≡ some (h.read, c) = r ∙ ap (λ ys. some (ys, c)) (sym same.0) in
        let less : length (flat c) < length bytes =
          omega (arith, p, ap length same.1, length-append (flat c) missing) in
        rw (read, decoded, h.passes, h.keeps_size) (recv_body_short m bytes c d less)

module _ {ℓ} {S : Type ℓ} (m : ℕ) (rcb : List ℕ → S → Callback S) (ccb : Option (S → S)) where
  -- The callback on one packet after another, as long as it returns.
  abbrev pub Delivers : List (List ℕ) → S → S → Type ℓ
  Delivers [] s t = s ≡ t
  Delivers (bytes ∷ packets) s t = (u : S) × (rcb bytes s ≡ returned u) × Delivers packets u t

  delivered_step :
      (fuel : ℕ) (bytes : List ℕ) (conn conn' : Conn) (s u : S)
      → recv_frame 8 m conn ≡ packet bytes conn'
      → rcb bytes s ≡ returned u
      → on_recv_loop (suc fuel) 8 m rcb ccb conn s ≡ on_recv_loop fuel 8 m rcb ccb conn' u
  unfolding on_recv_loop
  delivered_step fuel bytes conn conn' s u r v = rw (r, v) refl

  frames_loop :
      (packets : List (List ℕ)) (rest : List ℕ) (fuel fuel' : ℕ) (conn : Conn) (s t : S)
      → All (Deliverable m) packets
      → Delivers packets s t
      → flat conn ≡ frames packets ++ rest
      → length (flat conn) < fuel
      → length rest < fuel'
      → on_recv_loop fuel 8 m rcb ccb conn s ≡ on_recv_loop fuel' 8 m rcb ccb (rest ∷ []) t
  frames_loop [] rest fuel fuel' conn s t d v e h h' =
      on_recv_loop_enough 8 m rcb ccb fuel fuel' conn (rest ∷ []) s (omega arith) h
        (omega (arith, ap length e)) (e ∙ sym (append-nil rest))
      ∙ ap (on_recv_loop fuel' 8 m rcb ccb (rest ∷ [])) v
  frames_loop (bytes ∷ packets) rest zero fuel' conn s t d v e h h' = absurd (omega arith)
  frames_loop (bytes ∷ packets) rest (suc fuel) fuel' conn s t d (u, r, v) e h h' =
      let e' = e ∙ append_assoc (frame bytes) (frames packets) rest in
      let (conn', f, g) = recv_frame-frame m bytes (frames packets ++ rest) conn d.0 e' in
      let shorter : length (flat conn') < fuel = omega (
        arith,
        h,
        ap length e',
        length-append (frame bytes) (frames packets ++ rest),
        ap length g,
        length-frame m bytes d.0,
      ) in
      delivered_step fuel bytes conn conn' s u f r
      ∙ frames_loop packets rest fuel fuel' conn' u t d.1 v g shorter h'

  -- On a stream that starts with the frames of deliverable packets and goes on with any bytes, the
  -- receive loop does what it does on those bytes alone, from the state in which the callback has
  -- had these packets in order.
  pub on_recv-frames :
      (packets : List (List ℕ)) (rest : List ℕ) (conn : Conn) (s t : S)
      → All (Deliverable m) packets
      → Delivers packets s t
      → flat conn ≡ frames packets ++ rest
      → on_recv 8 m rcb ccb conn s ≡ on_recv 8 m rcb ccb (rest ∷ []) t
  unfolding on_recv
  on_recv-frames packets rest conn s t d v e =
      frames_loop packets rest (suc (length (flat conn))) (suc (length (rest ++ []))) conn s t d v e
        (omega arith) (omega (arith, length-append rest []))

  -- The stream ends inside a frame: nothing of that packet is delivered.
  pub on_recv_cut :
      (bytes front missing : List ℕ) (conn : Conn) (s : S)
      → Deliverable m bytes
      → frame bytes ≡ front ++ missing
      → 0 < length missing
      → flat conn ≡ front
      → on_recv 8 m rcb ccb conn s ≡ finish ccb s
  unfolding on_recv on_recv_loop
  on_recv_cut bytes front missing conn s d e p f =
      rw (recv_frame_cut m bytes front missing conn d e p f) refl

  -- On a stream of whole frames that ends inside one more frame, the callback gets the whole
  -- packets only, and then the connection is closed.
  pub on_recv-frames_cut :
      (packets : List (List ℕ)) (bytes front missing : List ℕ) (conn : Conn) (s t : S)
      → All (Deliverable m) packets
      → Delivers packets s t
      → Deliverable m bytes
      → frame bytes ≡ front ++ missing
      → 0 < length missing
      → flat conn ≡ frames packets ++ front
      → on_recv 8 m rcb ccb conn s ≡ finish ccb t
  on_recv-frames_cut packets bytes front missing conn s t d v b e p f =
      on_recv-frames packets front conn s t d v f
      ∙ on_recv_cut bytes front missing (front ∷ []) t b e p (append-nil front)
