-- ===== src/Transport/Socket/Framing.antt =====
-- How the stream was cut into segments does not change what the loop does.
use gffg.Prelude.{
  ℕ, zero, suc, ◌+◌, ◌≤◌, ◌<◌, ◌≡◌, ◌≢◌, refl, sym, ap, ◌∙◌, Option, none, some, List, [], ◌∷◌,
  arith, inl, inr, length, leb, Bool-cases, length-append,
}
use gffg.Prelude.Int.{pos_part}
use gffg.Transport.Header.{ok, err, Decoded, decoder, check}
use gffg.Transport.Socket.{
  Conn, read_loop, flat, Frame, packet, skipped, dropped, out_of_range, recv_body, recv_checked,
  recv_frame, body_of, recv_decoded, Callback, returned, panicked, stuck, finish, runtime_error,
  other_value, after_callback, after_frame, on_recv_loop, on_recv,
}
use gffg.Transport.Socket.Reading.{SameFill, both, neither, read_loop-SameFill}
use mathlib.Core.List.{append-nil}

-- Rounds on two streams of the same bytes, when `n` bytes at least are taken.
pub data SameFrame (n : ℕ) (c d : Conn) : Frame → Frame → Type 0 where
  both_packet :
      (bytes : List ℕ) (c' d' : Conn)
      → flat c' ≡ flat d'
      → length (flat c') + n ≤ length (flat c)
      → SameFrame n c d (packet bytes c') (packet bytes d')
  both_skipped :
      (c' d' : Conn)
      → flat c' ≡ flat d'
      → length (flat c') + n ≤ length (flat c)
      → SameFrame n c d (skipped c') (skipped d')
  both_dropped : SameFrame n c d dropped dropped
  both_out : SameFrame n c d out_of_range out_of_range

recv_body-SameFrame :
    (n m size : ℕ) (c d c' d' : Conn)
    → flat c' ≡ flat d'
    → length (flat c') + n ≤ length (flat c)
    → SameFrame n c d (recv_body m size c') (recv_body m size d')
unfolding recv_body
recv_body-SameFrame n m zero c d c' d' e h = both_skipped c' d' e h
recv_body-SameFrame n m (suc size) c d c' d' e h = elim (Bool-cases (leb (suc size) m)) [
  | inl fits ↦ rw fits (go (read_loop-SameFill (suc size) c' d' e))
  | inr wide ↦ rw wide both_out
]
  where
    go :
        SameFill (suc size) c' d'
        → SameFrame n c d (body_of (read_loop (suc size) c')) (body_of (read_loop (suc size) d'))
    go (both bytes c'' d'' e' l ec rc rd) =
        rw (rc, rd)
          (both_packet bytes c'' d'' e'
            (omega (arith, ap length ec, length-append bytes (flat c''))))
    go (neither rc rd) = rw (rc, rd) both_dropped

recv_checked-SameFrame :
    (n m : ℕ) (decoded : Decoded) (c d c' d' : Conn)
    → flat c' ≡ flat d'
    → length (flat c') + n ≤ length (flat c)
    → SameFrame n c d (recv_checked m decoded c') (recv_checked m decoded d')
unfolding recv_checked
recv_checked-SameFrame n m (err e) c d c' d' f h = both_dropped
recv_checked-SameFrame n m (ok header) c d c' d' f h = elim (Bool-cases (check header)) [
  | inl good ↦ rw good (recv_body-SameFrame n m (pos_part header.size) c d c' d' f h)
  | inr bad ↦ rw bad both_dropped
]

pub recv_frame-SameFrame :
    (n m : ℕ) (c d : Conn) → flat c ≡ flat d → SameFrame n c d (recv_frame n m c) (recv_frame n m d)
unfolding recv_frame
recv_frame-SameFrame n m c d e = go (read_loop-SameFill n c d e)
  where
    go :
        SameFill n c d
        → SameFrame n c d (recv_decoded m (read_loop n c)) (recv_decoded m (read_loop n d))
    go (both bytes c' d' e' l ec rc rd) =
        rw (rc, rd)
          (recv_checked-SameFrame n m (decoder bytes) c d c' d' e'
            (omega (arith, ap length ec, length-append bytes (flat c'))))
    go (neither rc rd) = rw (rc, rd) both_dropped

module _ {ℓ} {S : Type ℓ} (n m : ℕ) (rcb : List ℕ → S → Callback S) (ccb : Option (S → S)) where
  on_recv_loop_same :
      (fuel : ℕ) (c d : Conn) (s : S)
      → flat c ≡ flat d
      → on_recv_loop fuel n m rcb ccb c s ≡ on_recv_loop fuel n m rcb ccb d s
  unfolding on_recv_loop
  on_recv_loop_same zero c d s e = refl
  on_recv_loop_same (suc fuel) c d s e =
      go (recv_frame n m c) (recv_frame n m d) (on_recv_loop_same fuel)
        (recv_frame-SameFrame n m c d e)
    where
      called :
          (c' d' : Conn) (r : Callback S)
          → ((t : S) → on_recv_loop fuel n m rcb ccb c' t ≡ on_recv_loop fuel n m rcb ccb d' t)
          → after_callback (on_recv_loop fuel n m rcb ccb) ccb c' r
            ≡ after_callback (on_recv_loop fuel n m rcb ccb) ccb d' r
      called c' d' (returned t) ih = ih t
      called c' d' (panicked p t) ih = refl

      go :
          (f g : Frame)
          → ((c' d' : Conn) (t : S)
              → flat c' ≡ flat d'
              → on_recv_loop fuel n m rcb ccb c' t ≡ on_recv_loop fuel n m rcb ccb d' t)
          → SameFrame n c d f g
          → after_frame (on_recv_loop fuel n m rcb ccb) rcb ccb s f
            ≡ after_frame (on_recv_loop fuel n m rcb ccb) rcb ccb s g
      go f g ih (both_packet bytes c' d' e' h) = called c' d' (rcb bytes s) (λ t. ih c' d' t e')
      go f g ih (both_skipped c' d' e' h) = ih c' d' s e'
      go f g ih both_dropped = refl
      go f g ih both_out = refl

  -- Fuel beyond the length of the stream changes nothing either, as a round takes a byte at least.
  pub on_recv_loop_enough :
      (fuel fuel' : ℕ) (c d : Conn) (s : S)
      → 0 < n
      → length (flat c) < fuel
      → length (flat c) < fuel'
      → flat c ≡ flat d
      → on_recv_loop fuel n m rcb ccb c s ≡ on_recv_loop fuel' n m rcb ccb d s
  unfolding on_recv_loop
  on_recv_loop_enough zero fuel' c d s p h h' e = absurd (omega arith)
  on_recv_loop_enough (suc fuel) zero c d s p h h' e = absurd (omega arith)
  on_recv_loop_enough (suc fuel) (suc fuel') c d s p h h' e =
      go (recv_frame n m c) (recv_frame n m d) (on_recv_loop_enough fuel fuel')
        (recv_frame-SameFrame n m c d e)
    where
      called :
          (c' d' : Conn) (r : Callback S)
          → ((t : S) → on_recv_loop fuel n m rcb ccb c' t ≡ on_recv_loop fuel' n m rcb ccb d' t)
          → after_callback (on_recv_loop fuel n m rcb ccb) ccb c' r
            ≡ after_callback (on_recv_loop fuel' n m rcb ccb) ccb d' r
      called c' d' (returned t) ih = ih t
      called c' d' (panicked p t) ih = refl

      go :
          (f g : Frame)
          → ((c' d' : Conn) (t : S)
              → 0 < n
              → length (flat c') < fuel
              → length (flat c') < fuel'
              → flat c' ≡ flat d'
              → on_recv_loop fuel n m rcb ccb c' t ≡ on_recv_loop fuel' n m rcb ccb d' t)
          → SameFrame n c d f g
          → after_frame (on_recv_loop fuel n m rcb ccb) rcb ccb s f
            ≡ after_frame (on_recv_loop fuel' n m rcb ccb) rcb ccb s g
      go f g ih (both_packet bytes c' d' e' l) =
          called c' d' (rcb bytes s) (λ t. ih c' d' t p (omega arith) (omega arith) e')
      go f g ih (both_skipped c' d' e' l) = ih c' d' s p (omega arith) (omega arith) e'
      go f g ih both_dropped = refl
      go f g ih both_out = refl

  on_recv_loop-ne-stuck :
      (fuel : ℕ) (c : Conn) (s t : S)
      → 0 < n
      → length (flat c) < fuel
      → on_recv_loop fuel n m rcb ccb c s ≢ stuck t
  unfolding on_recv_loop
  on_recv_loop-ne-stuck zero c s t p h e = absurd (omega arith)
  on_recv_loop-ne-stuck (suc fuel) c s t p h e =
      go (recv_frame n m c) (recv_frame n m c) (on_recv_loop-ne-stuck fuel)
        (recv_frame-SameFrame n m c c refl) e
    where
      finished : (o : Option (S → S)) (u : S) → finish o u ≢ stuck t
      finished none u e = cc
      finished (some f) u e = cc

      called :
          (c' : Conn) (r : Callback S)
          → ((u : S) → on_recv_loop fuel n m rcb ccb c' u ≢ stuck t)
          → after_callback (on_recv_loop fuel n m rcb ccb) ccb c' r ≢ stuck t
      called c' (returned u) ih = ih u
      called c' (panicked runtime_error u) ih = finished ccb u
      called c' (panicked other_value u) ih = λ e. cc

      go :
          (f g : Frame)
          → ((c' : Conn) (u t : S)
              → 0 < n
              → length (flat c') < fuel
              → on_recv_loop fuel n m rcb ccb c' u ≢ stuck t)
          → SameFrame n c c f g
          → after_frame (on_recv_loop fuel n m rcb ccb) rcb ccb s f ≢ stuck t
      go f g ih (both_packet bytes c' d' e' l) =
          called c' (rcb bytes s) (λ u. ih c' u t p (omega arith))
      go f g ih (both_skipped c' d' e' l) = ih c' s t p (omega arith)
      go f g ih both_dropped = finished ccb s
      go f g ih both_out = finished ccb s

  -- The receive loop does the same on a stream cut into any segments as on the same bytes in one
  -- segment, for every header size, buffer size and callback.
  pub on_recv-flat :
      (conn : Conn) (s : S) → on_recv n m rcb ccb conn s ≡ on_recv n m rcb ccb (flat conn ∷ []) s
  unfolding on_recv
  on_recv-flat conn s =
      let whole = append-nil (flat conn) in
      on_recv_loop_same (suc (length (flat conn))) conn (flat conn ∷ []) s (sym whole)
      ∙ ap (λ bytes. on_recv_loop (suc (length bytes)) n m rcb ccb (flat conn ∷ []) s) (sym whole)

  -- With a header of one byte at least, the receive loop ends on every stream: its fuel is enough.
  pub on_recv-ne-stuck : (conn : Conn) (s t : S) → 0 < n → on_recv n m rcb ccb conn s ≢ stuck t
  unfolding on_recv
  on_recv-ne-stuck conn s t p =
      on_recv_loop-ne-stuck (suc (length (flat conn))) conn s t p (omega arith)
