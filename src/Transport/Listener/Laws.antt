-- ===== src/Transport/Listener/Laws.antt =====
-- The accept loop, before and after `Close`.
use gffg.Prelude.{ℕ, ◌≡◌, sym, ap, ◌∙◌, List, [], ◌∷◌, ◌++◌, map, true, false}
use gffg.Transport.Listener.{Event, accepted, accept_error, close, looping, returned, block_listen}
use mathlib.Core.List.{append_assoc, append-nil}

-- The connections that are accepted.
abbrev pub connections : List Event → List ℕ
connections [] = []
connections (accepted conn ∷ events) = conn ∷ connections events
connections (accept_error ∷ events) = connections events
connections (close ∷ events) = connections events

-- No `Close` among the events.
abbrev pub IsOpen : List Event → Type 0
IsOpen [] = Unit
IsOpen (accepted conn ∷ events) = IsOpen events
IsOpen (accept_error ∷ events) = IsOpen events
IsOpen (close ∷ events) = ⊥

-- Behind events without a `Close` the loop goes on.
block_listen_open :
    (events rest : List Event) (served : List ℕ)
    → IsOpen events
    → block_listen false served (events ++ rest)
      ≡ block_listen false (served ++ connections events) rest
unfolding block_listen
block_listen_open [] rest served o = ap (λ s. block_listen false s rest) (sym (append-nil served))
block_listen_open (accepted conn ∷ events) rest served o =
    block_listen_open events rest (served ++ conn ∷ []) o
    ∙ ap (λ s. block_listen false s rest) (append_assoc served (conn ∷ []) (connections events))
block_listen_open (accept_error ∷ events) rest served o = block_listen_open events rest served o
block_listen_open (close ∷ events) rest served o = elim o [ ]

-- After a `Close` it serves what is accepted until an accept fails.
block_listen_shutdown :
    (conns served : List ℕ) (rest : List Event)
    → block_listen true served (map accepted conns ++ rest)
      ≡ block_listen true (served ++ conns) rest
unfolding block_listen
block_listen_shutdown [] served rest = ap (λ s. block_listen true s rest) (sym (append-nil served))
block_listen_shutdown (conn ∷ conns) served rest =
    block_listen_shutdown conns (served ++ conn ∷ []) rest
    ∙ ap (λ s. block_listen true s rest) (append_assoc served (conn ∷ []) conns)

-- Until Close the accept loop goes on and serves every connection that is accepted, through failed
-- accepts; after Close it still serves what is accepted, in order, and returns at the next failed
-- accept.
pub block_listen_lem :
    (events : List Event) (late : List ℕ) (rest : List Event)
    → IsOpen events
    → (block_listen false [] events ≡ looping (connections events))
      × (block_listen false [] (events ++ close ∷ map accepted late)
          ≡ looping (connections events ++ late))
      × (block_listen false [] (events ++ close ∷ (map accepted late ++ accept_error ∷ rest))
          ≡ returned (connections events ++ late))
unfolding block_listen
block_listen_lem events late rest o = (
  ap (block_listen false []) (sym (append-nil events)) ∙ block_listen_open events [] [] o,
  block_listen_open events (close ∷ map accepted late) [] o
      ∙ ap (block_listen true (connections events)) (sym (append-nil (map accepted late)))
      ∙ block_listen_shutdown late (connections events) [],
  block_listen_open events (close ∷ (map accepted late ++ accept_error ∷ rest)) [] o
      ∙ block_listen_shutdown late (connections events) (accept_error ∷ rest),
)
