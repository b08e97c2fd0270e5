-- ===== src/Server/Race/Laws.antt =====
-- What the ten places that `onRecv` keeps free are enough for.
use gffg.Prelude.{
  All, ◌≢◌, ℕ, zero, suc, ◌+◌, ◌≡◌, ◌≤◌, refl, ap, arith, List, [], ◌∷◌, ◌++◌, length,
  length-append, ltb, false,
}
use gffg.Prelude.Text.{Text}
use gffg.Proto.{Codec}
use gffg.Server.Handle.{Limit}
use gffg.Server.Queue.{RequestChannel, Server}
use gffg.Server.Queue.Laws.{on_recv_full, take_fifo}
use gffg.Server.Race.{Racing, Step, pass, turn_away, send, take, Reach, here, next, Blocks}

-- Every request that is past the test has a place.
abbrev HasRoom : Racing → Type 0
HasRoom t = length t.server.req_ch + length t.sending ≤ t.server.channels

module _ (codec : Codec) (limiter : Text → Limit) (conns : ℕ) where
  Step-HasRoom : {t u : Racing} → conns ≤ 10 → Step codec limiter conns t u → HasRoom t → HasRoom u
  Step-HasRoom {t} few (pass conn packet takes below room) h = omega (
    arith,
    length-append t.sending (record { conn = conn; packet = packet } ∷ []),
    room_of _ _ room,
  )
    where
      room_of : (a b : ℕ) → ltb a b ≡ false → b ≤ a
      room_of a b e = ground arith
  Step-HasRoom {t} few (turn_away conn packet takes full) h =
      let same = on_recv_full codec limiter conn packet t.server full in
      omega (arith, h, ap length same.0, same.1)
  Step-HasRoom {t} few (send before req after e room) h = omega (
    arith,
    h,
    ap length e,
    length-append before (req ∷ after),
    length-append before after,
    length-append t.server.req_ch (req ∷ []),
  )
  Step-HasRoom {t} few take h =
      let same = take_fifo codec limiter t.server in omega (arith, h, same.0, same.1)

  Reach-HasRoom :
      {s t : Racing} → conns ≤ 10 → Reach codec limiter conns s t → HasRoom s → HasRoom t
  Reach-HasRoom few here h = h
  Reach-HasRoom few (next r st) h = Step-HasRoom few st (Reach-HasRoom few r h)

  -- With at most ten connections no receive loop of a server ever waits for room in the channel,
  -- however the tests and the sends of onRecv and the workers interleave.
  pub never_waits :
      (s : Server) (t : Racing)
      → conns ≤ 10
      → length s.req_ch ≤ s.channels
      → Reach codec limiter conns (record { server = s; sending = [] }) t
      → ¬ Blocks t
  never_waits s t few h r =
      λ w. absurd (omega (arith, w.0, w.1, Reach-HasRoom few r (omega (arith, h))))

  then_step :
      {s t u : Racing}
      → Step codec limiter conns s t
      → Reach codec limiter conns t u
      → Reach codec limiter conns s u
  then_step st here = next here st
  then_step st (next r st') = next (then_step st r) st'

  both :
      {a b c : Racing}
      → Reach codec limiter conns a b
      → Reach codec limiter conns b c
      → Reach codec limiter conns a c
  both r here = r
  both r (next r' st) = next (both r r') st

  -- The channel after these requests have been sent.
  abbrev filled : List RequestChannel → List RequestChannel → List RequestChannel
  filled q [] = q
  filled q (r ∷ rs) = filled (q ++ r ∷ []) rs

  length-filled : (q rs : List RequestChannel) → length (filled q rs) ≡ length q + length rs
  length-filled q [] = omega arith
  length-filled q (r ∷ rs) = omega (arith, length-filled (q ++ r ∷ []) rs, length-append q (r ∷ []))

  all_append :
      (conn : ℕ) (xs : List RequestChannel) (x : RequestChannel)
      → All (λ q. q.conn ≢ conn) xs
      → x.conn ≢ conn
      → All (λ q. q.conn ≢ conn) (xs ++ x ∷ [])
  all_append conn [] x h ne = (ne, tt)
  all_append conn (y ∷ xs) x (n, h) ne = (n, all_append conn xs x h ne)

  module _ (s : Server) (packet : Text) (some_bytes : packet ≢ []) where
    abbrev req : ℕ → RequestChannel
    req conn = record { conn = conn; packet = packet }

    -- One request of each of the first connections.
    abbrev firsts : ℕ → List RequestChannel
    firsts zero = []
    firsts (suc k) = firsts k ++ req k ∷ []

    length-firsts : (k : ℕ) → length (firsts k) ≡ k
    length-firsts zero = refl
    length-firsts (suc k) = omega (arith, length-append (firsts k) (req k ∷ []), length-firsts k)

    others : (conn k : ℕ) → k ≤ conn → All (λ q. q.conn ≢ conn) (firsts k)
    others conn zero h = tt
    others conn (suc k) h =
        all_append conn (firsts k) (req k) (others conn k (omega (arith, h)))
          (λ e. absurd (omega (arith, h, e)))

    passed :
        (k : ℕ)
        → k ≤ conns
        → ltb s.channels (length s.req_ch + 10) ≡ false
        → Reach codec limiter conns
            (record { server = s; sending = [] })
            (record { server = s; sending = firsts k })
    passed zero h room = here
    passed (suc k) h room = next (passed k (omega (arith, h)) room) (
        pass k packet
          (record {
            known = omega (arith, h);
            free = others k k (omega arith);
            some_bytes = some_bytes;
          })
          (omega (arith, h, length-firsts k)) room)

    sent :
        (xs rest q : List RequestChannel)
        → length q + length xs ≤ s.channels
        → Reach codec limiter conns
            (record { server = record s { req_ch = q }; sending = xs ++ rest })
            (record { server = record s { req_ch = filled q xs }; sending = rest })
    sent [] rest q h = here
    sent (x ∷ xs) rest q h =
        then_step (send [] x (xs ++ rest) refl (omega (arith, h)))
          (sent xs rest (q ++ x ∷ []) (omega (arith, h, length-append q (x ∷ []))))

    -- With eleven connections or more, and ten free places in the channel, receive loops of
    -- different connections, each with the same packet, which is not empty, can reach a state in
    -- which the channel is full and one of them, which has passed the test, waits for room.
    pub waits_reachable :
        11 ≤ conns
        → length s.req_ch + 10 ≡ s.channels
        → (t : Racing) × Reach codec limiter conns (record { server = s; sending = [] }) t
          × Blocks t
    waits_reachable many_conns e = (
      record { server = record s { req_ch = filled s.req_ch (firsts 10) }; sending = req 10 ∷ [] },
      both (passed 11 many_conns (at_limit _ _ e))
          (sent (firsts 10) (req 10 ∷ []) s.req_ch (omega (arith, e))),
      (omega arith, omega (arith, length-filled s.req_ch (firsts 10), e)),
    )
      where
        at_limit : (a b : ℕ) → a + 10 ≡ b → ltb b (a + 10) ≡ false
        at_limit a b e = ground arith
