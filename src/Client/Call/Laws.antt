-- ===== src/Client/Call/Laws.antt =====
-- What a call leaves of the pool, and what it returns.
use gffg.Prelude.{ℕ, ◌≡◌, refl, ap, ◌∙◌, Option, none, some, [], true, false}
use gffg.Prelude.Text.{Text, text_eq}
use gffg.Transport.Socket.{runtime_error}
use gffg.Client.Pool.{Conn, Pool, Dialed, chosen, response, has_name, key, remove_during}
use gffg.Client.Pool.Removal.{
  count_name, count_name-without, count_name-without_self, removed_conns,
}
use gffg.Client.Call.{Request, bytes, Answer, error, panicked, returned, is_broken, answered, call}

module _ (dial : ℕ → Option Dialed) (intn : ℕ → ℕ) (now : ℕ)
    (send : Conn → Text → Text → Pool → Pool × Answer) (meanwhile : Pool → Pool) (group : Text)
    (req : Request) (p : Pool) (packet : Text) (i : req.input ≡ bytes packet) (q : Pool)
    (cli : Conn) (c : response dial intn now group req.name p ≡ (q, chosen cli)) where
  pub call-answered :
      call dial intn now send meanwhile group req p
      ≡ answered meanwhile group req.name cli (send cli req.m packet q)
  unfolding call
  call-answered = rw (i, c) refl

  call_removes :
      (e : Text) (after : Pool)
      → send cli req.m packet q ≡ (after, error e)
      → is_broken e ≡ true
      → call dial intn now send meanwhile group req p
        ≡ (remove_during meanwhile cli.group cli.svrname cli.name after, returned [] (some e))
  call_removes e after s b = call-answered ∙ rw (s, b) refl

  -- A call whose connection fails with an error that says closed or broken pipe, and is still in
  -- the pool then, returns this error; and whatever other goroutines do to the pool between the two
  -- halves of the removal, after it no connection of this name is left for its key, and every other
  -- name has as many there as at the end of the wait.
  pub call_broken :
      (e : Text) (after : Pool) (other : Text)
      → send cli req.m packet q ≡ (after, error e)
      → is_broken e ≡ true
      → has_name cli.name (after.rpcconn (key cli.group cli.svrname)) ≡ true
      → text_eq cli.name other ≡ false
      → ((call dial intn now send meanwhile group req p).1 ≡ returned [] (some e))
        × (count_name cli.name (
              (call dial intn now send meanwhile group req p).0.rpcconn (key cli.group cli.svrname))
            ≡ 0)
        × (count_name other (
              (call dial intn now send meanwhile group req p).0.rpcconn (key cli.group cli.svrname))
            ≡ count_name other (after.rpcconn (key cli.group cli.svrname)))
  call_broken e after other s b found ne =
      let run = call_removes e after s b in
      let k = key cli.group cli.svrname in
      let stored = removed_conns cli.group cli.svrname cli.name after meanwhile found in
      (
        ap (λ x. x.1) run,
        ap (λ x. count_name cli.name (x.0.rpcconn k)) run
            ∙ ap (count_name cli.name) stored
            ∙ count_name-without_self cli.name (after.rpcconn k),
        ap (λ x. count_name other (x.0.rpcconn k)) run
            ∙ ap (count_name other) stored
            ∙ count_name-without cli.name other (after.rpcconn k) ne,
      )

  -- A call whose wait panics with a runtime error returns an empty packet and no error.
  pub call_panics :
      (after : Pool)
      → send cli req.m packet q ≡ (after, panicked runtime_error)
      → call dial intn now send meanwhile group req p ≡ (after, returned [] none)
  call_panics after s = call-answered ∙ rw s refl
