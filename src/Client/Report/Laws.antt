-- ===== src/Client/Report/Laws.antt =====
-- The code that a call reports, against what it returns.
use gffg.Prelude.{
  ℕ, ◌≡◌, ◌≢◌, refl, ◌⊎◌, inl, inr, Option, none, some, List, [], Bool, true, false, if◌then◌else◌,
}
use mathlib.Core.Path.{subst}
use gffg.Prelude.Int.{ℤ, pos, negsuc}
use gffg.Prelude.Text.{Text}
use gffg.Proto.{Codec}
use gffg.Transport.Response.{WriteResult, WriteOutcome, returned, blocked, panicked, write}
use gffg.Client.Request.{Options, request_of}
use gffg.Client.Calls.{
  Result, packet, refused, timed_out, write_failed, finished, Table, Reach, start,
}
use gffg.Client.Calls.Laws.{Good, returned-Good}
use gffg.Client.Call
use gffg.Client.Call.{Answer, answer, error, answer_of}
use gffg.Client.Report.{Ended, ended, after_write, with_bytes, call}

module _ (Arrives : ℕ → ℤ → Text → Type 0) (sid : ℕ) (opt : Options) where
  -- The code 0 goes with a packet that has arrived, and so has a response with this code, or with the
  -- empty packet of a one-way call; any other code with an error; and -1 with a panic.
  abbrev pub Honest : Answer → ℤ → Type 0
  Honest (answer body) code =
      (code ≡ pos 0) × (((opt.only_call ≡ true) × (body ≡ [])) ⊎ Good Arrives sid (packet body))
  Honest (error e) code = code ≢ pos 0
  Honest (Call.panicked p) code = code ≡ negsuc 0

  abbrev HonestEnd : Ended → Type 0
  HonestEnd e = Honest e.answer e.rpc_code

  module _ (trace write_error marshal_error address : Text) where
    ended-Honest :
        (r : Result)
        → Good Arrives sid r
        → HonestEnd (ended trace write_error marshal_error address r)
    unfolding answer_of
    ended-Honest (packet body) g = (refl, inr g)
    ended-Honest (refused code) (ne, a) = ne
    ended-Honest timed_out g = λ e. cc e
    ended-Honest write_failed g = λ e. cc e

    sent-Honest :
        (r : Result) (b : Bool)
        → opt.only_call ≡ b
        → (opt.only_call ≡ true) ⊎ Good Arrives sid r
        → HonestEnd (
            if b
            then record { answer = answer []; rpc_code = pos 0 }
            else ended trace write_error marshal_error address r)
    sent-Honest r true o g = (refl, inl (o, refl))
    sent-Honest r false o (inl one_way) = absurd (cc (o, one_way))
    sent-Honest r false o (inr g) = ended-Honest r g

    some_eq : (a b : Ended) → some a ≡ some b → a ≡ b
    some_eq a b e = cc e

    write-Honest :
        (r : Result) (o : WriteOutcome) (e : Ended)
        → (opt.only_call ≡ true) ⊎ Good Arrives sid r
        → after_write trace write_error marshal_error address opt r o ≡ some e
        → HonestEnd e
    write-Honest r (returned n true wire) e g h =
        subst HonestEnd (some_eq _ e h) (ended-Honest write_failed tt)
    write-Honest r (returned n false wire) e g h =
        subst HonestEnd (some_eq _ e h) (sent-Honest r opt.only_call refl g)
    write-Honest r (blocked n wire) e g h = absurd (cc h)
    write-Honest r (panicked wire) e g h = subst HonestEnd (some_eq _ e h) refl

    -- Whenever Client.call has ended, and its wait, if it is no one-way call, in a state that the
    -- calls can reach: it has reported the code 0 if it returns a packet, and then a response with
    -- this packet has arrived for its sid, and one with this code, or the packet is the empty one
    -- of a one-way call; another code than 0 if it returns an error; and -1 if it panics.
    pub call-Honest :
        {t : Table} (codec : Codec) (rpc body : Text) (results : List WriteResult) (wire : Text)
        (r : Result) (e : Ended)
        → Reach Arrives start t
        → (opt.only_call ≡ true) ⊎ (t.phase sid ≡ finished r)
        → call trace write_error marshal_error address codec (pos sid) rpc body opt results wire r
          ≡ some e
        → Honest e.answer e.rpc_code
    unfolding call
    call-Honest {t} codec rpc body results wire r e reach at h =
        by_bytes (codec.marshal_request (request_of trace (pos sid) rpc body opt)) h
      where
        good :
            (opt.only_call ≡ true) ⊎ (t.phase sid ≡ finished r)
            → (opt.only_call ≡ true) ⊎ Good Arrives sid r
        good (inl one_way) = inl one_way
        good (inr at) = inr (returned-Good Arrives sid r reach at)

        by_bytes :
            (o : Option Text)
            → with_bytes trace write_error marshal_error address opt r results wire o ≡ some e
            → HonestEnd e
        by_bytes none h = subst HonestEnd (some_eq _ e h) (λ x. cc x)
        by_bytes (some req) h = write-Honest r (write true results req wire) e (good at) h
