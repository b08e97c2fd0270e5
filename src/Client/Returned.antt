-- ===== src/Client/Returned.antt =====
-- A call to its return: the request and the response in the bytes of the wire, the steps of the table, and
-- what `Client.call` of client/client.go returns and reports.
use gffg.Prelude.{ℕ, ◌≡◌}
use gffg.Prelude.Int.{ℤ, pos}
use gffg.Prelude.Text.{Text}
use gffg.Proto.Packet
use gffg.Proto.Reply
use gffg.Proto.WireCodec.{wire_codec}
use gffg.Client.Request.{reply_to, incoming}
use gffg.Client.Report.{Ended}
use gffg.Client.Report

-- The response that comes in is the packet that the server has sent.
abbrev pub Answers : Text → ℕ → ℤ → Text → Type 0
Answers reply sid code body = incoming wire_codec reply ≡ reply_to (pos sid) code body
