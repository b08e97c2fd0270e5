-- ===== src/Proto/WireCodec/Runs.antt =====
-- The codec on what is no value of the Go types.
use gffg.Prelude.{◌≡◌, refl, none, [], ◌∷◌}
use gffg.Prelude.Int.{pos}
use gffg.Prelude.Text.{codes}
use gffg.Proto.Packet.{marshal}
use gffg.Proto.WireCodec.{wire_codec}

twice :
    wire_codec.marshal_request (record {
      sid = pos 1;
      rpc_id = pos 2;
      headers = (codes "k", []) ∷ (codes "k", []) ∷ [];
      packet = [];
    })
    ≡ none
unfolding marshal
twice = refl
