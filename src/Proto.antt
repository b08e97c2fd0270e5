-- ===== src/Proto.antt =====
-- proto/packet.pb.go: the messages that travel as packets, and what their codec promises its users.
pub mod Batch
pub mod Sample
pub mod Wire
pub mod Fields
pub mod Packet
pub mod Reply
pub mod WireCodec
use gffg.Prelude.{◌≡◌, Option, some, List}
use gffg.Prelude.Int.{ℤ}
use gffg.Prelude.Text.{Text}

abbrev pub Headers : Type 0
Headers = List (Text × Text)

pub record Request : Type 0 where
  pub sid : ℤ
  pub rpc_id : ℤ
  pub headers : Headers
  pub packet : Text

pub record Response : Type 0 where
  pub sid : ℤ
  pub headers : Headers
  pub code : ℤ
  pub packet : Text

-- What an `Unmarshal` does: it fills the message, returns an error, or panics with a runtime error.
pub data Unmarshalled {ℓ} (M : Type ℓ) : Type ℓ where
  decoded : M → Unmarshalled M
  malformed : Unmarshalled M
  out_of_range : Unmarshalled M

-- `none` is a non-nil error.
pub record Codec : Type 0 where
  pub marshal_request : Request → Option Text
  pub unmarshal_request : Text → Unmarshalled Request
  pub marshal_response : Response → Option Text
  pub unmarshal_response : Text → Unmarshalled Response
  pub unmarshal-marshal_request :
      (r : Request) (bytes : Text)
      → marshal_request r ≡ some bytes
      → unmarshal_request bytes ≡ decoded r
  pub unmarshal-marshal_response :
      (r : Response) (bytes : Text)
      → marshal_response r ≡ some bytes
      → unmarshal_response bytes ≡ decoded r
