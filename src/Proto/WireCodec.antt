-- ===== src/Proto/WireCodec.antt =====
-- The codec that the generated code of proto/packet.pb.go is: Marshal and Unmarshal of both messages.
mod Runs
use gffg.Prelude.{
  ℕ, ◌^◌, ◌<◌, ◌≡◌, refl, sym, ap, ◌∙◌, arith, Option, none, some, [], ◌∷◌, if◌then◌else◌, Bool,
  true, false, ◌&&◌, ltb, ltb→lt, lt→ltb, length, Bool-cases, inl, inr,
}
use gffg.Prelude.Int.{ℤ, pos, negsuc, IsInt64, IsInt32}
use gffg.Prelude.Text.{Text, text_eq, text_eq→eq, text_eq_refl}
use gffg.Proto.{Codec, Request, Response, Headers, Unmarshalled, decoded, malformed, out_of_range}
use gffg.Proto.Wire.{Read, ok, err, panics}
use gffg.Proto.Fields.Loop.{store_all}
use gffg.Proto.Packet
use gffg.Proto.Packet.RoundTrip.{IsMessage, unmarshal-marshal}
use gffg.Proto.Reply
use gffg.Proto.Reply.RoundTrip.{IsReply, unmarshal-marshal_response}

-- Tests for the records that a value of the Go types stands for: the widths of the integers, a map
-- that has no key twice, and a length that an int can say.
abbrev fits : ℕ → ℤ → Bool
fits w (pos n) = ltb n (2 ^ w)
fits w (negsuc n) = ltb n (2 ^ w)

abbrev same_headers : Headers → Headers → Bool
same_headers [] [] = true
same_headers [] (e ∷ g) = false
same_headers (e ∷ h) [] = false
same_headers ((j, v) ∷ h) ((k, w) ∷ g) = text_eq j k && (text_eq v w && same_headers h g)

abbrev is_map : Headers → Bool
is_map h = same_headers (store_all [] h) h

abbrev is_message : Request → Bool
is_message m =
    fits 63 m.sid
    && (fits 63 m.rpc_id && (is_map m.headers && ltb (length (Packet.marshal m)) (2 ^ 63)))

abbrev is_reply : Response → Bool
is_reply m =
    fits 63 m.sid
    && (fits 31 m.code && (is_map m.headers && ltb (length (Reply.marshal m)) (2 ^ 63)))

both : (a b : Bool) → (a && b) ≡ true → (a ≡ true) × (b ≡ true)
both true b h = (refl, h)
both false b h = cc

fits_64 : (n : ℤ) → fits 63 n ≡ true → IsInt64 n
fits_64 (pos n) h = ltb→lt _ _ h
fits_64 (negsuc n) h = ltb→lt _ _ h

fits_32 : (n : ℤ) → fits 31 n ≡ true → IsInt32 n
fits_32 (pos n) h = ltb→lt _ _ h
fits_32 (negsuc n) h = ltb→lt _ _ h

same_headers→eq : (h g : Headers) → same_headers h g ≡ true → h ≡ g
same_headers→eq [] [] e = refl
same_headers→eq [] (x ∷ g) e = cc
same_headers→eq (x ∷ h) [] e = cc
same_headers→eq ((j, v) ∷ h) ((k, w) ∷ g) e =
    let (a, b) = both _ _ e in
    let (c, d) = both _ _ b in rw (text_eq→eq j k a, text_eq→eq v w c, same_headers→eq h g d) refl

is_message-IsMessage : (m : Request) → is_message m ≡ true → IsMessage m
is_message-IsMessage m e =
    let (a, b) = both _ _ e in
    let (c, d) = both _ _ b in
    let (f, g) = both _ _ d in
    record {
      sid_fits = fits_64 m.sid a;
      rpc_id_fits = fits_64 m.rpc_id c;
      headers_map = same_headers→eq _ _ f;
      length_fits = ltb→lt _ _ g;
    }

is_reply-IsReply : (m : Response) → is_reply m ≡ true → IsReply m
is_reply-IsReply m e =
    let (a, b) = both _ _ e in
    let (c, d) = both _ _ b in
    let (f, g) = both _ _ d in
    record {
      sid_fits = fits_64 m.sid a;
      code_fits = fits_32 m.code c;
      headers_map = same_headers→eq _ _ f;
      length_fits = ltb→lt _ _ g;
    }

abbrev unmarshalled {ℓ} : {M : Type ℓ} → Read M → Unmarshalled M
unmarshalled (ok m) = decoded m
unmarshalled (err e) = malformed
unmarshalled panics = out_of_range

marshalled_only :
    (b : Bool) (x y : Text) → (if b then some x else none) ≡ some y → (b ≡ true) × (x ≡ y)
marshalled_only true x y e = (refl, cc e)
marshalled_only false x y e = cc

pub request_back :
    (m : Request) (bytes : Text)
    → (if is_message m then some (Packet.marshal m) else none) ≡ some bytes
    → unmarshalled (Packet.unmarshal bytes) ≡ decoded m
request_back m bytes e =
    let (b, same) = marshalled_only (is_message m) (Packet.marshal m) bytes e in
    ap (λ x. unmarshalled (Packet.unmarshal x)) (sym same)
    ∙ ap unmarshalled (unmarshal-marshal m (is_message-IsMessage m b)).0

pub response_back :
    (m : Response) (bytes : Text)
    → (if is_reply m then some (Reply.marshal m) else none) ≡ some bytes
    → unmarshalled (Reply.unmarshal bytes) ≡ decoded m
response_back m bytes e =
    let (b, same) = marshalled_only (is_reply m) (Reply.marshal m) bytes e in
    ap (λ x. unmarshalled (Reply.unmarshal x)) (sym same)
    ∙ ap unmarshalled (unmarshal-marshal_response m (is_reply-IsReply m b)).0

-- `Marshal` has no error; the records that stand for no value of the Go type have no bytes.
abbrev pub wire_codec : Codec
wire_codec = record {
  marshal_request = λ m. if is_message m then some (Packet.marshal m) else none;
  unmarshal_request = λ bytes. unmarshalled (Packet.unmarshal bytes);
  marshal_response = λ m. if is_reply m then some (Reply.marshal m) else none;
  unmarshal_response = λ bytes. unmarshalled (Reply.unmarshal bytes);
  unmarshal-marshal_request = request_back;
  unmarshal-marshal_response = response_back;
}

fits_of_64 : (n : ℤ) → IsInt64 n → fits 63 n ≡ true
fits_of_64 (pos n) h = lt→ltb _ _ h
fits_of_64 (negsuc n) h = lt→ltb _ _ h

fits_of_32 : (n : ℤ) → IsInt32 n → fits 31 n ≡ true
fits_of_32 (pos n) h = lt→ltb _ _ h
fits_of_32 (negsuc n) h = lt→ltb _ _ h

same_headers_refl : (h : Headers) → same_headers h h ≡ true
same_headers_refl [] = refl
same_headers_refl ((k, v) ∷ h) = rw (text_eq_refl k, text_eq_refl v, same_headers_refl h) refl

is_map_of : (h : Headers) → store_all [] h ≡ h → is_map h ≡ true
is_map_of h e = ap (λ g. same_headers g h) e ∙ same_headers_refl h

-- The codec writes what is a message, and what is a reply.
pub marshal_message :
    (m : Request) → IsMessage m → wire_codec.marshal_request m ≡ some (Packet.marshal m)
marshal_message m h =
    rw
      (
        fits_of_64 m.sid h.sid_fits,
        fits_of_64 m.rpc_id h.rpc_id_fits,
        is_map_of m.headers h.headers_map,
        lt→ltb _ _ h.length_fits,
      )
      refl

pub marshal_reply :
    (m : Response) → IsReply m → wire_codec.marshal_response m ≡ some (Reply.marshal m)
marshal_reply m h =
    rw
      (
        fits_of_64 m.sid h.sid_fits,
        fits_of_32 m.code h.code_fits,
        is_map_of m.headers h.headers_map,
        lt→ltb _ _ h.length_fits,
      )
      refl
