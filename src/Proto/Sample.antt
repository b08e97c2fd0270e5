-- ===== src/Proto/Sample.antt =====
-- A codec that keeps the laws of `Codec`, for runs.
use gffg.Prelude.{
  ℕ, zero, suc, ◌≡◌, refl, Option, none, some, [], ◌∷◌, Bool, true, false, if◌then◌else◌, ◌∙◌, ap,
}
use gffg.Prelude.Int.{ℤ, pos, negsuc}
use gffg.Prelude.Text.{Text, codes, text_eq, text_eq→eq}
use gffg.Proto.{Codec, Request, Response, Headers, Unmarshalled, decoded, malformed}

-- A codec for messages whose one header is a trace id of one byte. It refuses what it cannot say.
abbrev pub sign : ℤ → ℕ
sign (pos n) = 0
sign (negsuc n) = 1

abbrev pub size : ℤ → ℕ
size (pos n) = n
size (negsuc n) = n

abbrev pub signed : ℕ → ℕ → ℤ
signed zero n = pos n
signed (suc s) n = negsuc n

pub signed-sign : (z : ℤ) → signed (sign z) (size z) ≡ z
signed-sign (pos n) = refl
signed-sign (negsuc n) = refl

abbrev pub trace_of : Headers → Option ℕ
trace_of [] = none
trace_of ((k, []) ∷ h) = none
trace_of ((k, x ∷ []) ∷ []) = if text_eq k (codes "traceId") then some x else none
trace_of ((k, x ∷ []) ∷ g ∷ h) = none
trace_of ((k, x ∷ y ∷ v) ∷ h) = none

abbrev pub headers_of : ℕ → Headers
headers_of x = (codes "traceId", x ∷ []) ∷ []

pub headers_of-trace_of : (h : Headers) (x : ℕ) → trace_of h ≡ some x → headers_of x ≡ h
headers_of-trace_of [] x e = absurd (cc e)
headers_of-trace_of ((k, []) ∷ h) x e = absurd (cc e)
headers_of-trace_of ((k, y ∷ []) ∷ []) x e = go (text_eq k (codes "traceId")) refl e
  where
    some_eq : (a b : ℕ) → some a ≡ some b → b ≡ a
    some_eq a b e = cc e

    go :
        (hit : Bool)
        → text_eq k (codes "traceId") ≡ hit
        → (if hit then some y else none) ≡ some x
        → headers_of x ≡ (k, y ∷ []) ∷ []
    go true h e = rw (text_eq→eq k (codes "traceId") h, some_eq y x e) refl
    go false h e = absurd (cc e)
headers_of-trace_of ((k, y ∷ []) ∷ g ∷ h) x e = absurd (cc e)
headers_of-trace_of ((k, y ∷ z ∷ v) ∷ h) x e = absurd (cc e)

abbrev pub encode : ℤ → ℤ → Text → Option ℕ → Option Text
encode sid id packet none = none
encode sid id packet (some x) = some (sign sid ∷ size sid ∷ sign id ∷ size id ∷ x ∷ packet)

abbrev pub decode : Text → Option (ℤ × ℤ × Text × ℕ)
decode (a ∷ b ∷ c ∷ d ∷ x ∷ packet) = some (signed a b, signed c d, packet, x)
decode _ = none

pub decode-encode :
    (sid id : ℤ) (packet : Text) (o : Option ℕ) (bytes : Text)
    → encode sid id packet o ≡ some bytes
    → (x : ℕ) × (o ≡ some x) × (decode bytes ≡ some (sid, id, packet, x))
decode-encode sid id packet none bytes e = absurd (cc e)
decode-encode sid id packet (some x) bytes e = (x, refl, ap decode (bytes_eq bytes _ e) ∙ back)
  where
    bytes_eq : (a b : Text) → some b ≡ some a → a ≡ b
    bytes_eq a b e = cc e

    back : decode (sign sid ∷ size sid ∷ sign id ∷ size id ∷ x ∷ packet) ≡ some (sid, id, packet, x)
    back = rw (signed-sign sid, signed-sign id) refl

abbrev pub to_request : Option (ℤ × ℤ × Text × ℕ) → Unmarshalled Request
to_request none = malformed
to_request (some m) =
    decoded (record { sid = m.0; rpc_id = m.1; headers = headers_of m.3; packet = m.2 })

abbrev pub to_response : Option (ℤ × ℤ × Text × ℕ) → Unmarshalled Response
to_response none = malformed
to_response (some m) =
    decoded (record { sid = m.0; code = m.1; headers = headers_of m.3; packet = m.2 })

abbrev pub traced : Codec
traced = record {
  marshal_request = λ r. encode r.sid r.rpc_id r.packet (trace_of r.headers);
  unmarshal_request = λ bytes. to_request (decode bytes);
  marshal_response = λ r. encode r.sid r.code r.packet (trace_of r.headers);
  unmarshal_response = λ bytes. to_response (decode bytes);
  unmarshal-marshal_request = λ r bytes e.
      let d = decode-encode r.sid r.rpc_id r.packet (trace_of r.headers) bytes e in
      rw (d.2, headers_of-trace_of r.headers d.0 d.1) refl;
  unmarshal-marshal_response = λ r bytes e.
      let d = decode-encode r.sid r.code r.packet (trace_of r.headers) bytes e in
      rw (d.2, headers_of-trace_of r.headers d.0 d.1) refl;
}
