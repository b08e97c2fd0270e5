-- ===== src/Proto/Batch/Sizes.antt =====
-- Marshal of the metrics writes as many bytes as Size says.
use gffg.Prelude.{
  ℕ, ◌+◌, ◌^◌, ◌<◌, ◌≡◌, refl, ap, arith, Option, none, some, List, [], ◌∷◌, ◌++◌, Bool, true,
  false, if◌then◌else◌, length, length-append,
}
use gffg.Prelude.Int.{ℤ}
use gffg.Prelude.Text.{Text}
use gffg.Proto.{Headers}
use gffg.Proto.Wire.{encode_varint, sov}
use gffg.Proto.Wire.Laws.{length-encode}
use gffg.Proto.Fields.{
  encode_int, encode_bytes, encode_headers, encode_text, encode_message, encode_bool, int_size,
  headers_size, packet_size,
}
use gffg.Proto.Fields.Room.{length-int, length-headers, length-packet}
use gffg.Proto.Batch.{
  Counter, Gauge, Summary, Metric, marshal_counter, marshal_gauge, marshal_summary, marshal_metric,
  marshal, message_size, optional_size, size_counter, size_gauge, size_summary, size_metric, size,
}

-- Bytes whose number is what is reckoned for them, if an int can count them.
abbrev Fits : Text → ℕ → Type 0
Fits bytes n = length bytes < 2 ^ 63 → length bytes ≡ n

append-Fits : (x y : Text) (m n : ℕ) → Fits x m → Fits y n → Fits (x ++ y) (m + n)
append-Fits x y m n p q small =
    let both = length-append x y in
    omega (arith, both, p (omega (arith, both, small)), q (omega (arith, both, small)))

text-Fits : (tag : ℕ) (s : Text) → Fits (encode_text tag s) (packet_size s)
text-Fits tag [] small = refl
text-Fits tag (b ∷ s) small = length-packet (b ∷ s) small

int-Fits : (tag : ℕ) (n : ℤ) → Fits (encode_int tag n) (int_size n)
int-Fits tag n small = length-int tag n

headers-Fits : (tag : ℕ) (h : Headers) → Fits (encode_headers tag h) (headers_size h)
headers-Fits tag h small = length-headers tag h small

bool-Fits : (tag : ℕ) (b : Bool) → Fits (encode_bool tag b) (if b then 2 else 0)
bool-Fits tag false small = refl
bool-Fits tag true small = refl

bytes-Fits : (tag : ℕ) (s : Text) (n : ℕ) → Fits s n → Fits (encode_bytes tag s) (message_size n)
bytes-Fits tag s n p small =
    let both = length-append (encode_varint (length s)) s in
    let same = p (omega (arith, both, small)) in
    omega (arith, both, same, ap sov same, length-encode (length s) (omega (arith, both, small)))

optional-Fits :
    {A : Type 0} (tag : ℕ) (marshal : A → Text) (size : A → ℕ)
    → ((m : A) → Fits (marshal m) (size m))
    → (o : Option A) → Fits (encode_message tag marshal o) (optional_size size o)
optional-Fits tag marshal size p none small = refl
optional-Fits tag marshal size p (some m) small = bytes-Fits tag (marshal m) (size m) (p m) small

marshal_counter-Fits : (m : Counter) → Fits (marshal_counter m) (size_counter m)
unfolding marshal_counter size_counter
marshal_counter-Fits m =
    append-Fits (encode_text 10 m.method) _ _ _ (text-Fits 10 m.method)
      (append-Fits (encode_text 18 m.code) _ _ _ (text-Fits 18 m.code) (headers-Fits 26 m.extra))

marshal_gauge-Fits : (m : Gauge) → Fits (marshal_gauge m) (size_gauge m)
unfolding marshal_gauge size_gauge
marshal_gauge-Fits m = append-Fits (encode_text 10 m.type) _ _ _ (text-Fits 10 m.type) (
    append-Fits (encode_text 18 m.value) _ _ _ (text-Fits 18 m.value) (
      append-Fits (encode_int 24 m.add) _ _ _ (int-Fits 24 m.add)
        (append-Fits (encode_bool 32 m.inc) _ _ _ (bool-Fits 32 m.inc) (headers-Fits 42 m.extra))))

marshal_summary-Fits : (m : Summary) → Fits (marshal_summary m) (size_summary m)
unfolding marshal_summary size_summary
marshal_summary-Fits m =
    append-Fits (encode_text 10 m.method) _ _ _ (text-Fits 10 m.method) (headers-Fits 18 m.extra)

marshal_metric-Fits : (m : Metric) → Fits (marshal_metric m) (size_metric m)
unfolding marshal_metric size_metric
marshal_metric-Fits m = append-Fits (encode_int 8 m.type) _ _ _ (int-Fits 8 m.type) (
    append-Fits (encode_message 18 marshal_counter m.counter) _ _ _
      (optional-Fits 18 marshal_counter size_counter marshal_counter-Fits m.counter)
      (append-Fits (encode_message 26 marshal_gauge m.gauge) _ _ _
        (optional-Fits 26 marshal_gauge size_gauge marshal_gauge-Fits m.gauge)
        (append-Fits (encode_message 34 marshal_summary m.summary) _ _ _
          (optional-Fits 34 marshal_summary size_summary marshal_summary-Fits m.summary) (rest m))))
  where
    rest :
        (m : Metric)
        → Fits
            (encode_text 42 m.host
              ++ (encode_int 48 m.micro ++ (encode_text 58 m.svrname ++ encode_headers 66 m.extra)))
            (packet_size m.host
              + (int_size m.micro + (packet_size m.svrname + headers_size m.extra)))
    rest m = append-Fits (encode_text 42 m.host) _ _ _ (text-Fits 42 m.host) (
        append-Fits (encode_int 48 m.micro) _ _ _ (int-Fits 48 m.micro) (
          append-Fits (encode_text 58 m.svrname) _ _ _ (text-Fits 58 m.svrname)
            (headers-Fits 66 m.extra)))

-- If the bytes of a batch are fewer than 2^63, Metrics.Marshal writes as many as Metrics.Size says.
pub length-marshal :
    (lists : List Metric) → length (marshal lists) < 2 ^ 63 → length (marshal lists) ≡ size lists
unfolding marshal size
length-marshal [] small = refl
length-marshal (m ∷ lists) small =
    append-Fits (encode_bytes 10 (marshal_metric m)) (marshal lists) _ _
      (bytes-Fits 10 (marshal_metric m) (size_metric m) (marshal_metric-Fits m))
      (length-marshal lists) small
