-- ===== src/Proto/Batch.antt =====
-- Counter, Gauge, Summary, Metric and Metrics of proto/packet.pb.go on the wire: Marshal, Size and
-- Unmarshal.
-- The messages are without unknown fields.
pub mod RoundTrip
mod Sizes
mod Runs
use gffg.Prelude.{
  ℕ, ◌+◌, Option, none, some, List, [], ◌∷◌, ◌++◌, Bool, false, if◌then◌else◌, length, ◌==◌,
}
use gffg.Prelude.Int.{ℤ, pos, to_int64, to_int32}
use gffg.Prelude.Text.{Text}
use gffg.Proto.{Headers}
use gffg.Proto.Wire.{Read, sov}
use gffg.Proto.Fields.{
  encode_int, encode_bytes, encode_headers, encode_text, encode_message, encode_bool, int_field,
  bytes_field, headers_field, message_field, bool_field, int_size, headers_size, packet_size,
  skip_unknown, fields,
}

pub record Counter : Type 0 where
  pub method : Text
  pub code : Text
  pub extra : Headers

pub record Gauge : Type 0 where
  pub type : Text
  pub value : Text
  pub add : ℤ
  pub inc : Bool
  pub extra : Headers

pub record Summary : Type 0 where
  pub method : Text
  pub extra : Headers

-- `type` is the number of the `MetricType`; a pointer that is nil is none.
pub record Metric : Type 0 where
  pub type : ℤ
  pub counter : Option Counter
  pub gauge : Option Gauge
  pub summary : Option Summary
  pub host : Text
  pub micro : ℤ
  pub svrname : Text
  pub extra : Headers

-- `Counter.Marshal`, `Gauge.Marshal`, `Summary.Marshal`.
unfoldable pub marshal_counter : Counter → Text
marshal_counter m = encode_text 10 m.method ++ (encode_text 18 m.code ++ encode_headers 26 m.extra)

unfoldable pub marshal_gauge : Gauge → Text
marshal_gauge m =
    encode_text 10 m.type
    ++ (encode_text 18 m.value
        ++ (encode_int 24 m.add ++ (encode_bool 32 m.inc ++ encode_headers 42 m.extra)))

unfoldable pub marshal_summary : Summary → Text
marshal_summary m = encode_text 10 m.method ++ encode_headers 18 m.extra

-- `Metric.Marshal`.
unfoldable pub marshal_metric : Metric → Text
unfolding marshal_counter marshal_gauge marshal_summary
marshal_metric m =
    encode_int 8 m.type
    ++ (encode_message 18 marshal_counter m.counter
        ++ (encode_message 26 marshal_gauge m.gauge
            ++ (encode_message 34 marshal_summary m.summary
                ++ (encode_text 42 m.host
                    ++ (encode_int 48 m.micro
                        ++ (encode_text 58 m.svrname ++ encode_headers 66 m.extra))))))

-- `Metrics.Marshal`, of its one field `Lists`.
unfoldable pub marshal : List Metric → Text
unfolding marshal_metric
marshal [] = []
marshal (m ∷ lists) = encode_bytes 10 (marshal_metric m) ++ marshal lists

abbrev pub message_size : ℕ → ℕ
message_size n = 1 + n + sov n

-- `Counter.Size`, `Gauge.Size`, `Summary.Size`, `Metric.Size`, `Metrics.Size`.
unfoldable pub size_counter : Counter → ℕ
size_counter m = packet_size m.method + (packet_size m.code + headers_size m.extra)

unfoldable pub size_gauge : Gauge → ℕ
size_gauge m =
    packet_size m.type
    + (packet_size m.value + (int_size m.add + ((if m.inc then 2 else 0) + headers_size m.extra)))

unfoldable pub size_summary : Summary → ℕ
size_summary m = packet_size m.method + headers_size m.extra

abbrev pub optional_size : {A : Type 0} → (A → ℕ) → Option A → ℕ
optional_size size none = 0
optional_size size (some m) = message_size (size m)

unfoldable pub size_metric : Metric → ℕ
unfolding size_counter size_gauge size_summary
size_metric m =
    int_size m.type
    + (optional_size size_counter m.counter
        + (optional_size size_gauge m.gauge
            + (optional_size size_summary m.summary
                + (packet_size m.host
                    + (int_size m.micro + (packet_size m.svrname + headers_size m.extra))))))

unfoldable pub size : List Metric → ℕ
unfolding size_metric
size [] = 0
size (m ∷ lists) = message_size (size_metric m) + size lists

abbrev pub no_counter : Counter
no_counter = record { method = []; code = []; extra = [] }

abbrev pub no_gauge : Gauge
no_gauge = record { type = []; value = []; add = pos 0; inc = false; extra = [] }

abbrev pub no_summary : Summary
no_summary = record { method = []; extra = [] }

abbrev pub no_metric : Metric
no_metric = record {
  type = pos 0;
  counter = none;
  gauge = none;
  summary = none;
  host = [];
  micro = pos 0;
  svrname = [];
  extra = [];
}

-- The switches, and the messages read into one that may have fields already.
abbrev pub counter_field : ℕ → ℕ → ℕ → Counter → Text → Text → Read (Counter × Text)
counter_field l number wire_type m rest bytes =
    if number == 1
    then bytes_field l wire_type rest (λ s. record m { method = s })
    else if number == 2
    then bytes_field l wire_type rest (λ s. record m { code = s })
    else if number == 3
    then headers_field l wire_type rest m.extra (λ h. record m { extra = h })
    else skip_unknown l m bytes

unfoldable pub unmarshal_counter : Counter → Text → Read Counter
unfolding fields
unmarshal_counter m bytes = fields (counter_field (length bytes)) (length bytes) m bytes

abbrev pub gauge_field : ℕ → ℕ → ℕ → Gauge → Text → Text → Read (Gauge × Text)
gauge_field l number wire_type m rest bytes =
    if number == 1
    then bytes_field l wire_type rest (λ s. record m { type = s })
    else if number == 2
    then bytes_field l wire_type rest (λ s. record m { value = s })
    else if number == 3
    then int_field l wire_type rest (λ n. record m { add = to_int64 n })
    else if number == 4
    then bool_field l wire_type rest (λ b. record m { inc = b })
    else if number == 5
    then headers_field l wire_type rest m.extra (λ h. record m { extra = h })
    else skip_unknown l m bytes

unfoldable pub unmarshal_gauge : Gauge → Text → Read Gauge
unfolding fields
unmarshal_gauge m bytes = fields (gauge_field (length bytes)) (length bytes) m bytes

abbrev pub summary_field : ℕ → ℕ → ℕ → Summary → Text → Text → Read (Summary × Text)
summary_field l number wire_type m rest bytes =
    if number == 1
    then bytes_field l wire_type rest (λ s. record m { method = s })
    else if number == 2
    then headers_field l wire_type rest m.extra (λ h. record m { extra = h })
    else skip_unknown l m bytes

unfoldable pub unmarshal_summary : Summary → Text → Read Summary
unfolding fields
unmarshal_summary m bytes = fields (summary_field (length bytes)) (length bytes) m bytes

-- `if m.Counter == nil { m.Counter = &Counter{} }`, and its siblings.
abbrev pub or_new : {A : Type 0} → A → Option A → A
or_new fresh none = fresh
or_new fresh (some m) = m

abbrev pub metric_field : ℕ → ℕ → ℕ → Metric → Text → Text → Read (Metric × Text)
metric_field l number wire_type m rest bytes =
    if number == 1
    then int_field l wire_type rest (λ n. record m { type = to_int32 n })
    else if number == 2
    then message_field l wire_type rest (unmarshal_counter (or_new no_counter m.counter))
        (λ x. record m { counter = some x })
    else if number == 3
    then message_field l wire_type rest (unmarshal_gauge (or_new no_gauge m.gauge))
        (λ x. record m { gauge = some x })
    else if number == 4
    then message_field l wire_type rest (unmarshal_summary (or_new no_summary m.summary))
        (λ x. record m { summary = some x })
    else if number == 5
    then bytes_field l wire_type rest (λ s. record m { host = s })
    else if number == 6
    then int_field l wire_type rest (λ n. record m { micro = to_int64 n })
    else if number == 7
    then bytes_field l wire_type rest (λ s. record m { svrname = s })
    else if number == 8
    then headers_field l wire_type rest m.extra (λ h. record m { extra = h })
    else skip_unknown l m bytes

unfoldable pub unmarshal_metric : Text → Read Metric
unfolding fields unmarshal_counter unmarshal_gauge unmarshal_summary
unmarshal_metric bytes = fields (metric_field (length bytes)) (length bytes) no_metric bytes

abbrev pub metrics_field : ℕ → ℕ → ℕ → List Metric → Text → Text → Read (List Metric × Text)
metrics_field l number wire_type lists rest bytes =
    if number == 1
    then message_field l wire_type rest unmarshal_metric (λ m. lists ++ m ∷ [])
    else skip_unknown l lists bytes

-- `Metrics.Unmarshal` into an empty message.
unfoldable pub unmarshal : Text → Read (List Metric)
unfolding fields unmarshal_metric
unmarshal bytes = fields (metrics_field (length bytes)) (length bytes) [] bytes
