-- ===== src/Proto/Batch/RoundTrip.antt =====
-- A batch of metrics that is marshalled and read back.
use gffg.Prelude.{All, ℕ, ◌^◌, ◌<◌, ◌≡◌, refl, sym, List, [], ◌∷◌, ◌++◌, length}
use gffg.Prelude.Int.{
  pos, IsInt64, IsInt32, to_int64, to_int32, to_int64-to_uint64, to_int32-to_uint64,
}
use mathlib.Core.List.{append_assoc, append-nil}
use mathlib.Core.Path.{subst}
use gffg.Proto.{Headers}
use gffg.Proto.Wire.{ok}
use gffg.Proto.Fields.{encode_headers, encode_text}
use gffg.Proto.Fields.Loop.{store_all, IsTag-1_0, IsTag-2_2, IsTag-3_0, IsTag-3_2, IsTag-4_2}
use gffg.Proto.Fields.Passes.{
  Passes, IfSome, ◌▸◌, last_field, fields-Passes, encode_int-Passes, encode_headers-Passes,
  encode_text-Passes, encode_optional-Passes, encode_message-Passes, nothing-Passes,
  encode_bool-Passes, IsTag-1_2, IsTag-4_0, IsTag-5_2, IsTag-6_0, IsTag-7_2, IsTag-8_2,
}
use gffg.Proto.Batch.{
  Counter, Gauge, Summary, Metric, marshal_counter, marshal_gauge, marshal_summary, marshal_metric,
  marshal, no_counter, no_gauge, no_summary, no_metric, counter_field, gauge_field, summary_field,
  metric_field, metrics_field, unmarshal_counter, unmarshal_gauge, unmarshal_summary,
  unmarshal_metric, unmarshal, size,
}
use gffg.Proto.Batch.Sizes.{length-marshal}

-- A map without a key twice.
abbrev pub Distinct : Headers → Type 0
Distinct h = store_all [] h ≡ h

marshal_counter-Passes :
    (l : ℕ) (small : l < 2 ^ 63) (m : Counter)
    → Distinct m.extra
    → Passes (counter_field l) l small no_counter m (marshal_counter m) []
unfolding marshal_counter
marshal_counter-Passes l small m d =
    encode_text-Passes (counter_field l) l small 10 IsTag-1_2
      (λ s. record no_counter { method = s }) (λ rest bytes. refl) m.method
      (encode_text 18 m.code ++ encode_headers 26 m.extra)
    ▸ encode_text-Passes (counter_field l) l small 18 IsTag-2_2
        (λ s. record no_counter { method = m.method; code = s }) (λ rest bytes. refl) m.code
        (encode_headers 26 m.extra)
    ▸ last_field (encode_headers 26 m.extra) (
        encode_headers-Passes (counter_field l) l small 26 IsTag-3_2 (λ h. record m { extra = h })
          (λ h rest bytes. refl) m.extra [] d)

marshal_gauge-Passes :
    (l : ℕ) (small : l < 2 ^ 63) (m : Gauge)
    → IsInt64 m.add
    → Distinct m.extra
    → Passes (gauge_field l) l small no_gauge m (marshal_gauge m) []
unfolding marshal_gauge
marshal_gauge-Passes l small m fits d =
    let switch = gauge_field l in
    encode_text-Passes switch l small 10 IsTag-1_2 (λ s. record no_gauge { type = s })
      (λ rest bytes. refl) m.type _
    ▸ encode_text-Passes switch l small 18 IsTag-2_2
        (λ s. record no_gauge { type = m.type; value = s }) (λ rest bytes. refl) m.value _
    ▸ encode_int-Passes switch l small 24 IsTag-3_0
        (λ n. record no_gauge { type = m.type; value = m.value; add = n }) to_int64
        (λ rest bytes. refl) m.add _ (to_int64-to_uint64 m.add fits)
    ▸ encode_bool-Passes switch l small 32 IsTag-4_0 (λ b. record m { inc = b; extra = [] })
        (λ rest bytes. refl) m.inc _
    ▸ last_field (encode_headers 42 m.extra) (
        encode_headers-Passes switch l small 42 IsTag-5_2 (λ h. record m { extra = h })
          (λ h rest bytes. refl) m.extra [] d)

marshal_summary-Passes :
    (l : ℕ) (small : l < 2 ^ 63) (m : Summary)
    → Distinct m.extra
    → Passes (summary_field l) l small no_summary m (marshal_summary m) []
unfolding marshal_summary
marshal_summary-Passes l small m d =
    let switch = summary_field l in
    encode_text-Passes switch l small 10 IsTag-1_2 (λ s. record no_summary { method = s })
      (λ rest bytes. refl) m.method _
    ▸ last_field (encode_headers 18 m.extra) (
        encode_headers-Passes switch l small 18 IsTag-2_2 (λ h. record m { extra = h })
          (λ h rest bytes. refl) m.extra [] d)

unmarshal-marshal_counter :
    (m : Counter)
    → Distinct m.extra
    → length (marshal_counter m) < 2 ^ 63
    → unmarshal_counter no_counter (marshal_counter m) ≡ ok m
unfolding unmarshal_counter
unmarshal-marshal_counter m d small =
    let l = length (marshal_counter m) in
    fields-Passes (counter_field l) l small (marshal_counter m) (marshal_counter-Passes l small m d)
      refl

unmarshal-marshal_gauge :
    (m : Gauge)
    → IsInt64 m.add
    → Distinct m.extra
    → length (marshal_gauge m) < 2 ^ 63
    → unmarshal_gauge no_gauge (marshal_gauge m) ≡ ok m
unfolding unmarshal_gauge
unmarshal-marshal_gauge m fits d small =
    let l = length (marshal_gauge m) in
    fields-Passes (gauge_field l) l small (marshal_gauge m) (marshal_gauge-Passes l small m fits d)
      refl

unmarshal-marshal_summary :
    (m : Summary)
    → Distinct m.extra
    → length (marshal_summary m) < 2 ^ 63
    → unmarshal_summary no_summary (marshal_summary m) ≡ ok m
unfolding unmarshal_summary
unmarshal-marshal_summary m d small =
    let l = length (marshal_summary m) in
    fields-Passes (summary_field l) l small (marshal_summary m) (marshal_summary-Passes l small m d)
      refl

-- What a value of the Go type is, and of the messages in it.
pub record IsMetric (m : Metric) : Type 0 where
  pub type_fits : IsInt32 m.type
  pub micro_fits : IsInt64 m.micro
  pub extra_map : Distinct m.extra
  pub counter_map : IfSome (λ c. Distinct c.extra) m.counter
  pub gauge_value : IfSome (λ g. IsInt64 g.add × Distinct g.extra) m.gauge
  pub summary_map : IfSome (λ s. Distinct s.extra) m.summary

marshal_metric-Passes :
    (l : ℕ) (small : l < 2 ^ 63) (m : Metric)
    → IsMetric m
    → Passes (metric_field l) l small no_metric m (marshal_metric m) []
unfolding marshal_metric
marshal_metric-Passes l small m h =
    let switch = metric_field l in
    encode_int-Passes switch l small 8 IsTag-1_0 (λ n. record no_metric { type = n }) to_int32
      (λ rest bytes. refl) m.type _ (to_int32-to_uint64 m.type h.type_fits)
    ▸ encode_optional-Passes switch l small 18 IsTag-2_2
        (λ c. record no_metric { type = m.type; counter = c }) marshal_counter
        (unmarshal_counter no_counter) (λ rest bytes. refl) _ unmarshal-marshal_counter m.counter _
        h.counter_map
    ▸ encode_optional-Passes switch l small 26 IsTag-3_2
        (λ g. record no_metric { type = m.type; counter = m.counter; gauge = g }) marshal_gauge
        (unmarshal_gauge no_gauge) (λ rest bytes. refl) _
        (λ g p. unmarshal-marshal_gauge g p.0 (p.1)) m.gauge _ h.gauge_value
    ▸ encode_optional-Passes switch l small 34 IsTag-4_2
        (λ s. record m { summary = s; host = []; micro = pos 0; svrname = []; extra = [] })
        marshal_summary (unmarshal_summary no_summary) (λ rest bytes. refl) _
        unmarshal-marshal_summary m.summary _ h.summary_map
    ▸ encode_text-Passes switch l small 42 IsTag-5_2
        (λ s. record m { host = s; micro = pos 0; svrname = []; extra = [] }) (λ rest bytes. refl)
        m.host _
    ▸ encode_int-Passes switch l small 48 IsTag-6_0
        (λ n. record m { micro = n; svrname = []; extra = [] }) to_int64 (λ rest bytes. refl)
        m.micro _ (to_int64-to_uint64 m.micro h.micro_fits)
    ▸ encode_text-Passes switch l small 58 IsTag-7_2 (λ s. record m { svrname = s; extra = [] })
        (λ rest bytes. refl) m.svrname _
    ▸ last_field (encode_headers 66 m.extra) (
        encode_headers-Passes switch l small 66 IsTag-8_2 (λ h. record m { extra = h })
          (λ h rest bytes. refl) m.extra [] h.extra_map)

unmarshal-marshal_metric :
    (m : Metric)
    → IsMetric m
    → length (marshal_metric m) < 2 ^ 63
    → unmarshal_metric (marshal_metric m) ≡ ok m
unfolding unmarshal_metric
unmarshal-marshal_metric m h small =
    let l = length (marshal_metric m) in
    fields-Passes (metric_field l) l small (marshal_metric m) (marshal_metric-Passes l small m h)
      refl

marshal-Passes :
    (l : ℕ) (small : l < 2 ^ 63) (from lists : List Metric)
    → All IsMetric lists
    → Passes (metrics_field l) l small from (from ++ lists) (marshal lists) []
unfolding marshal
marshal-Passes l small from [] h =
    subst (λ x. Passes (metrics_field l) l small from x [] []) (sym (append-nil from))
      (nothing-Passes (metrics_field l) l small from [])
marshal-Passes l small from (m ∷ lists) (h, hs) =
    encode_message-Passes (metrics_field l) l small 10 IsTag-1_2 from unmarshal_metric
      (λ x. from ++ x ∷ []) (λ rest bytes. refl) (marshal_metric m) m (marshal lists)
      (unmarshal-marshal_metric m h)
    ▸ subst (λ x. Passes (metrics_field l) l small (from ++ m ∷ []) x (marshal lists) [])
        (append_assoc from (m ∷ []) lists) (marshal-Passes l small (from ++ m ∷ []) lists hs)

-- Metrics whose integers fit their types, whose extra fields are maps without a key twice, and whose
-- marshalled length is below 2^63, are read back by Metrics.Unmarshal from what Metrics.Marshal writes,
-- which has as many bytes as Metrics.Size says.
pub unmarshal-marshal_metrics :
    (lists : List Metric)
    → All IsMetric lists
    → length (marshal lists) < 2 ^ 63
    → (unmarshal (marshal lists) ≡ ok lists) × (length (marshal lists) ≡ size lists)
unfolding unmarshal
unmarshal-marshal_metrics lists h small =
    let l = length (marshal lists) in
    (
      fields-Passes (metrics_field l) l small (marshal lists) (marshal-Passes l small [] lists h)
          refl,
      length-marshal lists small,
    )
