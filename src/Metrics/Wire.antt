-- ===== src/Metrics/Wire.antt =====
-- The metrics of metrics/metrics.go as the messages of proto/packet.pb.go, and `report` with their Marshal.
pub mod Laws
mod Runs
use gffg.Prelude.{◌≡◌, none, some, Option, List, [], ◌∷◌, ◌++◌, map}
use gffg.Prelude.Int.{ℤ, pos}
use gffg.Prelude.Text.{Text}
use gffg.Proto.Batch
use gffg.Metrics.{Detail, gauge, counted, summed, Metric, report}

-- `MetricType_CounterType`, `MetricType_GaugeType`, `MetricType_SummaryType`.
abbrev pub counter_type : ℤ
counter_type = pos 0

abbrev pub gauge_type : ℤ
gauge_type = pos 1

abbrev pub summary_type : ℤ
summary_type = pos 2

abbrev with_detail : Detail → Batch.Metric → Batch.Metric
with_detail (gauge type value inc add) m = record m {
  type = gauge_type;
  gauge = some (record { type = type; value = value; add = add; inc = inc; extra = [] });
}
with_detail (counted method code) m = record m {
  type = counter_type;
  counter = some (record { method = method; code = code; extra = [] });
}
with_detail (summed method) m = record m {
  type = summary_type;
  summary = some (record { method = method; extra = [] });
}

-- The `proto.Metric` that `Counter`, `CounterByAdd`, `MethodCode` and `Summary` make.
abbrev pub message_of : Metric → Batch.Metric
message_of it =
    with_detail it.detail
      (record (Batch.no_metric) { host = it.host; micro = it.micro; svrname = it.svrname })

-- `it.Marshal()` in `report`; it returns no error.
abbrev pub marshal_batch : List Metric → Option Text
unfolding Batch.marshal
marshal_batch it = some (Batch.marshal (map message_of it))

-- What `combine` hands to the Kafka producer, batch by batch.
unfoldable pub report_all : List (List Metric) → List Text
unfolding marshal_batch report
report_all [] = []
report_all (batch ∷ batches) = report marshal_batch batch ++ report_all batches
