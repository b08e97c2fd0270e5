-- ===== src/Metrics/Wire/Runs.antt =====
-- A batch of a call's code, a gauge and a duration.
use gffg.Prelude.{◌^◌, ◌<◌, ◌≡◌, arith, some, List, [], ◌∷◌, length, map}
use gffg.Prelude.Int.{pos, negsuc, to_uint64}
use gffg.Prelude.Text.{codes}
use gffg.Proto.Wire.{ok, encode_varint}
use gffg.Proto.Batch.{marshal, marshal_metric, marshal_counter, marshal_gauge, marshal_summary}
use gffg.Metrics.{Metric, combine, counter, counter_by_add, method_code, summary}
use gffg.Metrics.Laws.{Sized}
use gffg.Metrics.Wire.{message_of, report_all}
use gffg.Metrics.Wire.Laws.{read_all, combine-read_all}

abbrev its : List Metric
its =
    method_code (codes "h") (codes "s") (codes "Echo") (codes "0") []
    ∷ counter_by_add (codes "h") (codes "s") (codes "svr") (codes "reqs") (negsuc 4) []
    ∷ counter (codes "h") (codes "s") (codes "svr") (codes "conns") []
    ∷ summary (codes "h") (codes "s") (codes "Echo") (pos 300) []
    ∷ []

small : length (marshal (map message_of its)) < 2 ^ 63
unfolding marshal marshal_metric marshal_counter marshal_gauge marshal_summary encode_varint
    to_uint64
small = omega arith

combine-read_all_example :
    (batches : List (List Metric)) × (combine its ≡ some batches)
    × Sized batches
    × (read_all (report_all batches) ≡ ok (map message_of its))
combine-read_all_example =
    combine-read_all its
      (
        (omega arith, tt),
        ((omega arith, omega arith), ((omega arith, omega arith), ((omega arith, tt), tt))),
      )
      small
