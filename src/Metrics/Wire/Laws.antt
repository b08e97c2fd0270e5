-- ===== src/Metrics/Wire/Laws.antt =====
-- What a reader of the messages gets.
use gffg.Prelude.{
  ◌+◌, ◌^◌, ◌<◌, ◌≡◌, refl, ap, ◌∙◌, arith, All, some, List, [], ◌∷◌, ◌++◌, length, length-append,
  map,
}
use gffg.Prelude.Int.{IsInt64}
use gffg.Prelude.Text.{Text}
use mathlib.Core.Path.{subst}
use gffg.Proto.Wire.{Read, ok}
use gffg.Proto.Fields.{then_read, encode_bytes}
use gffg.Proto.Batch
use gffg.Proto.Batch.{unmarshal, marshal}
use gffg.Proto.Batch.RoundTrip.{IsMetric, unmarshal-marshal_metrics}
use gffg.Metrics.{Detail, gauge, counted, summed, Metric, report, combine}
use gffg.Metrics.Laws.{concat, Sized, combine-Sized}
use gffg.Metrics.Wire.{message_of, report_all}

-- A consumer that reads the messages and appends what they hold.
abbrev pub read_all : List Text → Read (List Batch.Metric)
read_all [] = ok []
read_all (message ∷ messages) =
    then_read (unmarshal message) (λ ms. then_read (read_all messages) (λ rest. ok (ms ++ rest)))

abbrev IntFits : Detail → Type 0
IntFits (gauge type value inc add) = IsInt64 add
IntFits (counted method code) = Unit
IntFits (summed method) = Unit

-- A metric of which the counts fit an int64.
abbrev pub IsReportable : Metric → Type 0
IsReportable it = IsInt64 it.micro × IntFits it.detail

message_of-IsMetric : (it : Metric) → IsReportable it → IsMetric (message_of it)
message_of-IsMetric it (m, d) = go it.detail d
  where
    go : (detail : Detail) → IntFits detail → IsMetric (message_of (record it { detail = detail }))
    go (gauge type value inc add) d = record {
      type_fits = omega arith;
      micro_fits = m;
      extra_map = refl;
      counter_map = tt;
      gauge_value = (d, refl);
      summary_map = tt;
    }
    go (counted method code) d = record {
      type_fits = omega arith;
      micro_fits = m;
      extra_map = refl;
      counter_map = refl;
      gauge_value = tt;
      summary_map = tt;
    }
    go (summed method) d = record {
      type_fits = omega arith;
      micro_fits = m;
      extra_map = refl;
      counter_map = tt;
      gauge_value = tt;
      summary_map = refl;
    }

map-IsMetric : (its : List Metric) → All IsReportable its → All IsMetric (map message_of its)
map-IsMetric [] h = tt
map-IsMetric (it ∷ its) (h, hs) = (message_of-IsMetric it h, map-IsMetric its hs)

front-IsReportable : (xs ys : List Metric) → All IsReportable (xs ++ ys) → All IsReportable xs
front-IsReportable [] ys h = tt
front-IsReportable (x ∷ xs) ys (h, hs) = (h, front-IsReportable xs ys hs)

back-IsReportable : (xs ys : List Metric) → All IsReportable (xs ++ ys) → All IsReportable ys
back-IsReportable [] ys h = h
back-IsReportable (x ∷ xs) ys (h, hs) = back-IsReportable xs ys hs

map-append :
    (xs ys : List Metric) → map message_of (xs ++ ys) ≡ map message_of xs ++ map message_of ys
map-append [] ys = refl
map-append (x ∷ xs) ys = ap (◌∷◌ (message_of x)) (map-append xs ys)

length-marshal_append :
    (xs ys : List Batch.Metric)
    → length (marshal (xs ++ ys)) ≡ length (marshal xs) + length (marshal ys)
unfolding marshal
length-marshal_append [] ys = omega arith
length-marshal_append (x ∷ xs) ys =
    let first = encode_bytes 10 (Batch.marshal_metric x) in
    omega (
      arith,
      length-append first (marshal (xs ++ ys)),
      length-append first (marshal xs),
      length-marshal_append xs ys,
    )

read_all-report_all :
    (batches : List (List Metric))
    → All IsReportable (concat batches)
    → length (marshal (map message_of (concat batches))) < 2 ^ 63
    → read_all (report_all batches) ≡ ok (map message_of (concat batches))
unfolding report_all report
read_all-report_all [] h small = refl
read_all-report_all (batch ∷ batches) h small =
    let both =
      ap (λ x. length (marshal x)) (map-append batch (concat batches))
      ∙ length-marshal_append (map message_of batch) (map message_of (concat batches)) in
    rw
      (
        (unmarshal-marshal_metrics (map message_of batch)
            (map-IsMetric batch (front-IsReportable batch (concat batches) h))
            (omega (arith, both, small))).0,
        read_all-report_all batches (back-IsReportable batch (concat batches) h)
            (omega (arith, both, small)),
        map-append batch (concat batches),
      )
      refl

-- combine ends on every list of metrics whose counts fit an int64 and whose messages take fewer
-- than 2^63 bytes, with batches of one to a thousand metrics; and a reader that unmarshals each
-- message that goes to the Kafka producer, and appends what it holds, gets the metrics of the list,
-- in order.
pub combine-read_all :
    (its : List Metric)
    → All IsReportable its
    → length (marshal (map message_of its)) < 2 ^ 63
    → (batches : List (List Metric)) × (combine its ≡ some batches)
      × Sized batches
      × (read_all (report_all batches) ≡ ok (map message_of its))
combine-read_all its h small =
    let (batches, e, same, sized) = combine-Sized its in
    (
      batches,
      e,
      sized,
      subst
          (λ x.
            All IsReportable x
            → length (marshal (map message_of x)) < 2 ^ 63
            → read_all (report_all batches) ≡ ok (map message_of x))
          same (read_all-report_all batches) h small,
    )
