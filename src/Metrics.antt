-- ===== src/Metrics.antt =====
-- metrics/metrics.go and metrics/options.go: what is reported, the bounded channel of the reports, and
-- the loop that gathers them into batches.
pub mod Laws
pub mod Obj
pub mod Wire
mod Runs
use gffg.Prelude.{
  ℕ, zero, suc, ◌-◌, ◌≡◌, Option, none, some, List, [], ◌∷◌, ◌++◌, Bool, true, false, length, take,
  drop, ltb, leb, if◌then◌else◌, ◌==◌,
}
use gffg.Prelude.Int.{ℤ, pos, negsuc}
use gffg.Prelude.Text.{Text, codes}

-- `MaxCh`, `MaxPush`.
abbrev pub max_ch : ℕ
max_ch = 10000

abbrev pub max_push : ℕ
max_push = 1000

-- The part of a metric that its type selects.
pub data Detail : Type 0 where
  gauge : Text → Text → Bool → ℤ → Detail
  counted : Text → Text → Detail
  summed : Text → Detail

-- `proto.Metric`.
pub record Metric : Type 0 where
  pub host : Text
  pub svrname : Text
  pub micro : ℤ
  pub detail : Detail

-- The name that the options set, or the configured one where that is empty. `ServeName` is the only
-- option, so that the last one counts.
abbrev serve_name : Text → List Text → Text → Text
serve_name configured [] [] = configured
serve_name configured [] (c ∷ name) = c ∷ name
serve_name configured (opt ∷ opts) name = serve_name configured opts opt

-- `if 0 > duration { duration = 0 }`
abbrev clamped : ℤ → ℤ
clamped (pos n) = pos n
clamped (negsuc n) = pos 0

module _ (host configured : Text) where
  abbrev pub reported : List Text → ℤ → Detail → Metric
  reported opts micro detail = record {
    host = host;
    svrname = serve_name configured opts [];
    micro = micro;
    detail = detail;
  }

  -- `Counter`, `CounterByAdd`, `MethodCode` and `Summary`: the metric that goes to `to`. `duration` is the time
  -- since the start.
  abbrev pub counter : Text → Text → List Text → Metric
  counter type value opts = reported opts (pos 0) (gauge type value true (pos 0))

  abbrev pub counter_by_add : Text → Text → ℤ → List Text → Metric
  counter_by_add type value n opts = reported opts (pos 0) (gauge type value false n)

  abbrev pub method_code : Text → Text → List Text → Metric
  method_code method code opts = reported opts (pos 0) (counted method code)

  abbrev pub summary : Text → ℤ → List Text → Metric
  summary method duration opts = reported opts (clamped duration) (summed method)

-- The loop of `combine`; `none` is out of fuel.
abbrev put_batch : List Metric → Option (List (List Metric)) → Option (List (List Metric))
put_batch batch none = none
put_batch batch (some batches) = some (batch ∷ batches)

pub combine_loop : ℕ → List Metric → Option (List (List Metric))
combine_loop zero its = none
combine_loop (suc fuel) its =
    let rest = put_batch (take max_push its) (combine_loop fuel (drop max_push its)) in
    if ltb max_push (length its) then rest else some (its ∷ [])

-- `combine`: the batches that it passes to `report`, in order.
unfoldable pub combine : List Metric → Option (List (List Metric))
unfolding combine_loop
combine its = if length its == 0 then some [] else combine_loop (length its) its

-- The channel, the list that the loop gathers, and the batches reported so far.
pub record Reporter : Type 0 where
  pub m_ch : List Metric
  pub lists : List Metric
  pub batches : List (List Metric)

pub data Sent : Type 0 where
  accepted : Sent
  dropped : Sent
  blocked : Sent

-- `to`; `blocked` is the send on a full channel.
unfoldable pub to : Metric → Reporter → Reporter × Sent
to it r =
    if ltb (max_ch - 10) (length r.m_ch)
    then (r, dropped)
    else if leb max_ch (length r.m_ch)
    then (r, blocked)
    else (record r { m_ch = r.m_ch ++ it ∷ [] }, accepted)

-- The two cases of the `select` in `loop`.
abbrev gathered : Reporter → List Metric → Reporter
gathered r [] = r
gathered r (it ∷ rest) = record r { m_ch = rest; lists = r.lists ++ it ∷ [] }

unfoldable pub gather : Reporter → Reporter
gather r = gathered r r.m_ch

abbrev flushed : Reporter → Option (List (List Metric)) → Reporter
flushed r none = r
flushed r (some batches) = record r { lists = []; batches = r.batches ++ batches }

unfoldable pub tick : Reporter → Reporter
unfolding combine
tick r = flushed r (combine r.lists)

-- `report`: what it hands to the Kafka producer, given `Metrics.Marshal`.
abbrev produced : Option Text → List Text
produced none = []
produced (some buffer) = buffer ∷ []

unfoldable pub report : (List Metric → Option Text) → List Metric → List Text
report marshal it = produced (marshal it)
