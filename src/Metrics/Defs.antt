-- ===== src/Metrics/Defs.antt =====
-- AggregateHealthTimeSeries. A time is a number of nanoseconds, a size of buckets is positive. Arguments:
-- `ratio` is the quotient of two ints as a float64 (its bits), `latency_of` is json.Unmarshal of
-- a payload into latency_ms (an int64 as its bit pattern), `show` is time.Duration.String.
use phonewave.Prelude.{
  ℕ, zero, suc, ◌+◌, ◌-◌, ◌*◌, ◌/◌, ◌%◌, Bool, not, ◌&&◌, ◌||◌, Option, none, some, List, [], ◌∷◌,
  Text, ◌==◌, nat_eq, ltb, if◌then◌else◌,
}
use phonewave.Prelude.Words.{word, slt, add}
use phonewave.EventStore.{Event, delivery_completed, delivery_failed, error_retried}

pub record DeliveryMetrics : Type 0 where
  pub delivered : ℕ
  pub failed : ℕ
  pub retried : ℕ

unfoldable pub success_rate : (ℕ → ℕ → ℕ) → DeliveryMetrics → ℕ
success_rate ratio m =
    let total = m.delivered + m.failed in if nat_eq total 0 then 0 else ratio m.delivered total

pub record Accumulator : Type 0 where
  pub counts : DeliveryMetrics
  pub total_latency : ℕ
  pub latency_count : ℕ

pub record BucketMetrics : Type 0 where
  pub start : ℕ
  pub counts : DeliveryMetrics
  pub rate : ℕ
  pub avg_latency_ms : Option ℕ

pub record HealthTimeSeries : Type 0 where
  pub generated_at : ℕ
  pub window : Text
  pub bucket_size : Text
  pub buckets : List BucketMetrics
  pub totals : DeliveryMetrics

-- A window that ends before it starts has one bucket, as one without any time has: `-` stops at 0.
unfoldable pub num_buckets : ℕ → ℕ → ℕ → ℕ
num_buckets start size now =
    let whole = (now - start) / size in
    let all = if ltb 0 ((now - start) % size) then whole + 1 else whole in
    if nat_eq all 0 then 1 else all

abbrev pub no_deliveries : DeliveryMetrics
no_deliveries = record { delivered = 0; failed = 0; retried = 0 }

abbrev pub empty_bucket : Accumulator
empty_bucket = record { counts = no_deliveries; total_latency = 0; latency_count = 0 }

-- make([]accumulator, n)
unfoldable pub make_buckets : ℕ → List Accumulator
make_buckets zero = []
make_buckets (suc n) = empty_bucket ∷ make_buckets n

-- The branch of the switch, on the counts of a bucket or of the whole window.
unfoldable pub tally : Text → DeliveryMetrics → DeliveryMetrics
tally event_type m =
    if event_type == delivery_completed
    then record m { delivered = m.delivered + 1 }
    else if event_type == delivery_failed
    then record m { failed = m.failed + 1 }
    else if event_type == error_retried
    then record m { retried = m.retried + 1 }
    else m

abbrev add_latency : Option ℕ → Accumulator → Accumulator
add_latency none acc = acc
add_latency (some ms) acc =
    if slt 0 ms
    then record acc {
      total_latency = add acc.total_latency ms;
      latency_count = acc.latency_count + 1;
    }
    else acc

unfoldable pub tally_bucket : (Text → Option ℕ) → Event → Accumulator → Accumulator
unfolding tally
tally_bucket latency_of ev acc =
    let counted = record acc { counts = tally ev.event_type acc.counts } in
    if ev.event_type == delivery_completed && not (ev.payload == [])
    then add_latency (latency_of ev.payload) counted
    else counted

-- buckets[i] changed. No index is out of range.
unfoldable pub update_at {ℓ} : {A : Type ℓ} → (A → A) → ℕ → List A → List A
update_at change i [] = []
update_at change zero (x ∷ xs) = change x ∷ xs
update_at change (suc i) (x ∷ xs) = x ∷ update_at change i xs

unfoldable pub bucket_index : ℕ → ℕ → ℕ → ℕ → ℕ
bucket_index start size n at = let i = (at - start) / size in if ltb i n then i else n - 1

abbrev pub outside : ℕ → ℕ → ℕ → Bool
outside start now at = ltb at start || ltb now at

-- One round of the loop over the events, on the buckets and the totals.
unfoldable pub count_event :
    (Text → Option ℕ)
    → ℕ
    → ℕ
    → ℕ
    → ℕ
    → Event
    → List Accumulator × DeliveryMetrics
    → List Accumulator × DeliveryMetrics
unfolding update_at bucket_index tally tally_bucket
count_event latency_of start size now n ev s = if outside start now ev.timestamp then s else (
  update_at (tally_bucket latency_of ev) (bucket_index start size n ev.timestamp) s.0,
  tally ev.event_type s.1,
)

unfoldable pub count_events :
    (Text → Option ℕ)
    → ℕ
    → ℕ
    → ℕ
    → ℕ
    → List Event
    → List Accumulator × DeliveryMetrics
    → List Accumulator × DeliveryMetrics
unfolding count_event
count_events latency_of start size now n [] s = s
count_events latency_of start size now n (ev ∷ evs) s =
    count_events latency_of start size now n evs (count_event latency_of start size now n ev s)

-- a / b of an int64 and a positive int, towards zero
abbrev quotient : ℕ → ℕ → ℕ
quotient a b = if slt a 0 then (word - (word - a) / b) % word else a / b

unfoldable pub bucket_metrics : (ℕ → ℕ → ℕ) → ℕ → ℕ → ℕ → Accumulator → BucketMetrics
unfolding success_rate
bucket_metrics ratio start size i acc = record {
  start = start + i * size;
  counts = acc.counts;
  rate = success_rate ratio acc.counts;
  avg_latency_ms =
      if ltb 0 acc.latency_count then some (quotient acc.total_latency acc.latency_count) else none;
}

-- The loop over the buckets, from the i-th.
unfoldable pub all_metrics : (ℕ → ℕ → ℕ) → ℕ → ℕ → ℕ → List Accumulator → List BucketMetrics
unfolding bucket_metrics
all_metrics ratio start size i [] = []
all_metrics ratio start size i (acc ∷ accs) =
    bucket_metrics ratio start size i acc ∷ all_metrics ratio start size (i + 1) accs

unfoldable pub aggregate_health_time_series :
    (ℕ → ℕ → ℕ) → (Text → Option ℕ) → (ℕ → Text) → List Event → ℕ → ℕ → ℕ → HealthTimeSeries
unfolding num_buckets make_buckets count_events all_metrics
aggregate_health_time_series ratio latency_of show events start size now =
    let n = num_buckets start size now in
    let s = count_events latency_of start size now n events (make_buckets n, no_deliveries) in
    record {
      generated_at = now;
      window = show ((size * n) % word);
      bucket_size = show size;
      buckets = all_metrics ratio start size 0 s.0;
      totals = s.1;
    }
