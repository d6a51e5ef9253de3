-- ===== src/Metrics/Series.antt =====
-- The series: the totals and the buckets count the same events.
use phonewave.Prelude.{List, [], ◌∷◌}
use phonewave.Metrics.Defs.{DeliveryMetrics, Accumulator, BucketMetrics, no_deliveries}
use phonewave.Metrics.Totals.{plus}

-- The sum of the counts of all buckets.
unfoldable sum_buckets : List Accumulator → DeliveryMetrics
sum_buckets [] = no_deliveries
sum_buckets (b ∷ bs) = plus b.counts (sum_buckets bs)

unfoldable pub sum_counts : List BucketMetrics → DeliveryMetrics
sum_counts [] = no_deliveries
sum_counts (b ∷ bs) = plus b.counts (sum_counts bs)
