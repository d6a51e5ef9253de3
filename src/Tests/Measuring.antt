-- ===== src/Tests/Measuring.antt =====
-- The series of deliveries.
use phonewave.Prelude.{ℕ, ◌≡◌, refl, Option, some, List, [], ◌∷◌, Text, codes}
use phonewave.EventStore.{Event, delivery_completed, delivery_failed}
use phonewave.Metrics.{num_buckets}

abbrev event_at : Text → ℕ → Event
event_at event_type at = record {
  schema_version = 1;
  id = codes "e";
  event_type = event_type;
  timestamp = at;
  payload = codes "{}";
  session_id = [];
  correlation_id = [];
  causation_id = [];
  aggregate_id = [];
  aggregate_type = [];
  seq_nr = 1;
}

-- The last one is at the very end of the window.
abbrev events : List Event
events =
    event_at delivery_completed 100
    ∷ event_at delivery_failed 104
    ∷ event_at delivery_completed 90
    ∷ event_at delivery_completed 120
    ∷ []

-- A rate is the number of successes, a latency is 7, and a duration is shown as nothing.
abbrev first : ℕ → ℕ → ℕ
first a b = a

abbrev seven : Text → Option ℕ
seven t = some 7

abbrev silent : ℕ → Text
silent d = []

two_buckets : num_buckets 100 10 120 ≡ 2
unfolding num_buckets
two_buckets = refl
