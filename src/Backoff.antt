-- ===== src/Backoff.antt =====
-- internal/domain/retry_backoff.go: the interval between retry cycles, doubled on failure up to a
-- maximum, with jitter. Durations are int64 nanoseconds.
pub mod Streak
use phonewave.Prelude.{
  ℕ, zero, suc, ◌+◌, ◌-◌, ◌*◌, ◌/◌, ◌^◌, ◌≤◌, ◌<◌, ◌≡◌, refl, Bool, true, false, List, [], ◌∷◌,
  arith, ltb, leb, if◌then◌else◌, none,
}
use phonewave.Prelude.Words.{slt, double, quarter, add, sub, slt-ltb, double-lt}
use phonewave.Provider.{
  ProviderStateSnapshot, active_provider_state, state_waiting, reason_delivery_retry_backoff,
  resume_backoff_elapses,
}

pub record RetryBackoff : Type 0 where
  pub base : ℕ
  pub max : ℕ
  pub current : ℕ

unfoldable pub new_retry_backoff : ℕ → ℕ → RetryBackoff
new_retry_backoff base max = record { base = base; max = max; current = base }

-- Next; `draw` is what rand.Int64N returns for twice a quarter of the interval and one.
unfoldable pub next : RetryBackoff → ℕ → ℕ
next b draw = let q = quarter b.current in add b.current (sub draw q)

unfoldable pub record_success : RetryBackoff → RetryBackoff
record_success b = record b { current = b.base }

unfoldable pub record_failure : RetryBackoff → RetryBackoff
record_failure b =
    let doubled = double b.current in
    record b { current = if slt b.max doubled then b.max else doubled }

unfoldable pub snapshot : RetryBackoff → ProviderStateSnapshot
snapshot b =
    if slt b.base b.current
    then record {
      state = state_waiting;
      reason = reason_delivery_retry_backoff;
      retry_budget = 1;
      resume_at = none;
      resume_condition = resume_backoff_elapses;
    }
    else active_provider_state

-- The outcomes of retry cycles in their order, `true` for a cycle with a success.
unfoldable pub run : RetryBackoff → List Bool → RetryBackoff
run b [] = b
run b (true ∷ outcomes) = run (record_success b) outcomes
run b (false ∷ outcomes) = run (record_failure b) outcomes
