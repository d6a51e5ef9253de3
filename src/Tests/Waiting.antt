-- ===== src/Tests/Waiting.antt =====
-- Backoffs, budgets and the breaker.
use Prim.Native.Nat.{min}
use phonewave.Prelude.{
  ◌+◌, ◌-◌, ◌*◌, ◌^◌, ◌/◌, ◌≤◌, ◌≡◌, Bool, true, false, none, some, List, [], ◌∷◌, arith,
}
use phonewave.Provider.Budget.{Tracker}
use phonewave.Backoff.{RetryBackoff, new_retry_backoff, next}
use phonewave.Backoff.Streak.{IsValid, streak, run_interval, next_bounds}
use phonewave.Breaker.{
  CircuitBreaker, circuit_open, circuit_half_open, second, default_backoff_base,
  default_backoff_max, new_circuit_breaker, DeliveryErrorInfo, transient, Event, failure, success,
  Call, event, pass, is_open, allow_pass, allow, admitted, wait_duration, handle,
}
use phonewave.Breaker.Invariant.{trips, run_backoff}
use phonewave.Breaker.Waiting.{quiet, allow_returns}

abbrev budget : Tracker
budget = record { initial = 3; consumed = 1 }

abbrev outcomes : List Bool
outcomes = false ∷ true ∷ false ∷ false ∷ []

abbrev interval_run : RetryBackoff
interval_run = phonewave.Backoff.run (new_retry_backoff 60 300) outcomes

run_interval_example :
    IsValid interval_run × (interval_run.current ≡ min (60 * 2 ^ streak 0 outcomes) 300)
run_interval_example = run_interval 60 300 outcomes (omega arith) (omega arith) (omega arith)

next_bounds_example :
    (interval_run.current - interval_run.current / 4 ≤ next interval_run 0)
    × (next interval_run 0 ≤ interval_run.current + interval_run.current / 4)
next_bounds_example = next_bounds interval_run 0 run_interval_example.0 (omega arith)

-- A rate limit with no time of reset.
abbrev limited : DeliveryErrorInfo
limited = record { kind = transient; reset_at = none }

abbrev calls : List Call
calls = event (failure 5 limited) ∷ event success ∷ event (failure 8 limited) ∷ pass 9 false ∷ []

run_backoff_example :
    phonewave.Breaker.Invariant.IsValid (phonewave.Breaker.run calls new_circuit_breaker)
    × ((phonewave.Breaker.run calls new_circuit_breaker).backoff_current
        ≡ min (default_backoff_base * 2 ^ trips 0 calls) default_backoff_max)
run_backoff_example = run_backoff calls

-- A breaker open until 100, as a window of reset says.
abbrev open_breaker : CircuitBreaker
open_breaker = record {
  state = circuit_open;
  reset_at = some 100;
  backoff_current = 60 * second;
  tripped = 1;
  last_trip = 40;
  last_reason = [];
  notify = 1;
}

allow_returns_example :
    (allow (quiet 50 ∷ quiet 100 ∷ quiet (101 + second) ∷ []) open_breaker).1 ≡ some admitted
unfolding wait_duration
allow_returns_example = allow_returns open_breaker 50 100 (101 + second) (omega arith) (omega arith)
