-- ===== src/Backoff/Streak.antt =====
-- The retry interval is set by the failures since the last success.
use Prim.Native.Nat.{min}
use native.Mathlib.Nat.{pow-suc, mul_assoc}
use native.Mathlib.Numerals.{add-one}
use phonewave.Prelude.{
  ℕ, ◌+◌, ◌-◌, ◌*◌, ◌/◌, ◌^◌, ◌≤◌, ◌<◌, ◌≡◌, refl, sym, Bool, true, false, List, [], ◌∷◌, arith,
}
use phonewave.Prelude.Words.{quarter, add, sub, slt-ltb, double-lt}
use phonewave.Backoff.{RetryBackoff, new_retry_backoff, next, record_success, record_failure, run}

-- The interval lies between the base and the maximum, and doubling it does not overflow.
pub record IsValid (b : RetryBackoff) : Type 0 where
  pub base_positive : 0 < b.base
  pub base_le : b.base ≤ b.current
  pub le_max : b.current ≤ b.max
  pub in_range : b.max < 2 ^ 62

new-IsValid :
    (base max : ℕ) → 0 < base → base ≤ max → max < 2 ^ 62 → IsValid (new_retry_backoff base max)
unfolding new_retry_backoff
new-IsValid base max h k l = omega arith

success-IsValid : (b : RetryBackoff) → IsValid b → IsValid (record_success b)
unfolding record_success
success-IsValid b h = omega arith

-- On a valid interval the wrapped arithmetic of RecordFailure is the plain one.
failure-current :
    (b : RetryBackoff) → IsValid b → (record_failure b).current ≡ min (b.current * 2) b.max
unfolding record_failure
failure-current b h = ground (
  arith,
  double-lt b.current (omega arith),
  slt-ltb b.max (b.current * 2) (omega arith) (omega arith),
)

failure-bounds :
    (b : RetryBackoff) → ((record_failure b).base ≡ b.base) × ((record_failure b).max ≡ b.max)
unfolding record_failure
failure-bounds b = (refl, refl)

failure-IsValid : (b : RetryBackoff) → IsValid b → IsValid (record_failure b)
failure-IsValid b h = record {
  base_positive = unfold record_failure in h.base_positive;
  base_le = ground (arith, failure-current b h, failure-bounds b);
  le_max = ground (arith, failure-current b h, failure-bounds b);
  in_range = unfold record_failure in h.in_range;
}

-- How many failures stand behind the last success; `k` stood before the list.
pub streak : ℕ → List Bool → ℕ
streak k [] = k
streak k (true ∷ outcomes) = streak 0 outcomes
streak k (false ∷ outcomes) = streak (k + 1) outcomes

abbrev capped : RetryBackoff → ℕ → ℕ
capped b k = min (b.base * 2 ^ k) b.max

pow-step : (b : RetryBackoff) (k : ℕ) → b.base * 2 ^ (k + 1) ≡ b.base * 2 ^ k * 2
pow-step b k = rw add-one (rw pow-suc (sym (mul_assoc b.base (2 ^ k) 2)))

capped-suc :
    (b : RetryBackoff) (k : ℕ)
    → IsValid b
    → b.current ≡ capped b k
    → (record_failure b).current ≡ capped b (k + 1)
capped-suc b k h e = omega (arith, failure-current b h, pow-step b k)

success-capped :
    (b : RetryBackoff) → IsValid b → (record_success b).current ≡ capped (record_success b) 0
unfolding record_success
success-capped b h = omega arith

run-streak :
    (b : RetryBackoff) (k : ℕ) (outcomes : List Bool)
    → IsValid b
    → b.current ≡ capped b k
    → IsValid (run b outcomes) × ((run b outcomes).current ≡ capped b (streak k outcomes))
unfolding run streak record_failure record_success
run-streak b k [] h e = (h, e)
run-streak b k (true ∷ outcomes) h e =
    run-streak (record_success b) 0 outcomes (success-IsValid b h) (success-capped b h)
run-streak b k (false ∷ outcomes) h e =
    run-streak (record_failure b) (k + 1) outcomes (failure-IsValid b h) (capped-suc b k h e)

-- Whatever the outcomes of the cycles so far, the interval is the base doubled once for each
-- failure since the last success, or the maximum if that is less. It never leaves the range from
-- base to maximum, if these are positive, in order and below 2 ^ 62.
pub run_interval :
    (base max : ℕ) (outcomes : List Bool)
    → 0 < base
    → base ≤ max
    → max < 2 ^ 62
    → IsValid (run (new_retry_backoff base max) outcomes)
      × ((run (new_retry_backoff base max) outcomes).current
          ≡ min (base * 2 ^ streak 0 outcomes) max)
unfolding new_retry_backoff
run_interval base max outcomes h k l =
    run-streak (new_retry_backoff base max) 0 outcomes (new-IsValid base max h k l) (omega arith)

-- Jitter moves the interval by a quarter at most, in both directions, and never wraps, if the backoff
-- is valid and the draw is at most twice a quarter of its interval.
pub next_bounds :
    (b : RetryBackoff) (draw : ℕ)
    → IsValid b
    → draw ≤ 2 * (b.current / 4)
    → (b.current - b.current / 4 ≤ next b draw) × (next b draw ≤ b.current + b.current / 4)
unfolding next quarter add sub
next_bounds b draw h d = ground arith
