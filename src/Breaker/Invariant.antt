-- ===== src/Breaker/Invariant.antt =====
-- What holds of a breaker between two calls.
use Prim.Native.Nat.{min}
use native.Mathlib.Nat.{pow-suc, mul_assoc}
use native.Mathlib.Numerals.{add-one}
use phonewave.Prelude.{
  ℕ, ◌+◌, ◌*◌, ◌^◌, ◌≤◌, ◌<◌, ◌≡◌, sym, ◌∙◌, ◌⊎◌, Bool, none, List, [], ◌∷◌, arith, if◌then◌else◌,
}
use phonewave.Prelude.Words.{slt, double, slt-ltb, double-lt}
use phonewave.Breaker.Defs.{
  CircuitBreaker, circuit_closed, DeliveryErrorInfo, is_trip, default_backoff_base,
  default_backoff_max, new_circuit_breaker, record_delivery_error, record_success, Call, event,
  pass, run, failure, success, handle, allow_pass,
}

-- The backoff stays in its range; a closed breaker has the base backoff and no reason or reset
-- time; any other has tripped.
pub record IsValid (cb : CircuitBreaker) : Type 0 where
  pub base_le : default_backoff_base ≤ cb.backoff_current
  pub le_max : cb.backoff_current ≤ default_backoff_max
  pub closed_fresh :
      cb.state ≡ circuit_closed
      → (cb.backoff_current ≡ default_backoff_base) × (cb.reset_at ≡ none) × (cb.last_reason ≡ [])
  pub open_tripped : (cb.state ≡ circuit_closed) ⊎ (0 < cb.tripped)

pub new-IsValid : IsValid new_circuit_breaker
unfolding new_circuit_breaker
new-IsValid = ground arith

-- On a valid breaker the wrapped doubling is the plain one.
pub doubled-current :
    (b : ℕ)
    → b ≤ default_backoff_max
    → (if slt default_backoff_max (double b) then default_backoff_max else double b)
      ≡ min (b * 2) default_backoff_max
doubled-current b h = ground (
  arith,
  double-lt b (omega arith),
  slt-ltb default_backoff_max (b * 2) (omega arith) (omega arith),
)

error-IsValid :
    (now : ℕ) (info : DeliveryErrorInfo) (cb : CircuitBreaker)
    → IsValid cb
    → IsValid (record_delivery_error now info cb)
unfolding record_delivery_error
error-IsValid now info cb h = ground (arith, doubled-current cb.backoff_current h.le_max)

success-IsValid : (cb : CircuitBreaker) → IsValid cb → IsValid (record_success cb)
unfolding record_success
success-IsValid cb h = ground arith

allow_pass-IsValid :
    (now : ℕ) (done : Bool) (cb : CircuitBreaker) → IsValid cb → IsValid (allow_pass now done cb).0
unfolding allow_pass
allow_pass-IsValid now done cb h = ground arith

-- How many transient errors stand behind the last success; `k` stood before the list.
pub trips : ℕ → List Call → ℕ
unfolding is_trip
trips k [] = k
trips k (event (failure now info) ∷ calls) = trips (if is_trip info then k + 1 else k) calls
trips k (event success ∷ calls) = trips 0 calls
trips k (pass now done ∷ calls) = trips k calls

abbrev capped : ℕ → ℕ
capped k = min (default_backoff_base * 2 ^ k) default_backoff_max

pow-step : (k : ℕ) → default_backoff_base * 2 ^ (k + 1) ≡ default_backoff_base * 2 ^ k * 2
pow-step k = rw add-one (rw pow-suc (sym (mul_assoc default_backoff_base (2 ^ k) 2)))

error-capped :
    (now : ℕ) (info : DeliveryErrorInfo) (cb : CircuitBreaker) (k : ℕ)
    → IsValid cb
    → cb.backoff_current ≡ capped k
    → (record_delivery_error now info cb).backoff_current
      ≡ capped (if is_trip info then k + 1 else k)
unfolding record_delivery_error
error-capped now info cb k h e =
    ground (arith, doubled-current cb.backoff_current h.le_max, pow-step k)

success-capped : (cb : CircuitBreaker) → IsValid cb → (record_success cb).backoff_current ≡ capped 0
unfolding record_success
success-capped cb h = ground arith

pass-capped :
    (now : ℕ) (done : Bool) (cb : CircuitBreaker)
    → (allow_pass now done cb).0.backoff_current ≡ cb.backoff_current
unfolding allow_pass
pass-capped now done cb = ground arith

run-trips :
    (k : ℕ) (calls : List Call) (cb : CircuitBreaker)
    → IsValid cb
    → cb.backoff_current ≡ capped k
    → IsValid (run calls cb) × ((run calls cb).backoff_current ≡ capped (trips k calls))
unfolding run trips handle
run-trips k [] cb h e = (h, e)
run-trips k (event (failure now info) ∷ calls) cb h e =
    run-trips (if is_trip info then k + 1 else k) calls (record_delivery_error now info cb)
      (error-IsValid now info cb h) (error-capped now info cb k h e)
run-trips k (event success ∷ calls) cb h e =
    run-trips 0 calls (record_success cb) (success-IsValid cb h) (success-capped cb h)
run-trips k (pass now done ∷ calls) cb h e =
    run-trips k calls (allow_pass now done cb).0 (allow_pass-IsValid now done cb h)
      (pass-capped now done cb ∙ e)

-- After any calls on a new breaker the invariant holds, and the backoff is thirty seconds doubled
-- once for each transient error since the last success, or ten minutes if that is less.
pub run_backoff :
    (calls : List Call)
    → IsValid (run calls new_circuit_breaker)
      × ((run calls new_circuit_breaker).backoff_current
          ≡ min (default_backoff_base * 2 ^ trips 0 calls) default_backoff_max)
unfolding new_circuit_breaker
run_backoff calls = run-trips 0 calls new_circuit_breaker new-IsValid (omega arith)
