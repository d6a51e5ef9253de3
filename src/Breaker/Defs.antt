-- ===== src/Breaker/Defs.antt =====
-- CircuitBreaker. Every method holds the mutex, so it is one step on the state. Times are
-- nanoseconds; the zero time.Time is `none`. The logger is left out.
use phonewave.Prelude.{
  ℕ, ◌+◌, ◌-◌, ◌*◌, Bool, true, false, Option, none, some, List, [], ◌∷◌, Text, codes, ltb, leb,
  if◌then◌else◌,
}
use phonewave.Prelude.Words.{slt, double}
use phonewave.Provider.{
  ProviderStateSnapshot, active_provider_state, state_waiting, state_degraded, state_paused,
  reason_probe, reason_delivery_retry_backoff, resume_backoff_elapses, resume_provider_reset,
  resume_probe_succeeds,
}

pub data DeliveryErrorKind : Type 0 where
  no_error transient persistent : DeliveryErrorKind

pub record DeliveryErrorInfo : Type 0 where
  pub kind : DeliveryErrorKind
  pub reset_at : Option ℕ

abbrev pub is_transient : DeliveryErrorKind → Bool
is_transient transient = true
is_transient _ = false

unfoldable pub is_trip : DeliveryErrorInfo → Bool
is_trip info = is_transient info.kind

pub data CircuitState : Type 0 where
  circuit_closed circuit_open circuit_half_open : CircuitState

abbrev pub second : ℕ
second = 1_000_000_000

abbrev pub default_backoff_base : ℕ
default_backoff_base = 30 * second

abbrev pub default_backoff_max : ℕ
default_backoff_max = 600 * second

-- `notify` numbers the channel that the next change of state closes.
pub record CircuitBreaker : Type 0 where
  pub state : CircuitState
  pub reset_at : Option ℕ
  pub backoff_current : ℕ
  pub tripped : ℕ
  pub last_trip : ℕ
  pub last_reason : Text
  pub notify : ℕ

unfoldable pub new_circuit_breaker : CircuitBreaker
new_circuit_breaker = record {
  state = circuit_closed;
  reset_at = none;
  backoff_current = default_backoff_base;
  tripped = 0;
  last_trip = 0;
  last_reason = [];
  notify = 0;
}

unfoldable pub delivery_pause_reason : DeliveryErrorKind → Text
delivery_pause_reason transient = reason_delivery_retry_backoff
delivery_pause_reason _ = codes "delivery_error"

unfoldable pub record_delivery_error : ℕ → DeliveryErrorInfo → CircuitBreaker → CircuitBreaker
unfolding is_trip delivery_pause_reason
record_delivery_error now info cb =
    let doubled = double cb.backoff_current in
    if is_trip info
    then record {
      state = circuit_open;
      reset_at = info.reset_at;
      backoff_current = if slt default_backoff_max doubled then default_backoff_max else doubled;
      tripped = cb.tripped + 1;
      last_trip = now;
      last_reason = delivery_pause_reason info.kind;
      notify = cb.notify + 1;
    }
    else cb

abbrev pub is_closed : CircuitState → Bool
is_closed circuit_closed = true
is_closed _ = false

unfoldable pub record_success : CircuitBreaker → CircuitBreaker
record_success cb = record cb {
  state = circuit_closed;
  reset_at = none;
  backoff_current = if is_closed cb.state then cb.backoff_current else default_backoff_base;
  last_reason = [];
  notify = if is_closed cb.state then cb.notify else cb.notify + 1;
}

abbrev pub is_open_state : CircuitState → Bool
is_open_state circuit_open = true
is_open_state _ = false

unfoldable pub is_open : CircuitBreaker → Bool
is_open cb = is_open_state cb.state

-- What one pass of the loop in Allow comes to: a return, or a wait of some duration for the timer,
-- the context or the channel of the given number.
pub data Verdict : Type 0 where
  cancelled admitted : Verdict
  wait : ℕ → ℕ → Verdict

-- now.After(resetAt), or time.Since(lastTrip) > backoffCurrent
unfoldable pub is_due : ℕ → CircuitBreaker → Bool
is_due now cb = elim cb.reset_at [
  | some reset ↦ ltb reset now
  | none ↦ ltb (cb.last_trip + cb.backoff_current) now
]

-- The time left, or a second where none is left.
unfoldable pub wait_duration : ℕ → CircuitBreaker → ℕ
wait_duration now cb =
    let left : ℕ = elim cb.reset_at [
      | some reset ↦ reset - now
      | none ↦ cb.last_trip + cb.backoff_current - now
    ] in
    if leb left 0 then second else left

-- One pass of the loop in Allow, at a time `now`; `done` says that the context is cancelled.
unfoldable pub allow_pass : ℕ → Bool → CircuitBreaker → CircuitBreaker × Verdict
unfolding is_due wait_duration
allow_pass now done cb =
    if done
    then (cb, cancelled)
    else if is_open_state cb.state
    then (if is_due now cb
        then (record cb { state = circuit_half_open }, admitted)
        else (cb, wait (wait_duration now cb) cb.notify))
    else (cb, admitted)

-- What other goroutines do to the breaker.
pub data Event : Type 0 where
  failure : ℕ → DeliveryErrorInfo → Event
  success : Event

unfoldable pub handle : Event → CircuitBreaker → CircuitBreaker
unfolding record_delivery_error record_success
handle (failure now info) cb = record_delivery_error now info cb
handle success cb = record_success cb

unfoldable pub handle_all : List Event → CircuitBreaker → CircuitBreaker
unfolding handle
handle_all [] cb = cb
handle_all (e ∷ es) cb = handle_all es (handle e cb)

-- A call on the breaker: by another goroutine, or a pass of Allow.
pub data Call : Type 0 where
  event : Event → Call
  pass : ℕ → Bool → Call

unfoldable pub run : List Call → CircuitBreaker → CircuitBreaker
run [] cb = cb
run (event e ∷ calls) cb = run calls (handle e cb)
run (pass now done ∷ calls) cb = run calls (allow_pass now done cb).0

-- A pass of the loop: the time, whether the context is cancelled, and what happened to the breaker
-- since the pass before.
pub record Wake : Type 0 where
  pub now : ℕ
  pub done : Bool
  pub before : List Event

-- Allow, over the passes that its waits lead to. With no pass left it is still waiting.
unfoldable pub allow : List Wake → CircuitBreaker → CircuitBreaker × Option Verdict
allow [] cb = (cb, none)
allow (w ∷ ws) cb =
    let (cb', verdict) = allow_pass w.now w.done (handle_all w.before cb) in
    let later = allow ws cb' in
    elim verdict [
      | wait duration channel ↦ later
      | cancelled ↦ (cb', some cancelled)
      | admitted ↦ (cb', some admitted)
    ]

-- Snapshot
abbrev pub open_snapshot : Option ℕ → Text → ProviderStateSnapshot
open_snapshot (some reset) reason = record {
  state = state_paused;
  reason = reason;
  retry_budget = 0;
  resume_at = some reset;
  resume_condition = resume_provider_reset;
}
open_snapshot none reason = record {
  state = state_waiting;
  reason = reason;
  retry_budget = 0;
  resume_at = none;
  resume_condition = resume_backoff_elapses;
}

unfoldable pub snapshot : CircuitBreaker → ProviderStateSnapshot
snapshot cb = elim cb.state [
  | circuit_closed ↦ active_provider_state
  | circuit_half_open ↦ record {
    state = state_degraded;
    reason = reason_probe;
    retry_budget = 1;
    resume_at = none;
    resume_condition = resume_probe_succeeds;
  }
  | circuit_open ↦ open_snapshot cb.reset_at cb.last_reason
]
