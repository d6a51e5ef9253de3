-- ===== src/Daemon/Loop.antt =====
-- The event loop of Daemon.Run in daemon_runner.go, with its start, and EffectiveIdleTimeout of
-- internal/domain/daemon.go. A received event waits in the buffered channel for the worker, which
-- handles one after the other.
use phonewave.Prelude.{
  ℕ, ◌*◌, ◌%◌, Bool, true, false, not, ◌&&◌, Option, none, some, List, [], ◌∷◌, ◌++◌, if◌then◌else◌,
  is_empty, leb, nat_eq, length,
}
use phonewave.Prelude.Words.{word, slt}
use phonewave.Provider.{ProviderStateSnapshot, active_provider_state}
use phonewave.Backoff.{RetryBackoff, new_retry_backoff, next}
use phonewave.Breaker.{CircuitBreaker, new_circuit_breaker, Wake, allow, admitted, Verdict}
use phonewave.Store.{Row, ItemOutcome, recover_unflushed, flush_deliveries}
use phonewave.Delivery.{State}
use phonewave.Daemon.Defs.{Daemon, Options, Happening, FileEvent, handle_event}
use phonewave.Daemon.Cycle.{CycleInput, retry_cycle}

abbrev max_idle_timeout : ℕ
max_idle_timeout = 86_400 * 1_000_000_000

-- 0 disables the timer.
unfoldable pub effective_idle_timeout : ℕ → ℕ
effective_idle_timeout timeout =
    if slt timeout 0 then 0 else if nat_eq timeout 0 then max_idle_timeout else timeout

-- What the loop and the worker keep. `retry_wait` is the wait that the retry timer was last set to, and
-- `snapshot` the provider state that was last written.
pub record LoopState : Type 0 where
  pub daemon : Daemon
  pub backoff : Option RetryBackoff
  pub waiting : List FileEvent
  pub retry_wait : ℕ
  pub snapshot : ProviderStateSnapshot
  pub stopped : Bool

-- What does not change: `capacity` is that of the channel, `idle` the effective timeout, and what
-- happens during an event depends on the event.
pub record LoopEnv : Type 0 where
  pub options : Options
  pub happening : FileEvent → Happening
  pub capacity : ℕ
  pub idle : ℕ

-- A case of the select, or a round of the worker. A retry comes with its cycle, the passes of Allow,
-- the draw for the next wait, and whether the provider state can be written.
pub data Input : Type 0 where
  cancel channel_closed watch_error idle_elapsed work : Input
  receive : FileEvent → Input
  retry : CycleInput → List Wake → ℕ → Bool → Input

-- Recovery at start: `queried` and `selected` say whether the queries succeed.
unfoldable pub recover_deliveries : Bool → Bool → (Row → ItemOutcome) → State → State
unfolding recover_unflushed flush_deliveries
recover_deliveries queried selected world s =
    let after = (flush_deliveries selected world s.rows s.files).0 in
    if queried && not (is_empty (recover_unflushed s.rows))
    then record s { rows = after.rows; files = after.files }
    else s

-- The loop starts; without an interval of retries there is no breaker.
unfoldable pub start_loop : ℕ → ℕ → Bool → ProviderStateSnapshot → Daemon → LoopState
start_loop interval draw writable old d =
    let backoff = new_retry_backoff interval ((interval * 32) % word) in
    let enabled = slt 0 interval in
    record {
      daemon = if enabled then record d { breaker = some new_circuit_breaker } else d;
      backoff = if enabled then some backoff else none;
      waiting = [];
      retry_wait = if enabled then next backoff draw else 0;
      snapshot = if writable then active_provider_state else old;
      stopped = false;
    }

-- The worker, on the events of the channel.
unfoldable pub handle_each : LoopEnv → List FileEvent → Daemon → Daemon
unfolding handle_event
handle_each env [] d = d
handle_each env (ev ∷ evs) d =
    handle_each env evs (handle_event env.options (env.happening ev) ev d)

abbrev pub take_first : LoopEnv → List FileEvent → LoopState → LoopState
take_first env [] s = s
take_first env (ev ∷ evs) s = record s {
  daemon = handle_event env.options (env.happening ev) ev s.daemon;
  waiting = evs;
}

-- One round of the worker.
unfoldable pub work_once : LoopEnv → LoopState → LoopState
work_once env s = take_first env s.waiting s

-- Sending to a full channel waits for the worker.
unfoldable pub send_event : LoopEnv → FileEvent → LoopState → LoopState
unfolding work_once
send_event env ev s =
    let ready = if leb env.capacity (length s.waiting) then work_once env s else s in
    record ready { waiting = ready.waiting ++ ev ∷ [] }

-- close(d.eventCh) and the wait for the worker, which handles what is left.
unfoldable pub stop_loop : LoopEnv → LoopState → LoopState
unfolding handle_each
stop_loop env s = record s {
  daemon = handle_each env s.waiting s.daemon;
  waiting = [];
  stopped = true;
}

abbrev pass_gate : List Wake → Daemon → Option CircuitBreaker → Daemon × Option Verdict
pass_gate wakes d none = (d, some admitted)
pass_gate wakes d (some cb) =
    let (cb', verdict) = allow wakes cb in (record d { breaker = some cb' }, verdict)

abbrev is_admitted : Option Verdict → Bool
is_admitted (some admitted) = true
is_admitted _ = false

-- The breaker's snapshot, or else the backoff's.
abbrev snapshot_of : RetryBackoff → Option CircuitBreaker → ProviderStateSnapshot
snapshot_of backoff none = phonewave.Backoff.snapshot backoff
snapshot_of backoff (some cb) = phonewave.Breaker.snapshot cb

-- The retry branch, which waits in Allow and goes on with the cycle only if that admits it.
unfoldable pub retry_branch : LoopEnv → CycleInput → List Wake → ℕ → Bool → LoopState → LoopState
unfolding retry_cycle
retry_branch env c wakes draw writable s = elim s.backoff [
  | none ↦ s
  | some backoff ↦
      let (d, verdict) = pass_gate wakes s.daemon s.daemon.breaker in
      let (backoff', d') = retry_cycle env.options c backoff d in
      if is_admitted verdict
      then record s {
        daemon = d';
        backoff = some backoff';
        retry_wait = next backoff' draw;
        snapshot = if writable then snapshot_of backoff' d'.breaker else s.snapshot;
      }
      else record s { daemon = d; retry_wait = next backoff draw }
]

-- One step, of a loop that has not stopped.
unfoldable pub loop_step : LoopEnv → Input → LoopState → LoopState
unfolding stop_loop send_event work_once retry_branch
loop_step env cancel s = stop_loop env s
loop_step env channel_closed s = stop_loop env s
loop_step env watch_error s = s
loop_step env idle_elapsed s = if nat_eq env.idle 0 then s else stop_loop env s
loop_step env work s = work_once env s
loop_step env (receive ev) s = send_event env ev s
loop_step env (retry c wakes draw writable) s = retry_branch env c wakes draw writable s

unfoldable pub run_loop : LoopEnv → List Input → LoopState → LoopState
unfolding loop_step
run_loop env [] s = s
run_loop env (input ∷ inputs) s =
    let s' = loop_step env input s in if s.stopped then s else run_loop env inputs s'
