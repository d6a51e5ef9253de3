-- ===== src/Daemon/Cycle.antt =====
-- One retry cycle of the event loop in daemon_runner.go, once the breaker has admitted it.
use phonewave.Prelude.{
  ℕ, zero, suc, ◌≡◌, refl, Bool, Option, none, some, [], ◌∷◌, arith, ltb, Text, if◌then◌else◌, ℤ,
  pos, negsuc,
}
use phonewave.Backoff.{RetryBackoff}
use phonewave.Breaker.{transient, record_delivery_error, is_trip, is_due}
use phonewave.Store.{Tx}
use phonewave.ErrorQueue.{Entry, Queue, pending_count}
use phonewave.Daemon.Defs.{
  Daemon, Options, Attempt, on_breaker, retry_pending, effective_max_retries,
}

-- What happens in one cycle; `counted` says whether PendingCount succeeds.
pub record CycleInput : Type 0 where
  pub claim : Tx
  pub queried : Bool
  pub claimer : Text
  pub seconds : ℕ
  pub attempt : Entry → Attempt
  pub counted : Bool
  pub now : ℕ

-- retry_count < limit, for a limit that may be negative
abbrev pub as_limit : ℤ → ℕ
as_limit (pos n) = n
as_limit (negsuc n) = 0

-- PendingCount of the error queue, if there is one.
unfoldable pub pending : Bool → ℤ → Option Queue → ℕ
pending counted max_retries none = 0
pending counted max_retries (some queue) =
    if counted then pending_count (as_limit max_retries) queue else 0

unfoldable pub retry_cycle : Options → CycleInput → RetryBackoff → Daemon → RetryBackoff × Daemon
unfolding pending
retry_cycle o c backoff d =
    let (d', successes) = retry_pending o c.claim c.queried c.claimer c.seconds c.attempt d in
    if ltb 0 successes
    then (
      phonewave.Backoff.record_success backoff,
      record d' { breaker = on_breaker phonewave.Breaker.record_success d'.breaker },
    )
    else (
      phonewave.Backoff.record_failure backoff,
      if ltb 0 (pending c.counted o.max_retries d'.queue)
          then record d' {
            breaker =
                on_breaker
                  (record_delivery_error c.now (record { kind = transient; reset_at = none }))
                  d'.breaker;
          }
          else d',
    )

-- The daemon and the number of successes after the retries.
abbrev pub retried_daemon : Options → CycleInput → Daemon → Daemon × ℕ
retried_daemon o c d = retry_pending o c.claim c.queried c.claimer c.seconds c.attempt d

retry_pending-breaker :
    (o : Options) (c : CycleInput) (d : Daemon) → (retried_daemon o c d).0.breaker ≡ d.breaker
unfolding retry_pending
retry_pending-breaker o c d = ground arith

pending_count-zero : (queue : Queue) → pending_count 0 queue ≡ 0
unfolding pending_count
pending_count-zero [] = refl
pending_count-zero (e ∷ queue) = ground (arith, pending_count-zero queue)

-- A maximum of retries that is not positive.
abbrev pub IsDefault : ℤ → Type 0
IsDefault max_retries = as_limit max_retries ≡ 0

pending-zero :
    (counted : Bool) (max_retries : ℤ) (q : Option Queue)
    → IsDefault max_retries
    → pending counted max_retries q ≡ 0
unfolding pending
pending-zero counted max_retries none h = refl
pending-zero counted max_retries (some queue) h = rw h (ground (arith, pending_count-zero queue))

default-ten : (m : ℤ) → IsDefault m → effective_max_retries m ≡ 10
unfolding effective_max_retries
default-ten (pos zero) e = refl
default-ten (pos (suc n)) e = omega (arith, e)
default-ten (negsuc n) e = refl

-- With a maximum of retries that is not positive, entries are tried up to ten times, but a cycle with no
-- success never trips the breaker, whatever is pending: it stays as it was.
pub retry_cycle-untripped :
    (o : Options) (c : CycleInput) (backoff : RetryBackoff) (d : Daemon)
    → IsDefault o.max_retries
    → (retried_daemon o c d).1 ≡ 0
    → (effective_max_retries o.max_retries ≡ 10)
      × ((retry_cycle o c backoff d).1.breaker ≡ d.breaker)
unfolding retry_cycle
retry_cycle-untripped o c backoff d h none_ = (
  default-ten o.max_retries h,
  rw none_ (
      rw (pending-zero c.counted o.max_retries (retried_daemon o c d).0.queue h)
        (retry_pending-breaker o c d)),
)
