-- ===== src/Daemon/Serving.antt =====
-- No event that the loop receives is lost, whenever the worker comes to it.
use phonewave.Prelude.{ℕ, ◌≡◌, ◌⊎◌, false, List, [], ◌∷◌, ◌++◌, if◌then◌else◌, nat_eq}
use phonewave.Daemon.Defs.{Daemon, FileEvent}
use phonewave.Daemon.Loop.{
  LoopState, LoopEnv, Input, cancel, channel_closed, watch_error, idle_elapsed, work, receive,
  retry, handle_each, stop_loop, loop_step,
}

-- The input is no retry.
abbrev pub NoRetry : Input → Type 0
NoRetry (retry c wakes draw writable) = ⊥
NoRetry _ = Unit

-- The events received until the loop stops.
unfoldable pub arrivals : ℕ → List Input → List FileEvent
arrivals idle [] = []
arrivals idle (cancel ∷ inputs) = []
arrivals idle (channel_closed ∷ inputs) = []
arrivals idle (watch_error ∷ inputs) = arrivals idle inputs
arrivals idle (idle_elapsed ∷ inputs) =
    let rest = arrivals idle inputs in if nat_eq idle 0 then rest else []
arrivals idle (work ∷ inputs) = arrivals idle inputs
arrivals idle (receive ev ∷ inputs) = ev ∷ arrivals idle inputs
arrivals idle (retry c wakes draw writable ∷ inputs) = arrivals idle inputs

-- The daemon once all that waits is handled.
abbrev settled : LoopEnv → LoopState → List FileEvent → Daemon
settled env s more = handle_each env (s.waiting ++ more) s.daemon

module _ (env : LoopEnv) where
  -- A step stops the loop, and no event counts after it, or goes on with no event lost.
  abbrev Served : Input → List Input → LoopState → Type 0
  Served input inputs s =
      ((loop_step env input s ≡ stop_loop env s) × (arrivals env.idle (input ∷ inputs) ≡ []))
      ⊎ ((settled env (loop_step env input s) (arrivals env.idle inputs)
            ≡ settled env s (arrivals env.idle (input ∷ inputs)))
          × ((loop_step env input s).stopped ≡ s.stopped))

  -- What has stopped has nothing waiting.
  abbrev Emptied : LoopState → Type 0
  Emptied s = (s.stopped ≡ false) ⊎ (s.waiting ≡ [])
