-- ===== src/Tests/Serving.antt =====
-- The event loop, with a channel for one event.
use phonewave.Prelude.{◌≡◌, refl, false, true, some, none, [], ◌∷◌, List, codes, lookup}
use phonewave.Provider.{active_provider_state}
use phonewave.Daemon.{FileEvent}
use phonewave.Daemon.Loop.{
  LoopState, LoopEnv, Input, receive, watch_error, work, cancel, start_loop, effective_idle_timeout,
}
use phonewave.Daemon.Serving.{arrivals}
use phonewave.Tests.Delivering.{options, happening, daemon, arrival}

abbrev loop_env : LoopEnv
loop_env = record { options = options; happening = λ ev. happening; capacity = 1; idle = 5 }

abbrev other : FileEvent
other = record arrival { name = codes "/r/a/outbox/other.txt" }

-- The second event finds the channel full.
abbrev inputs : List Input
inputs = receive arrival ∷ receive other ∷ watch_error ∷ work ∷ receive arrival ∷ cancel ∷ []

-- There are no retries.
abbrev begun : LoopState
begun = record {
  daemon = daemon;
  backoff = none;
  waiting = [];
  retry_wait = 0;
  snapshot = active_provider_state;
  stopped = false;
}

start_begun : start_loop 0 0 true active_provider_state daemon ≡ begun
unfolding start_loop phonewave.Prelude.Words.slt
start_begun = refl

received : arrivals 5 inputs ≡ arrival ∷ other ∷ arrival ∷ []
unfolding arrivals
received = refl

default_cap : effective_idle_timeout 0 ≡ 86_400_000_000_000
unfolding effective_idle_timeout phonewave.Prelude.Words.slt
default_cap = refl
